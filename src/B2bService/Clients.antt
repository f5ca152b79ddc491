-- ===== src/B2bService/Clients.antt =====
-- internal/service/b2b_client.go: the clients themselves, with the index of their tokens. The lock makes
-- each call atomic.
pub mod Tokens
pub mod Laws
use zmux_server.Base.{
  ℕ, Bool, true, false, List, [], ◌∷◌, ◌++◌, Option, none, some, Bytes, codes, Map, if◌then◌else◌,
  lookup, insert, delete, nat_eq, bytes_eq, is_some,
}
use zmux_server.Base.Int.{ℤ}
use zmux_server.ObjectStore.{Store, upsert, remove, get_one}
use zmux_server.B2bClient.{
  Client, ClientResource, ClientModel, ClientView, new_client_model, new_client,
}
use zmux_server.B2bService.{ProcessManager, Service, or_nil, build_view}

-- What the service calls of its data store: a write of the JSON of a model; `none` is an error.
pub record ClientStore {ℓ} (D : Type ℓ) : Type ℓ where
  pub create : Option ClientModel → D → Option (ℕ × D)
  pub update : ℕ → Option ClientModel → D → Option D
  pub erase : ℕ → D → Option D

-- `NewProcessManager2` and `UpdateLimits`, with the preflight limit first; `none` is a panic.
pub record Limited {ℓ} (P : Type ℓ) : Type ℓ where
  pub make : ℤ → ℤ → P
  pub update_limits : ℤ → ℤ → P → Option P

-- `B2BClientService`
pub record Clients {ℓ} (D P : Type ℓ) : Type ℓ where
  pub ds : D
  pub objs : Store Client
  pub by_token : Map Bytes Client
  pub service : Service P

pub data Reply {ℓ} (A : Type ℓ) : Type ℓ where
  replied : A → Reply A
  not_found attached store_failed token_failed panicked : Reply A

-- `genUniqueB2BToken` over the random texts that are drawn; an error once there are no more.
unfoldable pub gen_unique_token : List Bytes → Map Bytes Client → Option Bytes
gen_unique_token [] index = none
gen_unique_token (raw ∷ raws) index =
    let rest = gen_unique_token raws index in
    if is_some (lookup (codes "b2b_" ++ raw) index) then rest else some (codes "b2b_" ++ raw)

module _ {ℓ} {D P : Type ℓ} (db : ClientStore D) (pm : ProcessManager P) (lm : Limited P) where
  -- The end of `Create` and `Update`: the view of the client.
  abbrev pub with_view : Option ClientView → Clients D P → Reply (ClientView × Clients D P)
  with_view none s = panicked
  with_view (some v) s = replied (v, s)

  abbrev pub created : Option Client → ℕ → D → Clients D P → Reply (ClientView × Clients D P)
  created none id ds s = panicked
  created (some c) id ds s =
      let online = c.quotas.online_channels in
      let after = record s {
        ds = ds;
        objs = upsert id c s.objs;
        by_token = insert c.bearer_token c s.by_token;
        service = record (s.service) {
          outputs_usage = insert id [] s.service.outputs_usage;
          procmngrs = insert id (lm.make online.max_preflight online.quota) s.service.procmngrs;
        };
      } in
      with_view (build_view pm after.service c) after

  abbrev pub create_stored :
      Option (ℕ × D) → Option ClientModel → Clients D P → Reply (ClientView × Clients D P)
  create_stored none m s = store_failed
  create_stored (some (id, ds)) m s = created (new_client m id) id ds s

  abbrev pub create_token :
      Option Bytes → ClientResource → Clients D P → Reply (ClientView × Clients D P)
  create_token none r s = token_failed
  create_token (some token) r s =
      create_stored (db.create (new_client_model (some r) token) s.ds)
        (new_client_model (some r) token) s

  -- `Create`
  unfoldable pub create :
      ClientResource → List Bytes → Clients D P → Reply (ClientView × Clients D P)
  create r raws s = create_token (gen_unique_token raws s.by_token) r s

  abbrev pub limited : Option P → Client → ℕ → D → Clients D P → Reply (ClientView × Clients D P)
  limited none c id ds s = panicked
  limited (some p) c id ds s =
      let after = record s {
        ds = ds;
        objs = upsert id c s.objs;
        by_token = insert c.bearer_token c s.by_token;
        service = record (s.service) { procmngrs = insert id p s.service.procmngrs };
      } in
      with_view (build_view pm after.service c) after

  abbrev pub updated : Option Client → P → ℕ → D → Clients D P → Reply (ClientView × Clients D P)
  updated none p id ds s = panicked
  updated (some c) p id ds s =
      let online = c.quotas.online_channels in
      limited (lm.update_limits online.max_preflight online.quota p) c id ds s

  abbrev pub update_stored :
      Option D → Option ClientModel → P → ℕ → Clients D P → Reply (ClientView × Clients D P)
  update_stored none m p id s = store_failed
  update_stored (some ds) m p id s = updated (new_client m id) p id ds s

  abbrev pub update_at :
      Option Client → Option P → ℕ → ClientResource → Clients D P → Reply (ClientView × Clients D P)
  update_at none o id r s = not_found
  update_at (some c) none id r s = not_found
  update_at (some c) (some p) id r s =
      let m = new_client_model (some r) c.bearer_token in
      update_stored (db.update id m s.ds) m p id s

  -- `Update`
  unfoldable pub update : ℕ → ClientResource → Clients D P → Reply (ClientView × Clients D P)
  update id r s = update_at (get_one id s.objs) (lookup id s.service.procmngrs) id r s

  abbrev pub erased : Option D → Client → ℕ → Clients D P → Reply (Clients D P)
  erased none c id s = store_failed
  erased (some ds) c id s = replied (record s {
    ds = ds;
    objs = remove id s.objs;
    by_token = delete c.bearer_token s.by_token;
    service = record (s.service) { procmngrs = delete id s.service.procmngrs };
  })

  abbrev pub erase_free : List ℕ → Client → ℕ → Clients D P → Reply (Clients D P)
  erase_free (ch ∷ chs) c id s = attached
  erase_free [] c id s = erased (db.erase id s.ds) c id s

  abbrev pub erase_at : Option Client → ℕ → Clients D P → Reply (Clients D P)
  erase_at none id s = not_found
  erase_at (some c) id s = erase_free (or_nil (lookup id s.service.client_channels)) c id s

  -- `Delete`
  unfoldable pub erase : ℕ → Clients D P → Reply (Clients D P)
  erase id s = erase_at (get_one id s.objs) id s

module _ {ℓ} {D P : Type ℓ} where
  -- `LookupByToken`
  unfoldable pub lookup_by_token : Bytes → Clients D P → Option Client
  lookup_by_token token s = lookup token s.by_token
