-- ===== src/ChannelService/Ops.antt =====
-- internal/service/channel.go: the operations on channels. The service's lock makes each call atomic.
-- The object table holds the pointer that a caller passed, so the mark that `RegisterChannel` sets on
-- a channel shows in the table.
pub mod Laws
pub mod Create
use zmux_server.Base.{
  ℕ, Bool, true, false, List, [], ◌∷◌, Option, none, some, Bytes, if◌then◌else◌, nat_eq, ◌==◌,
  is_some,
}
use zmux_server.Base.Int.{ℤ}
use zmux_server.Channel.Types.{Channel, ChannelModel}
use zmux_server.Channel.Clone.{model}
use zmux_server.ObjectStore.{Store, upsert, remove, get_one, get_many, get_list}
use zmux_server.B2bClient.{Client, ClientView}
use zmux_server.B2bService.{
  Service, ProcessManager, register_channel, unregister_channel, build_view, seconds,
}
use zmux_server.Remux.{build_argv}
use zmux_server.ChannelService.{
  QuotaExceededError, enforce_quota_on_create, enforce_quota_on_update,
}

-- What the service calls of its data store: a write of the JSON of a model; `none` is an error.
pub record DataStore {ℓ} (D : Type ℓ) : Type ℓ where
  pub create : ChannelModel → D → Option (ℕ × D)
  pub update : ℕ → ChannelModel → D → Option D
  pub erase : ℕ → D → Option D

pub data OpError : Type 0 where
  not_found client_not_found store_failed : OpError
  quota_exceeded : QuotaExceededError → OpError

-- An error carries no state: the tables of the service are as before the call then, since no error is
-- returned after the first of them is changed, and what a data store that fails has changed is left
-- out.
pub data Outcome {ℓ} (A : Type ℓ) : Type ℓ where
  done : A → Outcome A
  failed : OpError → Outcome A
  panicked : Outcome A

-- `ChannelService`, with the clients' service that it calls
pub record System {ℓ} (D P Q : Type ℓ) : Type ℓ where
  pub ds : D
  pub objs : Store Channel
  pub procmngr : Q
  pub clients : Store Client
  pub service : Service P

abbrev pub require {ℓ κ} :
    {A : Type ℓ} {B : Type κ} → Option A → OpError → (A → Outcome B) → Outcome B
require none e f = failed e
require (some a) e f = f a

abbrev pub survive {ℓ κ} : {A : Type ℓ} {B : Type κ} → Option A → (A → Outcome B) → Outcome B
survive none f = panicked
survive (some a) f = f a

abbrev pub unless {ℓ} : {B : Type ℓ} → Option OpError → Outcome B → Outcome B
unless none b = b
unless (some e) b = failed e

abbrev pub as_error : Option QuotaExceededError → Option OpError
as_error none = none
as_error (some e) = some (quota_exceeded e)

module _ {ℓ} {D P Q : Type ℓ} (db : DataStore D) (pm : ProcessManager P)
    (qm : ProcessManager Q) where
  -- `b2bclntsvc.GetOne`, and what follows
  unfoldable pub with_client {κ} :
      {B : Type κ} → ℕ → System D P Q → (ClientView → Outcome B) → Outcome B
  unfolding get_one build_view
  with_client b sys f =
      require (get_one b sys.clients) client_not_found
        (λ c. survive (build_view pm sys.service c) f)

  -- The part of `Create` and `Update` that puts a channel into service.
  unfoldable pub attach_to : Option ℕ → Channel → System D P Q → Outcome (System D P Q)
  unfolding register_channel upsert
  attach_to (some b) ch sys =
      survive (register_channel pm b ch sys.service)
        (λ (s, started). done (record sys { service = s; objs = upsert ch.id started sys.objs }))
  attach_to none ch sys =
      if ch.enabled
      then survive (qm.add ch.id (build_argv ch) (seconds ch.restart_sec) sys.procmngr)
          (λ q. done (record sys { procmngr = q }))
      else done sys

  unfoldable pub attach : Channel → System D P Q → Outcome (System D P Q)
  unfolding attach_to
  attach ch sys = attach_to ch.b2b_client_id ch sys

  -- The part of `Update` and `Delete` that takes a channel out of service.
  unfoldable pub detach_from : Option ℕ → Channel → System D P Q → Outcome (System D P Q)
  unfolding unregister_channel
  detach_from (some b) ch sys =
      survive (unregister_channel pm b ch sys.service) (λ s. done (record sys { service = s }))
  detach_from none ch sys =
      if ch.enabled
      then survive (qm.close ch.id sys.procmngr) (λ q. done (record sys { procmngr = q }))
      else done sys

  unfoldable pub detach : Channel → System D P Q → Outcome (System D P Q)
  unfolding detach_from
  detach ch sys = detach_from ch.b2b_client_id ch sys

  -- After the checks of `Create`.
  unfoldable pub create_checked : Channel → System D P Q → Outcome (System D P Q)
  unfolding attach model upsert
  create_checked ch sys = require (db.create (model ch) sys.ds) store_failed (λ (id, ds).
      let ch' = record ch { id = id } in
      attach ch' (record sys { ds = ds; objs = upsert id ch' sys.objs }))

  unfoldable pub create_for : Option ℕ → Channel → System D P Q → Outcome (System D P Q)
  unfolding with_client create_checked enforce_quota_on_create
  create_for none ch sys = create_checked ch sys
  create_for (some b) ch sys =
      with_client b sys
        (λ v. unless (as_error (enforce_quota_on_create v ch)) (create_checked ch sys))

  -- `Create`
  unfoldable pub create : Channel → System D P Q → Outcome (System D P Q)
  unfolding create_for
  create ch sys = create_for ch.b2b_client_id ch sys

  -- `curCh.B2BClientID != nil && *ch.B2BClientID == *curCh.B2BClientID`
  abbrev pub same_client : ℕ → Option ℕ → Bool
  same_client b none = false
  same_client b (some c) = b == c

  -- After the checks of `Update`.
  unfoldable pub update_checked : Channel → Channel → System D P Q → Outcome (System D P Q)
  unfolding attach detach model upsert
  update_checked cur ch sys = require (db.update ch.id (model ch) sys.ds) store_failed (λ ds.
      elim (detach cur (record sys { ds = ds; objs = upsert ch.id ch sys.objs })) [
        | done sys' ↦ attach ch sys'
        | failed e ↦ failed e
        | panicked ↦ panicked
      ])

  unfoldable pub update_for : Option ℕ → Channel → Channel → System D P Q → Outcome (System D P Q)
  unfolding with_client update_checked enforce_quota_on_create enforce_quota_on_update
  update_for none cur ch sys = update_checked cur ch sys
  update_for (some b) cur ch sys = with_client b sys (λ v.
      unless
        (as_error (
          if same_client b cur.b2b_client_id
          then enforce_quota_on_update v cur ch
          else enforce_quota_on_create v ch))
        (update_checked cur ch sys))

  -- `Update`
  unfoldable pub update : Channel → System D P Q → Outcome (System D P Q)
  unfolding get_one update_for
  update ch sys =
      require (get_one ch.id sys.objs) not_found (λ cur. update_for ch.b2b_client_id cur ch sys)

  -- `Delete`
  unfoldable pub erase : ℕ → System D P Q → Outcome (System D P Q)
  unfolding get_one remove detach
  erase id sys = require (get_one id sys.objs) not_found (λ ch.
      require (db.erase id sys.ds) store_failed
        (λ ds. detach ch (record sys { ds = ds; objs = remove id sys.objs })))

module _ {ℓ} {D P Q : Type ℓ} where
  -- `GetOne`
  unfoldable pub get_channel : ℕ → System D P Q → Outcome Channel
  unfolding get_one
  get_channel id sys = require (get_one id sys.objs) not_found (λ ch. done ch)

  -- `GetList`
  unfoldable pub get_channels : System D P Q → List Channel
  unfolding get_list
  get_channels sys = (get_list sys.objs).1

  -- `Exists`
  unfoldable pub exists : ℕ → System D P Q → Bool
  unfolding get_one
  exists id sys = is_some (get_one id sys.objs)
