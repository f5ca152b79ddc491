-- ===== src/Handler/Listing.antt =====
-- internal/http/handler/channels.go: the reads of channels, for each kind of principal.
pub mod Laws
use zmux_server.Base.{
  ℕ, ◌≡◌, refl, ap, sym, ◌∙◌, subst, Bool, true, false, List, [], ◌∷◌, ◌++◌, Option, none, some,
  Bytes, nat_eq, ◌==◌, if◌then◌else◌, All, map, is_some, Bool-cases, Option-cases, inl, inr,
}
use zmux_server.Channel.Types.{Channel}
use zmux_server.Channel.Views.{AdminChannel, ClientChannel, admin_view, b2b_client_view}
use zmux_server.ObjectStore.{Store, get_many, get_one, get_list}
use zmux_server.B2bClient.{ClientView}
use zmux_server.B2bService.{Service, ProcessManager, lookup_by_channel_id, build_view}
use zmux_server.ChannelService.Ops.{
  DataStore, System, Outcome, done, failed, panicked, get_channel, get_channels, not_found,
  client_not_found, with_client,
}
use zmux_server.Dto.Fields.{Kind, admin, b2b_client}
use zmux_server.Handler.Authz.{Principal, is_owner, is_owner-some}

-- The type assertions over the values of `GetMany`: the zero value of a missing id is no channel.
abbrev pub as_channels : List (Option Channel) → Option (List Channel)
as_channels [] = some []
as_channels (none ∷ vals) = none
as_channels (some ch ∷ vals) = elim (as_channels vals) [ none ↦ none | some chs ↦ some (ch ∷ chs) ]

-- What a list request gives; a panic of the handler, or an error.
pub data Listing : Type 0 where
  for_admin : List AdminChannel → Listing
  for_client : List ClientChannel → Listing
  crashed refused : Listing

abbrev pub list_admin : Option (List Channel) → Listing
list_admin none = crashed
list_admin (some chs) = for_admin (map admin_view chs)

abbrev pub list_client : Option (List Channel) → Listing
list_client none = crashed
list_client (some chs) = for_client (map b2b_client_view chs)

abbrev pub view_for : Kind → Outcome Channel → Listing
view_for k (failed e) = refused
view_for k panicked = crashed
view_for admin (done ch) = for_admin (admin_view ch ∷ [])
view_for b2b_client (done ch) = for_client (b2b_client_view ch ∷ [])

-- `GetMany` of the service, on its table of channels; `none` is a panic.
unfoldable pub get_many_channels : List ℕ → Store Channel → Option (List Channel)
get_many_channels ids objs = as_channels (get_many ids objs).0

-- The requested ids that are the client's.
unfoldable pub owned {ℓ} : {P : Type ℓ} → ℕ → List ℕ → Service P → List ℕ
owned client [] s = []
owned client (id ∷ ids) s =
    let rest = owned client ids s in
    if is_owner (lookup_by_channel_id id s) client then id ∷ rest else rest

abbrev pub list_owned : List ℕ → Store Channel → Listing
list_owned [] objs = for_client []
list_owned (id ∷ ids) objs = list_client (get_many_channels (id ∷ ids) objs)

abbrev pub list_of_client : Outcome ClientView → Store Channel → Listing
list_of_client (done v) objs = list_client (get_many_channels v.channel_ids objs)
list_of_client (failed e) objs = refused
list_of_client panicked objs = crashed

module _ {ℓ} {D P Q : Type ℓ} where
  -- `getChannelByPrincipal`
  unfoldable pub get_channel_for : Option Principal → ℕ → System D P Q → Listing
  get_channel_for none id sys = refused
  get_channel_for (some p) id sys = view_for p.kind (get_channel id sys)

module _ {ℓ} {D P Q : Type ℓ} (db : DataStore D) (pm : ProcessManager P)
    (qm : ProcessManager Q) where
  abbrev pub list_for : Kind → ℕ → List ℕ → System D P Q → Listing
  list_for admin c [] sys = for_admin (map admin_view (get_channels sys))
  list_for admin c (id ∷ ids) sys = list_admin (get_many_channels (id ∷ ids) sys.objs)
  list_for b2b_client c [] sys = list_of_client (with_client db pm qm c sys done) sys.objs
  list_for b2b_client c (id ∷ ids) sys = list_owned (owned c (id ∷ ids) sys.service) sys.objs

  -- `getChannelListByPrincipal`
  unfoldable pub get_channel_list : Option Principal → List ℕ → System D P Q → Listing
  get_channel_list none ids sys = refused
  get_channel_list (some p) ids sys = list_for p.kind p.id ids sys
