-- ===== src/Handler/Listing/Laws.antt =====
-- What a list request shows (channels.go).
use zmux_server.Base.{
  ℕ, ◌≡◌, ◌≢◌, refl, ap, subst, true, List, [], ◌∷◌, Option, none, some, nat_eq, All, map, lookup,
  is_some, Bool-cases, Option-cases, inl, inr, ◌↔◌,
}
use zmux_server.Channel.Types.{Channel}
use zmux_server.Channel.Views.{ClientChannel, b2b_client_view}
use zmux_server.ObjectStore.{Store, get_many, get_one}
use zmux_server.B2bService.{Service, ProcessManager, lookup_by_channel_id}
use zmux_server.ChannelService.Ops.{DataStore, System}
use zmux_server.Dto.Fields.{b2b_client}
use zmux_server.Handler.Authz.{is_owner, is_owner-some, owner-is_owner}
use zmux_server.Handler.Listing.{
  for_client, get_many_channels, owned, list_client, list_owned, get_channel_list,
}

-- A channel in the table, as its client sees it.
pub record IsSeen (objs : Store Channel) (id : ℕ) (v : ClientChannel) : Type 0 where
  pub channel : Channel
  pub listed : get_one id objs ≡ some channel
  pub seen : v ≡ b2b_client_view channel

-- Each view shows the channel of the id in its place.
abbrev pub AreSeen : Store Channel → List ℕ → List ClientChannel → Type 0
AreSeen objs [] [] = Unit
AreSeen objs (id ∷ ids) (v ∷ vs) = IsSeen objs id v × AreSeen objs ids vs
AreSeen objs _ _ = ⊥

many-AreSeen :
    (ids : List ℕ) (objs : Store Channel) (chs : List Channel)
    → get_many_channels ids objs ≡ some chs
    → AreSeen objs ids (map b2b_client_view chs)
unfolding get_many_channels get_many get_one
many-AreSeen [] objs chs h =
    subst (λ l. AreSeen objs [] (map b2b_client_view l)) (let e : [] ≡ chs = cc h in e) tt
many-AreSeen (id ∷ ids) objs chs h = elim (Option-cases (lookup id objs.by_id)) [
  | inl e ↦ absurd (cc (rw e at h))
  | inr (ch, e) ↦ elim (Option-cases (get_many_channels ids objs)) [
    | inl f ↦ absurd (cc (rw (e, f) at h))
    | inr (rest, f) ↦
        let same : ch ∷ rest ≡ chs = cc (rw (e, f) at h) in
        subst (λ l. AreSeen objs (id ∷ ids) (map b2b_client_view l)) same
          (record { channel = ch; listed = e; seen = refl }, many-AreSeen ids objs rest f)
  ]
]

-- `shown` is `ids` with all ids left out that are not bound to the client, in the same order.
pub data Selects {ℓ} {P : Type ℓ} (client : ℕ) (s : Service P) : List ℕ → List ℕ → Type ℓ where
  nothing : Selects client s [] []
  bound :
      {id : ℕ} {ids shown : List ℕ}
      → lookup_by_channel_id id s ≡ some client
      → Selects client s ids shown
      → Selects client s (id ∷ ids) (id ∷ shown)
  unbound :
      {id : ℕ} {ids shown : List ℕ}
      → lookup_by_channel_id id s ≢ some client
      → Selects client s ids shown
      → Selects client s (id ∷ ids) shown

owned-Selects {ℓ} :
    {P : Type ℓ} (client : ℕ) (ids : List ℕ) (s : Service P)
    → Selects client s ids (owned client ids s)
unfolding owned
owned-Selects client [] s = nothing
owned-Selects client (id ∷ ids) s =
    elim (Bool-cases (is_owner (lookup_by_channel_id id s) client)) [
      | inl own ↦ rw own (
          bound (is_owner-some (lookup_by_channel_id id s) client own) (owned-Selects client ids s))
      | inr other ↦ rw other (
          unbound (λ e. cc (other, owner-is_owner (lookup_by_channel_id id s) client e))
            (owned-Selects client ids s))
    ]

list_client-AreSeen :
    (ids : List ℕ) (objs : Store Channel) (vs : List ClientChannel) (o : Option (List Channel))
    → get_many_channels ids objs ≡ o
    → list_client o ≡ for_client vs
    → AreSeen objs ids vs
list_client-AreSeen ids objs vs none e h = absurd (cc h)
list_client-AreSeen ids objs vs (some chs) e h =
    subst (AreSeen objs ids) (let q : map b2b_client_view chs ≡ vs = cc h in q)
      (many-AreSeen ids objs chs e)

list_owned-AreSeen :
    (ids : List ℕ) (objs : Store Channel) (vs : List ClientChannel)
    → list_owned ids objs ≡ for_client vs
    → AreSeen objs ids vs
list_owned-AreSeen [] objs vs h = subst (AreSeen objs []) (let q : [] ≡ vs = cc h in q) tt
list_owned-AreSeen (id ∷ ids) objs vs h =
    list_client-AreSeen (id ∷ ids) objs vs (get_many_channels (id ∷ ids) objs) refl h

-- When a client asks for channels by id and gets a list, the list shows, in order, the channels
-- in the table under those requested ids that are bound to the client, and no others.
pub get_channel_list-owned {ℓ} :
    {D P Q : Type ℓ} (db : DataStore D) (pm : ProcessManager P) (qm : ProcessManager Q)
    (client id : ℕ) (ids : List ℕ) (sys : System D P Q) (vs : List ClientChannel)
    → get_channel_list db pm qm (some (record { id = client; kind = b2b_client })) (id ∷ ids) sys
      ≡ for_client vs
    → (shown : List ℕ) × Selects client sys.service (id ∷ ids) shown × AreSeen sys.objs shown vs
unfolding get_channel_list
get_channel_list-owned db pm qm client id ids sys vs h = (
  owned client (id ∷ ids) sys.service,
  owned-Selects client (id ∷ ids) sys.service,
  list_owned-AreSeen (owned client (id ∷ ids) sys.service) sys.objs vs h,
)

abbrev pub AreListed : Store Channel → List ℕ → Type 0
AreListed objs ids = All (λ id. is_some (get_one id objs) ≡ true) ids

-- `GetMany` of the channel service returns exactly when every id is in the table; it panics
-- otherwise.
pub get_many_channels_iff :
    (ids : List ℕ) (objs : Store Channel)
    → (is_some (get_many_channels ids objs) ≡ true) ↔ AreListed objs ids
unfolding get_many_channels get_many get_one
get_many_channels_iff [] objs = (λ h. tt, λ h. refl)
get_many_channels_iff (id ∷ ids) objs = elim (Option-cases (lookup id objs.by_id)) [
  | inl e ↦ (λ h. absurd (cc (rw e at h)), λ (h, more). absurd (cc (rw e at h)))
  | inr (ch, e) ↦ elim (Option-cases (get_many_channels ids objs)) [
    | inl f ↦ (
      λ h. absurd (cc (rw (e, f) at h)),
      λ (h, more). absurd (cc (ap is_some f, (get_many_channels_iff ids objs).1 more)),
    )
    | inr (rest, f) ↦ (
      λ h. (ap is_some e, (get_many_channels_iff ids objs).0 (ap is_some f)),
      λ h. rw (e, f) refl,
    )
  ]
]
