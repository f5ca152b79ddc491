-- ===== src/ChannelService/Quota.antt =====
-- What a channel of a client has passed when its quotas are kept (internal/service/channel.go).
use zmux_server.Base.{
  ◌∙◌, Option-cases, ◌≡◌, ◌↔◌, refl, true, false, List, [], ◌∷◌, Option, none, some, Bytes, Map,
  if◌then◌else◌, lookup, suc, ◌+◌, nat_eq, bytes_eq, nat_beq_iff, ◌==◌, Bool-cases, inl, inr, arith,
  All, not, ◌&&◌,
}
use zmux_server.Base.Int.{ℤ, pos, negsuc, incr, ltb_ℤ, leb_ℤ}
use zmux_server.Channel.Types.{Channel, Output}
use zmux_server.Channel.Outputs.{OutputEntry, outputs_by_ref}
use zmux_server.B2bClient.{Client, ClientView, slice_to_map_by_ref, view}
use zmux_server.B2bClient.Quota.{or_zero, EnabledOutputView, view_quotas, view_channels}
use zmux_server.B2bService.{Service, ProcessManager, build_view}
use zmux_server.B2bService.Usage.{Registry, Counts, enabled_channels}
use zmux_server.ChannelService.{
  check_enabled_channel_quota, check_output, check_outputs, check_enabled_output_quotas,
  enforce_quota_on_create, enforce_quota_on_update, check_new_outputs, was_enabled, or_else, Quotas,
}

-- One more fits the quota of an output, where it has one.
abbrev pub Fits : Option EnabledOutputView → Type 0
Fits none = Unit
Fits (some q) = ltb_ℤ q.quota (incr q.usage) ≡ false

-- The enabled output `o` fits the quota of its ref.
abbrev pub OutputFits : Quotas → Output → Type 0
OutputFits quotas o = if o.enabled then Fits (lookup o.ref quotas) else Unit

check_output_iff :
    (v : ClientView) (ref : Bytes) (q : Option EnabledOutputView)
    → (check_output v ref q ≡ none) ↔ Fits q
unfolding check_output
check_output_iff v ref none = ((λ h. tt), (λ h. refl))
check_output_iff v ref (some q) = elim (Bool-cases (ltb_ℤ q.quota (incr q.usage))) [
  | inl over ↦ ((λ h. absurd (cc (rw over at h))), (λ h. absurd (cc (over, h))))
  | inr room ↦ ((λ h. room), (λ h. rw room refl))
]

or_else_iff {ℓ} : {A : Type ℓ} (a b : Option A) → (or_else a b ≡ none) ↔ ((a ≡ none) × (b ≡ none))
or_else_iff none b = ((λ h. (refl, h)), (λ h. h.1))
or_else_iff (some a) b = ((λ h. absurd (cc h)), (λ h. absurd (cc (h.0))))

check_outputs_iff :
    (v : ClientView) (quotas : Quotas) (os : List Output)
    → (check_outputs v quotas os ≡ none) ↔ All (OutputFits quotas) os
unfolding check_outputs
check_outputs_iff v quotas [] = ((λ h. tt), (λ h. refl))
check_outputs_iff v quotas (o ∷ os) =
    let rest = check_outputs_iff v quotas os in
    let this = check_output_iff v o.ref (lookup o.ref quotas) in
    let both =
      or_else_iff (check_output v o.ref (lookup o.ref quotas)) (check_outputs v quotas os) in
    elim (Bool-cases o.enabled) [
      | inr off ↦ ((λ h. (rw off tt, rest.0 (rw off at h))), (λ h. rw off (rest.1 h.1)))
      | inl on ↦ (
        (λ h. let (a, b) = both.0 (rw on at h) in (rw on (this.0 a), rest.0 b)),
        (λ h. rw on (both.1 (this.1 (rw on at (h.0)), rest.1 h.1))),
      )
    ]

-- One more enabled channel fits.
abbrev pub ChannelFits : ClientView → Channel → Type 0
ChannelFits v ch =
    if ch.enabled
    then ltb_ℤ v.quotas.enabled_channels.quota (incr v.quotas.enabled_channels.usage) ≡ false
    else Unit

check_enabled_channel_quota_iff :
    (v : ClientView) (ch : Channel) → (check_enabled_channel_quota v ch ≡ none) ↔ ChannelFits v ch
unfolding check_enabled_channel_quota
check_enabled_channel_quota_iff v ch = elim (Bool-cases ch.enabled) [
  | inr off ↦ ((λ h. rw off tt), (λ h. rw off refl))
  | inl on ↦
      elim (Bool-cases
        (ltb_ℤ v.quotas.enabled_channels.quota (incr v.quotas.enabled_channels.usage))) [
          | inl over ↦
              ((λ h. absurd (cc (rw (on, over) at h))), (λ h. absurd (cc (over, rw on at h))))
          | inr room ↦ ((λ h. rw on room), (λ h. rw (on, room) refl))
        ]
]

-- The checks of `Create` pass exactly when the channel, if enabled, and each enabled output with
-- a quota leave room for one more.
pub enforce_quota_on_create_iff :
    (v : ClientView) (ch : Channel)
    → (enforce_quota_on_create v ch ≡ none) ↔ (
        ChannelFits v ch
        × All (OutputFits (slice_to_map_by_ref v.quotas.enabled_outputs [])) ch.outputs)
unfolding enforce_quota_on_create check_enabled_output_quotas
enforce_quota_on_create_iff v ch =
    let both = or_else_iff (check_enabled_channel_quota v ch) (check_enabled_output_quotas v ch) in
    let one = check_enabled_channel_quota_iff v ch in
    let outs = check_outputs_iff v (slice_to_map_by_ref v.quotas.enabled_outputs []) ch.outputs in
    ((λ h. let (a, b) = both.0 h in (one.0 a, outs.0 b)), (λ h. both.1 (one.1 h.0, outs.1 h.1)))

-- Every enabled output of `next` was enabled before.
abbrev pub Kept : Map Bytes OutputEntry → List Output → Type 0
Kept prev os = All (λ o. o.enabled ≡ true → was_enabled (lookup o.ref prev) ≡ true) os

check_new_outputs-Kept :
    (v : ClientView) (quotas : Quotas) (prev : Map Bytes OutputEntry) (os : List Output)
    → Kept prev os
    → check_new_outputs v quotas prev os ≡ none
unfolding check_new_outputs
check_new_outputs-Kept v quotas prev [] k = refl
check_new_outputs-Kept v quotas prev (o ∷ os) k =
    let rest = check_new_outputs-Kept v quotas prev os k.1 in
    elim (Bool-cases o.enabled) [ inr off ↦ rw off rest | inl on ↦ rw (on, k.0 on) rest ]

-- An update that enables neither the channel nor an output that was not enabled before passes
-- the quota checks, whatever the counters are.
pub enforce_quota_on_update-Kept :
    (v : ClientView) (prev next : Channel)
    → (next.enabled ≡ true → prev.enabled ≡ true)
    → Kept (outputs_by_ref prev.outputs) next.outputs
    → enforce_quota_on_update v prev next ≡ none
unfolding enforce_quota_on_update
enforce_quota_on_update-Kept v prev next on k =
    let new : (not prev.enabled && next.enabled) ≡ false = ground arith in
    rw (new, check_new_outputs-Kept v (slice_to_map_by_ref v.quotas.enabled_outputs []) _ _ k) refl

not_ltb→leb : (a b : ℤ) → ltb_ℤ b a ≡ false → leb_ℤ a b ≡ true
not_ltb→leb (pos a) (pos b) h = ground arith
not_ltb→leb (pos a) (negsuc b) h = cc
not_ltb→leb (negsuc a) (pos b) h = refl
not_ltb→leb (negsuc a) (negsuc b) h = ground arith

build_view-channels {ℓ} :
    {P : Type ℓ} (pm : ProcessManager P) (s : Service P) (c : Client) (v : ClientView)
    → build_view pm s c ≡ some v
    → (v.quotas.enabled_channels.quota ≡ c.quotas.enabled_channels.quota)
      × (v.quotas.enabled_channels.usage ≡ or_zero (lookup c.id s.channels_usage))
unfolding build_view view view_quotas view_channels
build_view-channels pm s c v seen = elim (Option-cases (lookup c.id s.procmngrs)) [
  | inl missing ↦ absurd (cc (rw missing at seen))
  | inr (p, found) ↦ let e = rw found at seen in (cc e, cc e)
]

-- With counters that agree with a registry, an enabled channel that passes the checks of
-- `Create` leaves its client, once registered, with at most as many enabled channels as its
-- quota.
pub create-quota {ℓ} :
    {P : Type ℓ} (pm : ProcessManager P) (s : Service P) (reg : Registry) (c : Client)
    (v : ClientView) (ch : Channel)
    → Counts s reg
    → build_view pm s c ≡ some v
    → enforce_quota_on_create v ch ≡ none
    → ch.enabled ≡ true
    → leb_ℤ (pos (enabled_channels c.id ((c.id, ch) ∷ reg))) c.quotas.enabled_channels.quota ≡ true
create-quota pm s reg c v ch k seen accepted on =
    let fits : ltb_ℤ v.quotas.enabled_channels.quota (incr v.quotas.enabled_channels.usage)
        ≡ false =
      rw on at (((enforce_quota_on_create_iff v ch).0 accepted).0) in
    let (q, u') = build_view-channels pm s c v seen in
    let u = u' ∙ k.channels c.id in
    let own : (c.id == c.id) ≡ true = (nat_beq_iff c.id c.id).1 refl in
    let room : ltb_ℤ c.quotas.enabled_channels.quota (pos (suc (enabled_channels c.id reg)))
        ≡ false =
      rw (q, u) at fits in
    let e : 1 + enabled_channels c.id reg ≡ suc (enabled_channels c.id reg) = omega arith in
    let count : enabled_channels c.id ((c.id, ch) ∷ reg) ≡ suc (enabled_channels c.id reg) =
      rw (own, on) e in
    rw count (not_ltb→leb (pos (suc (enabled_channels c.id reg))) _ room)
