-- ===== src/B2bService/Usage.antt =====
-- What the counters of internal/service/b2b_client.go hold, as a recount over the channels of the
-- clients.
use zmux_server.Base.{
  ℕ, ◌+◌, ◌≡◌, refl, ap, ◌∙◌, Bool, true, false, List, [], ◌∷◌, ◌++◌, some, Bytes, Map,
  if◌then◌else◌, lookup, insert, lookup-insert, nat_eq, bytes_eq, nat_beq_iff, ◌==◌, Option-cases,
  inl, inr, arith, is_some,
}
use zmux_server.Base.Int.{ℤ, pos, incr, decr}
use zmux_server.B2bClient.Quota.{or_zero}
use zmux_server.Channel.Types.{Channel}
use zmux_server.B2bService.Counters.{
  Usages, count_at, enabled_of, times, times-incr, times-decr, count_outputs, count_outputs-count,
  count_outputs-known,
}
use zmux_server.B2bService.{
  Service, ProcessManager, register_channel, unregister_channel, registered, unregistered, start,
  seconds, lookup_by_channel_id,
}
use zmux_server.Remux.{build_argv}

-- The channels in service, each with its client, the newest first.
abbrev pub Registry : Type 0
Registry = List (ℕ × Channel)

abbrev pub one_if : Bool → ℕ
one_if true = 1
one_if false = 0

-- How many channels of client `c` are enabled.
abbrev pub enabled_channels : ℕ → Registry → ℕ
enabled_channels c [] = 0
enabled_channels c ((b, ch) ∷ reg) =
    if b == c then one_if ch.enabled + enabled_channels c reg else enabled_channels c reg

-- How many enabled outputs with the ref `r` the channels of client `c` have.
abbrev pub enabled_outputs : ℕ → Bytes → Registry → ℕ
enabled_outputs c r [] = 0
enabled_outputs c r ((b, ch) ∷ reg) =
    if b == c then enabled_of r ch.outputs + enabled_outputs c r reg else enabled_outputs c r reg

-- The counters of `s` are those of the registry.
pub record Counts {ℓ} {P : Type ℓ} (s : Service P) (reg : Registry) : Type ℓ where
  pub channels : (c : ℕ) → or_zero (lookup c s.channels_usage) ≡ pos (enabled_channels c reg)
  pub outputs : (c : ℕ) (r : Bytes) → count_at c r s.outputs_usage ≡ pos (enabled_outputs c r reg)

abbrev pub count_channel : (ℤ → ℤ) → ℕ → Bool → Map ℕ ℤ → Map ℕ ℤ
count_channel op b on m = if on then insert b (op (or_zero (lookup b m))) m else m

count_channel-at :
    (op : ℤ → ℤ) (b c : ℕ) (on : Bool) (m : Map ℕ ℤ)
    → or_zero (lookup c (count_channel op b on m))
      ≡ (if b == c then times (one_if on) op (or_zero (lookup c m)) else or_zero (lookup c m))
count_channel-at op b c true m =
    ground (arith, nat_beq_iff b c, lookup-insert b c (op (or_zero (lookup b m))) m)
count_channel-at op b c false m = ground arith

shift_up :
    (own : Bool) (n k : ℕ) (z : ℤ)
    → z ≡ pos k
    → (if own then times n incr z else z) ≡ pos (if own then n + k else k)
shift_up true n k z h = ap (times n incr) h ∙ times-incr n k
shift_up false n k z h = h

shift_down :
    (own : Bool) (n k : ℕ) (z : ℤ)
    → z ≡ pos (if own then n + k else k)
    → (if own then times n decr z else z) ≡ pos k
shift_down true n k z h = ap (times n decr) h ∙ times-decr n k
shift_down false n k z h = h

enabled_channels-middle :
    (c b : ℕ) (ch : Channel) (front back : Registry)
    → enabled_channels c (front ++ ((b, ch) ∷ back))
      ≡ enabled_channels c ((b, ch) ∷ (front ++ back))
enabled_channels-middle c b ch [] back = refl
enabled_channels-middle c b ch ((b', ch') ∷ front) back =
    ground (arith, enabled_channels-middle c b ch front back)

enabled_outputs-middle :
    (c : ℕ) (r : Bytes) (b : ℕ) (ch : Channel) (front back : Registry)
    → enabled_outputs c r (front ++ ((b, ch) ∷ back))
      ≡ enabled_outputs c r ((b, ch) ∷ (front ++ back))
enabled_outputs-middle c r b ch [] back = refl
enabled_outputs-middle c r b ch ((b', ch') ∷ front) back =
    ground (arith, enabled_outputs-middle c r b ch front back)

module _ {ℓ} {P : Type ℓ} (pm : ProcessManager P) (b : ℕ) (ch : Channel) where
  -- A call that does not panic went through its three steps.
  register_channel-maps :
      (s s' : Service P) (ch' : Channel)
      → register_channel pm b ch s ≡ some (s', ch')
      → (outs : Usages) × ((p : P) × ((count_outputs incr b ch.outputs s.outputs_usage ≡ some outs)
            × (s' ≡ registered b ch outs p s)))
  unfolding register_channel
  register_channel-maps s s' ch' h =
      elim (Option-cases (count_outputs incr b ch.outputs s.outputs_usage)) [
        | inl missing ↦ absurd (cc (rw missing at h))
        | inr (outs, e) ↦ elim (Option-cases (lookup b s.procmngrs)) [
          | inl missing ↦ absurd (cc (rw (e, missing) at h))
          | inr (p, found) ↦
              elim (Option-cases
                (pm.add ch.id (build_argv (start ch)) (seconds ch.restart_sec) p)) [
                  | inl failed ↦ absurd (cc (rw (e, found, failed) at h))
                  | inr (p', added) ↦
                      let done = rw (e, found, added) at h in
                      let q : ◌≡◌ {A = Service P × Channel} (s', ch')
                          (registered b ch outs p' s, start ch) =
                        cc done in
                      (outs, (p', (e, ap (λ x. x.0) q)))
                ]
        ]
      ]

  -- The channel that a call gives back is the one it got, marked as interactive.
  pub register_channel-start :
      (s s' : Service P) (ch' : Channel)
      → register_channel pm b ch s ≡ some (s', ch')
      → ch' ≡ start ch
  unfolding register_channel
  register_channel-start s s' ch' h =
      elim (Option-cases (count_outputs incr b ch.outputs s.outputs_usage)) [
        | inl missing ↦ absurd (cc (rw missing at h))
        | inr (outs, e) ↦ elim (Option-cases (lookup b s.procmngrs)) [
          | inl missing ↦ absurd (cc (rw (e, missing) at h))
          | inr (p, found) ↦
              elim (Option-cases
                (pm.add ch.id (build_argv (start ch)) (seconds ch.restart_sec) p)) [
                  | inl failed ↦ absurd (cc (rw (e, found, failed) at h))
                  | inr (p', added) ↦ cc (rw (e, found, added) at h)
                ]
        ]
      ]

  unregister_channel-maps :
      (s s' : Service P)
      → unregister_channel pm b ch s ≡ some s'
      → (outs : Usages) × ((p : P) × ((count_outputs decr b ch.outputs s.outputs_usage ≡ some outs)
            × (s' ≡ unregistered b ch outs p s)))
  unfolding unregister_channel
  unregister_channel-maps s s' h =
      elim (Option-cases (count_outputs decr b ch.outputs s.outputs_usage)) [
        | inl missing ↦ absurd (cc (rw missing at h))
        | inr (outs, e) ↦ elim (Option-cases (lookup b s.procmngrs)) [
          | inl missing ↦ absurd (cc (rw (e, missing) at h))
          | inr (p, found) ↦ elim (Option-cases (pm.close ch.id p)) [
            | inl failed ↦ absurd (cc (rw (e, found, failed) at h))
            | inr (p', closed) ↦ let done = rw (e, found, closed) at h in (outs, (p', (e, cc done)))
          ]
        ]
      ]

  -- A `RegisterChannel` that does not panic takes counters that agree with a registry to counters
  -- that agree with the registry to which the channel is added, for every client and every ref.
  pub register_channel-Counts :
      (s s' : Service P) (ch' : Channel) (reg : Registry)
      → Counts s reg
      → register_channel pm b ch s ≡ some (s', ch')
      → Counts s' ((b, ch) ∷ reg)
  register_channel-Counts s s' ch' reg k h =
      let (outs, (p, (e, maps))) = register_channel-maps s s' ch' h in
      record {
        channels = λ c.
            ap (λ t. or_zero (lookup c t.channels_usage)) maps
            ∙ count_channel-at incr b c ch.enabled s.channels_usage
            ∙ shift_up (b == c) (one_if ch.enabled) (enabled_channels c reg) _ (k.channels c);
        outputs = λ c r.
            ap (λ t. count_at c r t.outputs_usage) maps
            ∙ count_outputs-count incr b c r ch.outputs s.outputs_usage outs e
            ∙ shift_up (b == c) (enabled_of r ch.outputs) (enabled_outputs c r reg) _
                (k.outputs c r);
      }

  -- An `UnregisterChannel` that does not panic takes counters that agree with a registry to
  -- counters that agree with the registry without the channel, wherever it stands in it.
  pub unregister_channel-Counts :
      (s s' : Service P) (front back : Registry)
      → Counts s (front ++ ((b, ch) ∷ back))
      → unregister_channel pm b ch s ≡ some s'
      → Counts s' (front ++ back)
  unfolding unregistered
  unregister_channel-Counts s s' front back k h =
      let (outs, (p, (e, maps))) = unregister_channel-maps s s' h in
      record {
        channels = λ c.
            ap (λ t. or_zero (lookup c t.channels_usage)) maps
            ∙ count_channel-at decr b c ch.enabled s.channels_usage
            ∙ shift_down (b == c) (one_if ch.enabled) (enabled_channels c (front ++ back)) _
                (k.channels c ∙ ap pos (enabled_channels-middle c b ch front back));
        outputs = λ c r.
            ap (λ t. count_at c r t.outputs_usage) maps
            ∙ count_outputs-count decr b c r ch.outputs s.outputs_usage outs e
            ∙ shift_down (b == c) (enabled_of r ch.outputs) (enabled_outputs c r (front ++ back)) _
                (k.outputs c r ∙ ap pos (enabled_outputs-middle c r b ch front back));
      }

module _ {ℓ} {P : Type ℓ} (pm : ProcessManager P) (b : ℕ) (ch : Channel) (s : Service P)
    (p p' : P) where
  -- For a client that the maps know and whose process manager takes the channel, `RegisterChannel`
  -- does not panic, marks the channel as interactive, and records its client and the new state of
  -- the process manager.
  pub register_channel_lem :
      is_some (lookup b s.outputs_usage) ≡ true
      → lookup b s.procmngrs ≡ some p
      → pm.add ch.id (build_argv (start ch)) (seconds ch.restart_sec) p ≡ some p'
      → (s' : Service P) × ((register_channel pm b ch s ≡ some (s', start ch))
          × ((lookup_by_channel_id ch.id s' ≡ some b) × (lookup b s'.procmngrs ≡ some p')))
  unfolding register_channel lookup_by_channel_id
  register_channel_lem known found added =
      let (outs, (e, kept)) = count_outputs-known incr b b ch.outputs s.outputs_usage known known in
      let here : (ch.id == ch.id) ≡ true = (nat_beq_iff ch.id ch.id).1 refl in
      let own : (b == b) ≡ true = (nat_beq_iff b b).1 refl in
      (
        registered b ch outs p' s,
        (
          rw (e, found, added) refl,
          (
            rw here at (lookup-insert ch.id ch.id b s.channel_client),
            rw own at (lookup-insert b b p' s.procmngrs),
          ),
        ),
      )
