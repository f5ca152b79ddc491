-- ===== src/B2bService.antt =====
-- internal/service/b2b_client.go: the indices and counters of the clients' channels. A write to a
-- missing inner map and a call of a missing process manager panic in Go: `none`.
pub mod Counters
pub mod Usage
pub mod Clients
use zmux_server.Base.{
  ℕ, zero, suc, ◌*◌, ◌%◌, ◌^◌, Bool, true, false, List, [], ◌∷◌, ◌++◌, Option, none, some, Bytes,
  Map, if◌then◌else◌, lookup, insert, delete, nat_eq, ◌==◌,
}
use zmux_server.Base.Int.{ℤ, pos, incr, decr}
use zmux_server.Channel.Types.{Channel, Output}
use zmux_server.Remux.{build_argv}
use zmux_server.B2bClient.{Client, ClientView, view}
use zmux_server.B2bClient.Quota.{or_zero}
use Counters.{Usages, or_empty, count_outputs}

-- What the service calls of a process manager `P`: `Add`, `Remove` and `Onflight`; `none` is a panic.
pub record ProcessManager {ℓ} (P : Type ℓ) : Type ℓ where
  pub add : ℕ → List Bytes → ℕ → P → Option P
  pub close : ℕ → P → Option P
  pub onflight : P → ℤ

-- `B2BClientService`, the maps that `RegisterChannel` and `UnregisterChannel` change
pub record Service {ℓ} (P : Type ℓ) : Type ℓ where
  pub procmngrs : Map ℕ P
  pub channel_client : Map ℕ ℕ
  pub client_channels : Map ℕ (List ℕ)
  pub channels_usage : Map ℕ ℤ
  pub outputs_usage : Map ℕ (Map Bytes ℤ)

-- `m[k]` on a map of slices: nil for a missing key
abbrev pub or_nil : Option (List ℕ) → List ℕ
or_nil none = []
or_nil (some ids) = ids

unfoldable pub remove : List ℕ → ℕ → List ℕ
remove [] target = []
remove (v ∷ s) target = if v == target then s else v ∷ remove s target

-- `ch.Interactive = true`
abbrev pub start : Channel → Channel
start ch = record ch { interactive = true }

-- `time.Duration(sec) * time.Second`, as the 64 bits of an int64
abbrev pub seconds : ℕ → ℕ
seconds sec = (sec * 1000000000) % 2 ^ 64

abbrev pub or_panic {ℓ κ} : {A : Type ℓ} {B : Type κ} → Option A → (A → Option B) → Option B
or_panic none f = none
or_panic (some a) f = f a

module _ {ℓ} {P : Type ℓ} where
  -- The maps after `RegisterChannel`.
  abbrev pub registered : ℕ → Channel → Usages → P → Service P → Service P
  registered b ch outs p s = record {
    procmngrs = insert b p s.procmngrs;
    channel_client = insert ch.id b s.channel_client;
    client_channels =
        insert b (or_nil (lookup b s.client_channels) ++ (ch.id ∷ [])) s.client_channels;
    channels_usage =
        if ch.enabled
        then insert b (incr (or_zero (lookup b s.channels_usage))) s.channels_usage
        else s.channels_usage;
    outputs_usage = outs;
  }

  -- The maps after `UnregisterChannel`.
  unfoldable pub unregistered : ℕ → Channel → Usages → P → Service P → Service P
  unfolding remove
  unregistered b ch outs p s = record {
    procmngrs = insert b p s.procmngrs;
    channel_client = delete ch.id s.channel_client;
    client_channels =
        insert b (remove (or_nil (lookup b s.client_channels)) ch.id) s.client_channels;
    channels_usage =
        if ch.enabled
        then insert b (decr (or_zero (lookup b s.channels_usage))) s.channels_usage
        else s.channels_usage;
    outputs_usage = outs;
  }

module _ {ℓ} {P : Type ℓ} (pm : ProcessManager P) where
  -- The state after the call, and the channel, which the call marks as interactive.
  unfoldable pub register_channel : ℕ → Channel → Service P → Option (Service P × Channel)
  unfolding count_outputs
  register_channel b ch s =
      let started = start ch in
      or_panic (count_outputs incr b ch.outputs s.outputs_usage) (λ outs.
        or_panic (lookup b s.procmngrs) (λ p.
          or_panic (pm.add ch.id (build_argv started) (seconds ch.restart_sec) p)
            (λ p'. some (registered b ch outs p' s, started))))

  unfoldable pub unregister_channel : ℕ → Channel → Service P → Option (Service P)
  unfolding count_outputs unregistered
  unregister_channel b ch s = or_panic (count_outputs decr b ch.outputs s.outputs_usage) (λ outs.
      or_panic (lookup b s.procmngrs)
        (λ p. or_panic (pm.close ch.id p) (λ p'. some (unregistered b ch outs p' s))))

-- `LookupByChannelID`
unfoldable pub lookup_by_channel_id {ℓ} : {P : Type ℓ} → ℕ → Service P → Option ℕ
lookup_by_channel_id id s = lookup id s.channel_client

-- `buildViewUnsafe`
unfoldable pub build_view {ℓ} :
    {P : Type ℓ} → ProcessManager P → Service P → Client → Option ClientView
unfolding view
build_view pm s c = or_panic (lookup c.id s.procmngrs) (λ p.
    view (some c) (or_zero (lookup c.id s.channels_usage)) (or_empty (lookup c.id s.outputs_usage))
      (pm.onflight p) (or_nil (lookup c.id s.client_channels)))
