-- ===== src/ChannelService.antt =====
-- internal/service/channel.go: the quotas that a channel of a client has to keep. A nil error is
-- `none`.
pub mod Quota
pub mod Ops
use zmux_server.Base.{
  ℕ, Bool, true, false, List, [], ◌∷◌, ◌++◌, Option, none, some, Bytes, Map, if◌then◌else◌, lookup,
  nat_eq, bytes_eq, codes, ◌&&◌, not,
}
use zmux_server.Base.Int.{ℤ, incr, ltb_ℤ}
use zmux_server.Channel.Types.{Channel, Output}
use zmux_server.Channel.Outputs.{OutputEntry, outputs_by_ref}
use zmux_server.B2bClient.{ClientView, slice_to_map_by_ref}
use zmux_server.B2bClient.Quota.{EnabledOutputView}

-- `QuotaExceededError`
pub record QuotaExceededError : Type 0 where
  pub client_name : Bytes
  pub client_id : ℕ
  pub resource : Bytes
  pub usage : ℤ
  pub quota : ℤ

unfoldable pub check_enabled_channel_quota : ClientView → Channel → Option QuotaExceededError
check_enabled_channel_quota client ch =
    let q = client.quotas.enabled_channels in
    if ch.enabled
    then (if ltb_ℤ q.quota (incr q.usage)
        then some (record {
          client_name = client.name;
          client_id = client.id;
          resource = codes "enabled channel";
          usage = incr q.usage;
          quota = q.quota;
        })
        else none)
    else none

-- The quota found for an output, asked for one more.
unfoldable pub check_output :
    ClientView → Bytes → Option EnabledOutputView → Option QuotaExceededError
check_output client ref none = none
check_output client ref (some q) =
    if ltb_ℤ q.quota (incr q.usage)
    then some (record {
      client_name = client.name;
      client_id = client.id;
      resource = codes "enabled output '" ++ (ref ++ codes "'");
      usage = incr q.usage;
      quota = q.quota;
    })
    else none

-- `if err := …; err != nil { return err }`
abbrev pub or_else {ℓ} : {A : Type ℓ} → Option A → Option A → Option A
or_else none e = e
or_else (some a) e = some a

abbrev pub Quotas : Type 0
Quotas = Map Bytes EnabledOutputView

unfoldable pub check_outputs : ClientView → Quotas → List Output → Option QuotaExceededError
unfolding check_output
check_outputs client quotas [] = none
check_outputs client quotas (o ∷ os) =
    let rest = check_outputs client quotas os in
    if o.enabled then or_else (check_output client o.ref (lookup o.ref quotas)) rest else rest

unfoldable pub check_enabled_output_quotas : ClientView → Channel → Option QuotaExceededError
unfolding slice_to_map_by_ref check_outputs
check_enabled_output_quotas client ch =
    check_outputs client (slice_to_map_by_ref client.quotas.enabled_outputs []) ch.outputs

unfoldable pub enforce_quota_on_create : ClientView → Channel → Option QuotaExceededError
unfolding check_enabled_channel_quota check_enabled_output_quotas
enforce_quota_on_create client ch =
    or_else (check_enabled_channel_quota client ch) (check_enabled_output_quotas client ch)

-- `ok && prevOut.Output.Enabled`
abbrev pub was_enabled : Option OutputEntry → Bool
was_enabled none = false
was_enabled (some e) = e.output.enabled

unfoldable pub check_new_outputs :
    ClientView → Quotas → Map Bytes OutputEntry → List Output → Option QuotaExceededError
unfolding check_output
check_new_outputs client quotas prev [] = none
check_new_outputs client quotas prev (o ∷ os) =
    let rest = check_new_outputs client quotas prev os in
    if o.enabled
    then (if was_enabled (lookup o.ref prev)
        then rest
        else or_else (check_output client o.ref (lookup o.ref quotas)) rest)
    else rest

unfoldable pub enforce_quota_on_update : ClientView → Channel → Channel → Option QuotaExceededError
unfolding check_enabled_channel_quota slice_to_map_by_ref check_new_outputs outputs_by_ref
enforce_quota_on_update client prev next =
    or_else
      (if not prev.enabled && next.enabled then check_enabled_channel_quota client next else none)
      (check_new_outputs client (slice_to_map_by_ref client.quotas.enabled_outputs [])
        (outputs_by_ref prev.outputs) next.outputs)
