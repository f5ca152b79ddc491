-- ===== src/B2bClient/Quota.antt =====
-- internal/domain/b2b-client/quotas_domain.go, quotas_dto.go and quotas_model.go.
use zmux_server.Base.{List, [], Option, none, some, Bytes, Map, lookup, bytes_eq, map}
use zmux_server.Base.Int.{ℤ, pos}

pub record EnabledChannelsResource : Type 0 where
  pub quota : ℤ

pub record EnabledOutputResource : Type 0 where
  pub ref : Bytes
  pub quota : ℤ

pub record OnlineChannelsResource : Type 0 where
  pub quota : ℤ
  pub max_preflight : ℤ

pub record QuotasResource : Type 0 where
  pub enabled_channels : EnabledChannelsResource
  pub enabled_outputs : List EnabledOutputResource
  pub online_channels : OnlineChannelsResource

pub record EnabledChannelsModel : Type 0 where
  pub quota : ℤ

pub record EnabledOutputModel : Type 0 where
  pub ref : Bytes
  pub quota : ℤ

pub record OnlineChannelsModel : Type 0 where
  pub quota : ℤ
  pub max_preflight : ℤ

pub record QuotasModel : Type 0 where
  pub enabled_channels : EnabledChannelsModel
  pub enabled_outputs : List EnabledOutputModel
  pub online_channels : OnlineChannelsModel

pub record EnabledChannels : Type 0 where
  pub quota : ℤ

pub record EnabledOutput : Type 0 where
  pub ref : Bytes
  pub quota : ℤ

pub record OnlineChannels : Type 0 where
  pub quota : ℤ
  pub max_preflight : ℤ

pub record Quotas : Type 0 where
  pub enabled_channels : EnabledChannels
  pub enabled_outputs : List EnabledOutput
  pub online_channels : OnlineChannels

pub record EnabledChannelsView : Type 0 where
  pub quota : ℤ
  pub usage : ℤ

pub record EnabledOutputView : Type 0 where
  pub ref : Bytes
  pub quota : ℤ
  pub usage : ℤ

pub record OnlineChannelsView : Type 0 where
  pub quota : ℤ
  pub max_preflight : ℤ
  pub usage : ℤ

pub record QuotasView : Type 0 where
  pub enabled_channels : EnabledChannelsView
  pub enabled_outputs : List EnabledOutputView
  pub online_channels : OnlineChannelsView

-- `QuotasModel{}`
abbrev pub no_quotas_model : QuotasModel
no_quotas_model = record {
  enabled_channels = record { quota = pos 0 };
  enabled_outputs = [];
  online_channels = record { quota = pos 0; max_preflight = pos 0 };
}

-- `Quotas{}`
abbrev pub no_quotas : Quotas
no_quotas = record {
  enabled_channels = record { quota = pos 0 };
  enabled_outputs = [];
  online_channels = record { quota = pos 0; max_preflight = pos 0 };
}

-- `EnabledOutputModel(o)`
abbrev pub output_model : EnabledOutputResource → EnabledOutputModel
output_model o = record { ref = o.ref; quota = o.quota }

unfoldable pub new_quotas_model : Option QuotasResource → QuotasModel
new_quotas_model none = no_quotas_model
new_quotas_model (some r) = record {
  enabled_channels = record { quota = r.enabled_channels.quota };
  enabled_outputs = map output_model r.enabled_outputs;
  online_channels = record {
    quota = r.online_channels.quota;
    max_preflight = r.online_channels.max_preflight;
  };
}

-- `EnabledOutput(o)`
abbrev pub output_quota : EnabledOutputModel → EnabledOutput
output_quota o = record { ref = o.ref; quota = o.quota }

unfoldable pub new_quotas : Option QuotasModel → Quotas
new_quotas none = no_quotas
new_quotas (some m) = record {
  enabled_channels = record { quota = m.enabled_channels.quota };
  enabled_outputs = map output_quota m.enabled_outputs;
  online_channels = record {
    quota = m.online_channels.quota;
    max_preflight = m.online_channels.max_preflight;
  };
}

-- `m[k]` on a map of counters: 0 for a missing key
abbrev pub or_zero : Option ℤ → ℤ
or_zero none = pos 0
or_zero (some n) = n

unfoldable pub view_channels : EnabledChannels → ℤ → EnabledChannelsView
view_channels ec usage = record { quota = ec.quota; usage = usage }

unfoldable pub view_output : EnabledOutput → ℤ → EnabledOutputView
view_output eo usage = record { ref = eo.ref; quota = eo.quota; usage = usage }

unfoldable pub view_online : OnlineChannels → ℤ → OnlineChannelsView
view_online oc usage = record { quota = oc.quota; max_preflight = oc.max_preflight; usage = usage }

unfoldable pub view_quotas : Quotas → ℤ → Map Bytes ℤ → ℤ → QuotasView
unfolding view_channels view_output view_online
view_quotas q channels outputs online = record {
  enabled_channels = view_channels q.enabled_channels channels;
  enabled_outputs = map (λ eo. view_output eo (or_zero (lookup eo.ref outputs))) q.enabled_outputs;
  online_channels = view_online q.online_channels online;
}
