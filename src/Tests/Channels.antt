-- ===== src/Tests/Channels.antt =====
-- A concrete channel, its command line, its views and its stored form.
use zmux_server.Base.{◌≡◌, ◌↔◌, refl, true, false, [], ◌∷◌, none, some, codes, bytes_eq}
use zmux_server.Base.Int.{negsuc}
use zmux_server.Channel.Types.{Input, Output, Channel}
use zmux_server.Channel.Outputs.{validate_mapping, check_media, RefsDistinct}
use zmux_server.Channel.Dependencies.{
  Field, name, cross_dependency_check, missing, visit_set, visit, visit_deps, dep_rules, is_set,
  Requires, check_iff, check_names-IsMissing, IsMissing,
}
use zmux_server.Channel.Views.{b2b_client_view, b2b_client_view-outputs, ShowsOutputs}
use zmux_server.Remux.{build_argv, build_string, from_channel}
use zmux_server.Remux.Quote.{sh_words, blank}
use zmux_server.Remux.Laws.{words-build_string, build_argv-enabled_only}

abbrev pub sd_input : Input
sd_input = record {
  url = some (codes "rtsp://cam/live one");
  username = some (codes "ops");
  password = none;
  avioflags = none;
  probesize = 5000000;
  analyzeduration = 0;
  fflags = some (codes "nobuffer");
  max_delay = negsuc 0;
  localaddr = none;
  timeout = 3000000;
  rtsp_transport = some (codes "tcp");
}

abbrev pub first : Output
first = record {
  ref = codes "onprem_mr01";
  url = some (codes "udp://239.0.0.1:5000");
  localaddr = none;
  pkt_size = 1316;
  stream_mapping = codes "video" ∷ codes "audio" ∷ [];
  enabled = true;
}

abbrev pub second : Output
second = record {
  ref = codes "spare";
  url = some (codes "udp://239.0.0.2:5000");
  localaddr = none;
  pkt_size = 1316;
  stream_mapping = codes "data" ∷ [];
  enabled = false;
}

abbrev pub sd : Channel
sd = record {
  id = 7;
  interactive = false;
  b2b_client_id = some 3;
  name = some (codes "it's one");
  input = sd_input;
  outputs = first ∷ second ∷ [];
  enabled = true;
  restart_sec = 3;
}

words-build_string_example : sh_words blank (build_string (from_channel sd)) ≡ some (build_argv sd)
words-build_string_example = words-build_string sd

build_argv-enabled_only_example : build_argv (record sd { outputs = first ∷ [] }) ≡ build_argv sd
build_argv-enabled_only_example = build_argv-enabled_only sd

b2b_client_view-outputs_example : ShowsOutputs sd.outputs (b2b_client_view sd).outputs
b2b_client_view-outputs_example = b2b_client_view-outputs sd

accepted_mapping : validate_mapping first.stream_mapping ≡ none
unfolding validate_mapping check_media
accepted_mapping = refl

pub sd-RefsDistinct : RefsDistinct sd.outputs
sd-RefsDistinct = (((λ e. cc), tt), (tt, tt))

check_iff_example :
    (cross_dependency_check sd ≡ none)
    ↔ ((f g : Field) → Requires f g → is_set sd f ≡ true → is_set sd g ≡ true)
check_iff_example = check_iff sd

-- The channel without a name.
abbrev unnamed : Channel
unnamed = record sd { name = none }

check_unnamed : cross_dependency_check unnamed ≡ some (name ∷ [])
unfolding cross_dependency_check missing visit_set visit visit_deps dep_rules is_set
check_unnamed = refl

check_names-IsMissing_example : IsMissing unnamed name
check_names-IsMissing_example = check_names-IsMissing unnamed (name ∷ []) name check_unnamed refl
