-- ===== src/Channel/Clone.antt =====
-- internal/domain/channel/model.go (DeepClone) and redismodel.go: copies of a channel.
use zmux_server.Base.{ℕ, ◌≡◌, refl, ap, List, [], ◌∷◌, Option, none, some, Bytes, arith}
use zmux_server.Channel.Types.{Input, Output, StreamMapping, Channel, ChannelModel}

unfoldable pub clone_int64 : Option ℕ → Option ℕ
clone_int64 none = none
clone_int64 (some p) = let s = p in some s

unfoldable pub clone_string : Option Bytes → Option Bytes
clone_string none = none
clone_string (some p) = let s = p in some s

unfoldable pub clone_stream_mapping : StreamMapping → StreamMapping
clone_stream_mapping [] = []
clone_stream_mapping (s ∷ sm) = s ∷ clone_stream_mapping sm

-- The copy of the input in `DeepClone` and in `Model`.
unfoldable pub clone_input : Input → Input
unfolding clone_string
clone_input i = record {
  url = clone_string i.url;
  username = clone_string i.username;
  password = clone_string i.password;
  avioflags = clone_string i.avioflags;
  probesize = i.probesize;
  analyzeduration = i.analyzeduration;
  fflags = clone_string i.fflags;
  max_delay = i.max_delay;
  localaddr = clone_string i.localaddr;
  timeout = i.timeout;
  rtsp_transport = clone_string i.rtsp_transport;
}

unfoldable pub clone_output : Output → Output
unfolding clone_string clone_stream_mapping
clone_output o = record {
  ref = o.ref;
  url = clone_string o.url;
  localaddr = clone_string o.localaddr;
  pkt_size = o.pkt_size;
  stream_mapping = clone_stream_mapping o.stream_mapping;
  enabled = o.enabled;
}

-- The loop over the outputs, which runs only if there are any.
unfoldable pub clone_outputs : List Output → List Output
unfolding clone_output
clone_outputs [] = []
clone_outputs (o ∷ os) = clone_output o ∷ clone_outputs os

unfoldable pub deep_clone : Channel → Channel
unfolding clone_string clone_input clone_outputs
deep_clone ch = record ch {
  name = clone_string ch.name;
  input = clone_input ch.input;
  outputs = clone_outputs ch.outputs;
}

-- `Model` leaves the slice of outputs nil unless there are any.
abbrev pub model_outputs : List Output → Option (List Output)
model_outputs [] = none
model_outputs (o ∷ os) = some (clone_outputs (o ∷ os))

unfoldable pub model : Channel → ChannelModel
unfolding clone_int64 clone_string clone_input clone_outputs
model ch = record {
  b2b_client_id = clone_int64 ch.b2b_client_id;
  name = clone_string ch.name;
  enabled = ch.enabled;
  restart_sec = ch.restart_sec;
  input = clone_input ch.input;
  outputs = model_outputs ch.outputs;
}

clone_int64_id : (p : Option ℕ) → clone_int64 p ≡ p
unfolding clone_int64
clone_int64_id none = refl
clone_int64_id (some p) = refl

clone_string_id : (p : Option Bytes) → clone_string p ≡ p
unfolding clone_string
clone_string_id none = refl
clone_string_id (some p) = refl

clone_stream_mapping_id : (sm : StreamMapping) → clone_stream_mapping sm ≡ sm
unfolding clone_stream_mapping
clone_stream_mapping_id [] = refl
clone_stream_mapping_id (s ∷ sm) = ap (λ t. s ∷ t) (clone_stream_mapping_id sm)

clone_input_id : (i : Input) → clone_input i ≡ i
unfolding clone_input
clone_input_id i = ground (
  arith,
  clone_string_id i.url,
  clone_string_id i.username,
  clone_string_id i.password,
  clone_string_id i.avioflags,
  clone_string_id i.fflags,
  clone_string_id i.localaddr,
  clone_string_id i.rtsp_transport,
)

clone_outputs_id : (os : List Output) → clone_outputs os ≡ os
unfolding clone_outputs
clone_outputs_id [] = refl
clone_outputs_id (o ∷ os) = ground (
  arith,
  clone_string_id o.url,
  clone_string_id o.localaddr,
  clone_stream_mapping_id o.stream_mapping,
  clone_outputs_id os,
)

-- A deep clone holds the values of the channel in every field, its input and its outputs.
pub deep_clone_id : (ch : Channel) → deep_clone ch ≡ ch
unfolding deep_clone
deep_clone_id ch =
    ground (arith, clone_string_id ch.name, clone_input_id ch.input, clone_outputs_id ch.outputs)
