-- ===== src/Dto/Create/Full.antt =====
-- A body that says every field gives that channel back (channel_create.go).
use zmux_server.Base.{ℕ, suc, ◌≡◌, refl, false, List, [], ◌∷◌, none, some, codes, map}
use zmux_server.Channel.Types.{Channel, Input, Output}
use zmux_server.Dto.Fields.{W, value, present, accepted, nullable-present}
use zmux_server.Dto.Create.{
  ChannelCreate, ChannelInputCreate, ChannelOutputCreate, to_element, to_outputs, to_channel_input,
  to_channel_output, to_channel,
}

abbrev pub output_body : Output → W ChannelOutputCreate
output_body o = value (record {
  ref = value o.ref;
  url = present o.url;
  localaddr = present o.localaddr;
  pkt_size = value o.pkt_size;
  stream_mapping = value o.stream_mapping;
  enabled = value o.enabled;
})

abbrev pub input_body : Input → ChannelInputCreate
input_body i = record {
  url = present i.url;
  username = present i.username;
  password = present i.password;
  avioflags = present i.avioflags;
  probesize = value i.probesize;
  analyzeduration = value i.analyzeduration;
  fflags = present i.fflags;
  max_delay = value i.max_delay;
  localaddr = present i.localaddr;
  timeout = value i.timeout;
  rtsp_transport = present i.rtsp_transport;
}

abbrev pub full_body : Channel → ChannelCreate
full_body ch = record {
  b2b_client_id = present ch.b2b_client_id;
  name = present ch.name;
  input = value (input_body ch.input);
  outputs = value (map output_body ch.outputs);
  enabled = value ch.enabled;
  restart_sec = value ch.restart_sec;
}

output_body-accepted : (i : ℕ) (o : Output) → to_element i (output_body o) ≡ accepted o
unfolding to_channel_output
output_body-accepted i o = rw (nullable-present o.url none, nullable-present o.localaddr none) refl

outputs-accepted : (i : ℕ) (os : List Output) → to_outputs i (map output_body os) ≡ accepted os
unfolding to_outputs
outputs-accepted i [] = refl
outputs-accepted i (o ∷ os) = rw (output_body-accepted i o, outputs-accepted (suc i) os) refl

input_body-accepted : (i : Input) → to_channel_input (input_body i) ≡ accepted i
unfolding to_channel_input
input_body-accepted i =
    rw
      (
        nullable-present i.url none,
        nullable-present i.username none,
        nullable-present i.password none,
        nullable-present i.avioflags none,
        nullable-present i.fflags (some (codes "nobuffer")),
        nullable-present i.localaddr none,
        nullable-present i.rtsp_transport none,
      )
      refl

-- A body of POST that says every field gives that channel, without an id and not interactive.
pub create-full_body :
    (ch : Channel)
    → to_channel (full_body ch) ≡ accepted (record ch { id = 0; interactive = false })
unfolding to_channel
create-full_body ch =
    rw
      (
        input_body-accepted ch.input,
        outputs-accepted 0 ch.outputs,
        nullable-present ch.b2b_client_id none,
        nullable-present ch.name none,
      )
      refl
