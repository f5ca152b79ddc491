-- ===== src/Dto/Replace/Full.antt =====
-- A body that says every field gives that channel back (channel_replace.go).
use zmux_server.Base.{ℕ, suc, ◌≡◌, refl, false, List, [], ◌∷◌, codes, map}
use zmux_server.Channel.Types.{Channel, Input, Output}
use zmux_server.Dto.Fields.{W, value, present, accepted, required_nullable-present}
use zmux_server.Dto.Replace.{
  ChannelReplace, InputReplace, OutputReplace, to_element, to_outputs, to_channel_input,
  to_channel_output, to_channel,
}

abbrev pub output_body : Output → W OutputReplace
output_body o = value (record {
  ref = value o.ref;
  url = present o.url;
  localaddr = present o.localaddr;
  pkt_size = value o.pkt_size;
  stream_mapping = value o.stream_mapping;
  enabled = value o.enabled;
})

abbrev pub input_body : Input → InputReplace
input_body i = record {
  url = present i.url;
  username = present i.username;
  password = present i.password;
  avioflags = present i.avioflags;
  probesize = value i.probesize;
  analyzeduration = value i.analyzeduration;
  fflags = present i.fflags;
  max_delay = value i.max_delay;
  localaddr = present i.localaddr;
  timeout = value i.timeout;
  rtsp_transport = present i.rtsp_transport;
}

abbrev pub full_body : Channel → ChannelReplace
full_body ch = record {
  b2b_client_id = present ch.b2b_client_id;
  name = present ch.name;
  input = value (input_body ch.input);
  outputs = value (map output_body ch.outputs);
  enabled = value ch.enabled;
  restart_sec = value ch.restart_sec;
}

output_body-accepted : (i : ℕ) (o : Output) → to_element i (output_body o) ≡ accepted o
unfolding to_channel_output
output_body-accepted i o =
    rw
      (
        required_nullable-present (codes "output.url") o.url,
        required_nullable-present (codes "output.localaddr") o.localaddr,
      )
      refl

outputs-accepted : (i : ℕ) (os : List Output) → to_outputs i (map output_body os) ≡ accepted os
unfolding to_outputs
outputs-accepted i [] = refl
outputs-accepted i (o ∷ os) = rw (output_body-accepted i o, outputs-accepted (suc i) os) refl

input_body-accepted : (i : Input) → to_channel_input (input_body i) ≡ accepted i
unfolding to_channel_input
input_body-accepted i =
    rw
      (
        required_nullable-present (codes "input.url") i.url,
        required_nullable-present (codes "input.username") i.username,
        required_nullable-present (codes "input.password") i.password,
        required_nullable-present (codes "input.avioflags") i.avioflags,
        required_nullable-present (codes "input.fflags") i.fflags,
        required_nullable-present (codes "input.localaddr") i.localaddr,
        required_nullable-present (codes "input.rtsp_transport") i.rtsp_transport,
      )
      refl

-- A body of PUT that says every field gives that channel, which is not interactive.
pub replace-full_body :
    (ch : Channel) → to_channel (full_body ch) ch.id ≡ accepted (record ch { interactive = false })
unfolding to_channel
replace-full_body ch =
    rw
      (
        required_nullable-present (codes "b2bclnt_id") ch.b2b_client_id,
        required_nullable-present (codes "name") ch.name,
        input_body-accepted ch.input,
        outputs-accepted 0 ch.outputs,
      )
      refl
