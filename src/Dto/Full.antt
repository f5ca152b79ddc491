-- ===== src/Dto/Full.antt =====
-- Patches that say every output or every field (channel_modify.go).
use zmux_server.Base.{ℕ, suc, ◌≡◌, refl, List, [], ◌∷◌, codes, map}
use zmux_server.Channel.Types.{Channel, Input, Output}
use zmux_server.Dto.Fields.{
  W, omitted, value, Kind, admin, b2b_client, accepted, present, nullable-present,
  required_nullable-present,
}
use zmux_server.Dto.Modify.{
  ChannelModify, ChannelInputModify, ChannelOutputModify, elements, merge_input, replace_element,
  replace_outputs, merge_patch, to_channel_output,
}

-- The elements of an array of outputs.
abbrev pub output_modify : Output → W ChannelOutputModify
output_modify o = value (record {
  ref = value o.ref;
  url = present o.url;
  localaddr = present o.localaddr;
  pkt_size = value o.pkt_size;
  stream_mapping = value o.stream_mapping;
  enabled = value o.enabled;
})

abbrev pub input_modify : Input → ChannelInputModify
input_modify i = record {
  url = present i.url;
  username = present i.username;
  password = present i.password;
  avioflags = present i.avioflags;
  probesize = value i.probesize;
  analyzeduration = value i.analyzeduration;
  fflags = present i.fflags;
  max_delay = value i.max_delay;
  localaddr = present i.localaddr;
  timeout = value i.timeout;
  rtsp_transport = present i.rtsp_transport;
}

-- A patch with an array of outputs and nothing else.
abbrev pub outputs_patch : List Output → ChannelModify
outputs_patch os = record {
  b2b_client_id = omitted;
  name = omitted;
  input = omitted;
  outputs = value (elements (map output_modify os));
  enabled = omitted;
  restart_sec = omitted;
}

-- A patch that says every field.
abbrev pub full_patch : Channel → ChannelModify
full_patch ch = record {
  b2b_client_id = present ch.b2b_client_id;
  name = present ch.name;
  input = value (input_modify ch.input);
  outputs = value (elements (map output_modify ch.outputs));
  enabled = value ch.enabled;
  restart_sec = value ch.restart_sec;
}

output_modify-accepted : (i : ℕ) (o : Output) → replace_element i (output_modify o) ≡ accepted o
unfolding to_channel_output
output_modify-accepted i o =
    rw
      (
        required_nullable-present (codes "url") o.url,
        required_nullable-present (codes "localaddr") o.localaddr,
      )
      refl

replace_outputs-accepted :
    (i : ℕ) (os : List Output) → replace_outputs i (map output_modify os) ≡ accepted os
unfolding replace_outputs
replace_outputs-accepted i [] = refl
replace_outputs-accepted i (o ∷ os) =
    rw (output_modify-accepted i o, replace_outputs-accepted (suc i) os) refl

input_modify-accepted : (new old : Input) → merge_input (input_modify new) old admin ≡ accepted new
unfolding merge_input
input_modify-accepted new old =
    rw
      (
        nullable-present new.url old.url,
        nullable-present new.username old.username,
        nullable-present new.password old.password,
        nullable-present new.avioflags old.avioflags,
        nullable-present new.fflags old.fflags,
        nullable-present new.localaddr old.localaddr,
        nullable-present new.rtsp_transport old.rtsp_transport,
      )
      refl

-- A patch with an array of outputs replaces the outputs by any others, whoever sends it.
pub merge_patch-replaces_outputs :
    (os : List Output) (prev : Channel) (k : Kind)
    → merge_patch (outputs_patch os) prev k ≡ accepted (record prev { outputs = os })
unfolding merge_patch
merge_patch-replaces_outputs os prev admin = rw (replace_outputs-accepted 0 os) refl
merge_patch-replaces_outputs os prev b2b_client = rw (replace_outputs-accepted 0 os) refl

-- A patch by an admin that says every field makes the channel what it says, but for the id and
-- the interactive flag.
pub merge_patch-full :
    (ch prev : Channel)
    → merge_patch (full_patch ch) prev admin
      ≡ accepted (record ch { id = prev.id; interactive = prev.interactive })
unfolding merge_patch
merge_patch-full ch prev =
    rw
      (
        nullable-present ch.b2b_client_id prev.b2b_client_id,
        input_modify-accepted ch.input prev.input,
        replace_outputs-accepted 0 ch.outputs,
        nullable-present ch.name prev.name,
      )
      refl
