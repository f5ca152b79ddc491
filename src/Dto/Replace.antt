-- ===== src/Dto/Replace.antt =====
-- internal/http/dto/channel_replace.go: PUT of a channel, in which every field has to be set.
pub mod Full
pub mod Complete
use zmux_server.Base.{ℕ, suc, Bool, true, false, List, [], ◌∷◌, Option, none, some, Bytes, codes}
use zmux_server.Base.Int.{ℤ}
use zmux_server.Channel.Types.{Channel, Input, Output}
use zmux_server.Dto.Fields.{
  W, omitted, null, value, Error, cannot_be_null, is_required, at_index, Result, accepted, refused,
  ◌>>=◌, within, required_nullable, required,
}

pub record InputReplace : Type 0 where
  pub url : W Bytes
  pub username : W Bytes
  pub password : W Bytes
  pub avioflags : W Bytes
  pub probesize : W ℕ
  pub analyzeduration : W ℕ
  pub fflags : W Bytes
  pub max_delay : W ℤ
  pub localaddr : W Bytes
  pub timeout : W ℕ
  pub rtsp_transport : W Bytes

pub record OutputReplace : Type 0 where
  pub ref : W Bytes
  pub url : W Bytes
  pub localaddr : W Bytes
  pub pkt_size : W ℕ
  pub stream_mapping : W (List Bytes)
  pub enabled : W Bool

pub record ChannelReplace : Type 0 where
  pub b2b_client_id : W ℕ
  pub name : W Bytes
  pub input : W InputReplace
  pub outputs : W (List (W OutputReplace))
  pub enabled : W Bool
  pub restart_sec : W ℕ

abbrev pub no_output : OutputReplace
no_output = record {
  ref = omitted;
  url = omitted;
  localaddr = omitted;
  pkt_size = omitted;
  stream_mapping = omitted;
  enabled = omitted;
}

-- `InputReplace.ToChannelInput`
unfoldable pub to_channel_input : InputReplace → Result Input
to_channel_input req = do
  url ← required_nullable (codes "input.url") req.url
  username ← required_nullable (codes "input.username") req.username
  password ← required_nullable (codes "input.password") req.password
  avioflags ← required_nullable (codes "input.avioflags") req.avioflags
  probesize ← required (codes "input.probesize") req.probesize
  analyzeduration ← required (codes "input.analyzeduration") req.analyzeduration
  fflags ← required_nullable (codes "input.fflags") req.fflags
  max_delay ← required (codes "input.max_delay") req.max_delay
  localaddr ← required_nullable (codes "input.localaddr") req.localaddr
  timeout ← required (codes "input.timeout") req.timeout
  rtsp_transport ← required_nullable (codes "input.rtsp_transport") req.rtsp_transport
  accepted (record {
    url = url;
    username = username;
    password = password;
    avioflags = avioflags;
    probesize = probesize;
    analyzeduration = analyzeduration;
    fflags = fflags;
    max_delay = max_delay;
    localaddr = localaddr;
    timeout = timeout;
    rtsp_transport = rtsp_transport;
  })

-- `OutputReplace.ToChannelOutput`
unfoldable pub to_channel_output : OutputReplace → Result Output
to_channel_output req = do
  ref ← required (codes "output.ref") req.ref
  url ← required_nullable (codes "output.url") req.url
  localaddr ← required_nullable (codes "output.localaddr") req.localaddr
  pkt_size ← required (codes "output.pkt_size") req.pkt_size
  stream_mapping ← required (codes "output.stream_mapping") req.stream_mapping
  enabled ← required (codes "output.enabled") req.enabled
  accepted (record {
    ref = ref;
    url = url;
    localaddr = localaddr;
    pkt_size = pkt_size;
    stream_mapping = stream_mapping;
    enabled = enabled;
  })

-- An element of the array, at the index `i`.
abbrev pub to_element : ℕ → W OutputReplace → Result Output
to_element i null = refused (at_index i (cannot_be_null (codes "outputs")))
to_element i omitted = within (at_index i) (to_channel_output no_output)
to_element i (value req) = within (at_index i) (to_channel_output req)

unfoldable pub to_outputs : ℕ → List (W OutputReplace) → Result (List Output)
to_outputs i [] = accepted []
to_outputs i (w ∷ ws) = do o ← to_element i w; os ← to_outputs (suc i) ws; accepted (o ∷ os)

abbrev pub to_input_field : W InputReplace → Result Input
to_input_field omitted = refused (is_required (codes "input"))
to_input_field null = refused (cannot_be_null (codes "input"))
to_input_field (value req) = to_channel_input req

abbrev pub to_outputs_field : W (List (W OutputReplace)) → Result (List Output)
to_outputs_field omitted = refused (is_required (codes "outputs"))
to_outputs_field null = refused (cannot_be_null (codes "outputs"))
to_outputs_field (value ws) = to_outputs 0 ws

-- `ChannelReplace.ToChannel`
unfoldable pub to_channel : ChannelReplace → ℕ → Result Channel
to_channel req id = do
  b2b_client_id ← required_nullable (codes "b2bclnt_id") req.b2b_client_id
  name ← required_nullable (codes "name") req.name
  input ← to_input_field req.input
  outputs ← to_outputs_field req.outputs
  enabled ← required (codes "enabled") req.enabled
  restart_sec ← required (codes "restart_sec") req.restart_sec
  accepted (record {
    id = id;
    interactive = false;
    b2b_client_id = b2b_client_id;
    name = name;
    input = input;
    outputs = outputs;
    enabled = enabled;
    restart_sec = restart_sec;
  })
