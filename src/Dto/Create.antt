-- ===== src/Dto/Create.antt =====
-- internal/http/dto/channel_create.go: POST of a channel, with a default for each field that is omitted.
pub mod Full
use zmux_server.Base.{ℕ, suc, Bool, true, false, List, [], ◌∷◌, Option, none, some, Bytes, codes}
use zmux_server.Base.Int.{ℤ, negsuc}
use zmux_server.Channel.Types.{Channel, Input, Output}
use zmux_server.Remux.Decimal.{format_uint}
use zmux_server.Dto.Fields.{
  W, omitted, null, value, Error, cannot_be_null, at_index, Result, accepted, refused, ◌>>=◌,
  within, nullable, not_null,
}

pub record ChannelInputCreate : Type 0 where
  pub url : W Bytes
  pub username : W Bytes
  pub password : W Bytes
  pub avioflags : W Bytes
  pub probesize : W ℕ
  pub analyzeduration : W ℕ
  pub fflags : W Bytes
  pub max_delay : W ℤ
  pub localaddr : W Bytes
  pub timeout : W ℕ
  pub rtsp_transport : W Bytes

pub record ChannelOutputCreate : Type 0 where
  pub ref : W Bytes
  pub url : W Bytes
  pub localaddr : W Bytes
  pub pkt_size : W ℕ
  pub stream_mapping : W (List Bytes)
  pub enabled : W Bool

pub record ChannelCreate : Type 0 where
  pub b2b_client_id : W ℕ
  pub name : W Bytes
  pub input : W ChannelInputCreate
  pub outputs : W (List (W ChannelOutputCreate))
  pub enabled : W Bool
  pub restart_sec : W ℕ

-- `new(ChannelInputCreate)`
abbrev pub no_input : ChannelInputCreate
no_input = record {
  url = omitted;
  username = omitted;
  password = omitted;
  avioflags = omitted;
  probesize = omitted;
  analyzeduration = omitted;
  fflags = omitted;
  max_delay = omitted;
  localaddr = omitted;
  timeout = omitted;
  rtsp_transport = omitted;
}

abbrev pub no_output : ChannelOutputCreate
no_output = record {
  ref = omitted;
  url = omitted;
  localaddr = omitted;
  pkt_size = omitted;
  stream_mapping = omitted;
  enabled = omitted;
}

-- `ChannelInputCreate.ToChannelInput`
unfoldable pub to_channel_input : ChannelInputCreate → Result Input
to_channel_input req = do
  probesize ← not_null (codes "probesize") req.probesize 5000000
  analyzeduration ← not_null (codes "analyzeduration") req.analyzeduration 0
  max_delay ← not_null (codes "max_delay") req.max_delay (negsuc 0)
  timeout ← not_null (codes "timeout") req.timeout 3000000
  accepted (record {
    url = nullable req.url none;
    username = nullable req.username none;
    password = nullable req.password none;
    avioflags = nullable req.avioflags none;
    probesize = probesize;
    analyzeduration = analyzeduration;
    fflags = nullable req.fflags (some (codes "nobuffer"));
    max_delay = max_delay;
    localaddr = nullable req.localaddr none;
    timeout = timeout;
    rtsp_transport = nullable req.rtsp_transport none;
  })

-- `ChannelOutputCreate.ToChannelOutput`
unfoldable pub to_channel_output : ChannelOutputCreate → ℕ → Result Output
to_channel_output req index = do
  ref ← not_null (codes "ref") req.ref (format_uint index)
  pkt_size ← not_null (codes "pkt_size") req.pkt_size 1316
  stream_mapping ← not_null (codes "stream_mapping") req.stream_mapping (codes "video" ∷ [])
  enabled ← not_null (codes "enabled") req.enabled true
  accepted (record {
    ref = ref;
    url = nullable req.url none;
    localaddr = nullable req.localaddr none;
    pkt_size = pkt_size;
    stream_mapping = stream_mapping;
    enabled = enabled;
  })

-- An element of the array, at the index `i`.
abbrev pub to_element : ℕ → W ChannelOutputCreate → Result Output
to_element i null = refused (at_index i (cannot_be_null (codes "outputs")))
to_element i omitted = within (at_index i) (to_channel_output no_output i)
to_element i (value req) = within (at_index i) (to_channel_output req i)

unfoldable pub to_outputs : ℕ → List (W ChannelOutputCreate) → Result (List Output)
to_outputs i [] = accepted []
to_outputs i (w ∷ ws) = do o ← to_element i w; os ← to_outputs (suc i) ws; accepted (o ∷ os)

abbrev pub to_input_field : W ChannelInputCreate → Result Input
to_input_field omitted = to_channel_input no_input
to_input_field null = refused (cannot_be_null (codes "input"))
to_input_field (value req) = to_channel_input req

abbrev pub to_outputs_field : W (List (W ChannelOutputCreate)) → Result (List Output)
to_outputs_field omitted = accepted []
to_outputs_field null = refused (cannot_be_null (codes "outputs"))
to_outputs_field (value ws) = to_outputs 0 ws

-- `ChannelCreate.ToChannel`; the id is given later.
unfoldable pub to_channel : ChannelCreate → Result Channel
to_channel req = do
  input ← to_input_field req.input
  outputs ← to_outputs_field req.outputs
  enabled ← not_null (codes "enabled") req.enabled false
  restart_sec ← not_null (codes "restart_sec") req.restart_sec 3
  accepted (record {
    id = 0;
    interactive = false;
    b2b_client_id = nullable req.b2b_client_id none;
    name = nullable req.name none;
    input = input;
    outputs = outputs;
    enabled = enabled;
    restart_sec = restart_sec;
  })
