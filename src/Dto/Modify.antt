-- ===== src/Dto/Modify.antt =====
-- internal/http/dto/channel_modify.go: PATCH on a channel. A patch that is refused is dropped with the
-- copy of the channel that it was applied to, so only an accepted patch gives a channel.
use zmux_server.Base.{
  ℕ, zero, suc, Bool, true, ◌||◌, List, [], ◌∷◌, Option, none, some, Bytes, codes, bytes_eq, ◌==◌,
  if◌then◌else◌, Map, lookup,
}
use zmux_server.Base.Int.{ℤ}
use zmux_server.Channel.Types.{Channel, Input, Output}
use zmux_server.Channel.Outputs.{OutputEntry, outputs_by_ref}
use zmux_server.Dto.Fields.{
  W, omitted, null, value, Kind, admin, b2b_client, unauthorized, cannot_be_null, at_index, at_ref,
  no_such_ref, neither_array_nor_object, out_of_range, Result, accepted, refused, ◌>>=◌, within,
  nullable, not_null, admin_only, required_nullable, required,
}

pub record ChannelInputModify : Type 0 where
  pub url : W Bytes
  pub username : W Bytes
  pub password : W Bytes
  pub avioflags : W Bytes
  pub probesize : W ℕ
  pub analyzeduration : W ℕ
  pub fflags : W Bytes
  pub max_delay : W ℤ
  pub localaddr : W Bytes
  pub timeout : W ℕ
  pub rtsp_transport : W Bytes

pub record ChannelOutputModify : Type 0 where
  pub ref : W Bytes
  pub url : W Bytes
  pub localaddr : W Bytes
  pub pkt_size : W ℕ
  pub stream_mapping : W (List Bytes)
  pub enabled : W Bool

-- What the two attempts to decode the outputs give: a list, else a map in the order of its iteration.
pub data OutputsBody : Type 0 where
  elements : List (W ChannelOutputModify) → OutputsBody
  members : List (Bytes × W ChannelOutputModify) → OutputsBody
  undecodable : OutputsBody

pub record ChannelModify : Type 0 where
  pub b2b_client_id : W ℕ
  pub name : W Bytes
  pub input : W ChannelInputModify
  pub outputs : W OutputsBody
  pub enabled : W Bool
  pub restart_sec : W ℕ

abbrev pub no_output : ChannelOutputModify
no_output = record {
  ref = omitted;
  url = omitted;
  localaddr = omitted;
  pkt_size = omitted;
  stream_mapping = omitted;
  enabled = omitted;
}

-- `ChannelInputModify.MergePatch`
unfoldable pub merge_input : ChannelInputModify → Input → Kind → Result Input
merge_input req prev k = do
  avioflags ←
      admin_only k (codes "avioflags") req.avioflags
        (accepted (nullable req.avioflags prev.avioflags))
  probesize ←
      admin_only k (codes "probesize") req.probesize
        (not_null (codes "probesize") req.probesize prev.probesize)
  analyzeduration ←
      admin_only k (codes "analyzeduration") req.analyzeduration
        (not_null (codes "analyzeduration") req.analyzeduration prev.analyzeduration)
  fflags ← admin_only k (codes "fflags") req.fflags (accepted (nullable req.fflags prev.fflags))
  max_delay ←
      admin_only k (codes "max_delay") req.max_delay
        (not_null (codes "max_delay") req.max_delay prev.max_delay)
  localaddr ←
      admin_only k (codes "localaddr") req.localaddr
        (accepted (nullable req.localaddr prev.localaddr))
  timeout ←
      admin_only k (codes "timeout") req.timeout
        (not_null (codes "timeout") req.timeout prev.timeout)
  rtsp_transport ←
      admin_only k (codes "rtsp_transport") req.rtsp_transport
        (accepted (nullable req.rtsp_transport prev.rtsp_transport))
  accepted (record {
    url = nullable req.url prev.url;
    username = nullable req.username prev.username;
    password = nullable req.password prev.password;
    avioflags = avioflags;
    probesize = probesize;
    analyzeduration = analyzeduration;
    fflags = fflags;
    max_delay = max_delay;
    localaddr = localaddr;
    timeout = timeout;
    rtsp_transport = rtsp_transport;
  })

-- `ChannelOutputModify.MergePatch`
unfoldable pub merge_output : ChannelOutputModify → Output → Kind → Result Output
merge_output req prev k = do
  ref ← admin_only k (codes "ref") req.ref (not_null (codes "ref") req.ref prev.ref)
  url ← admin_only k (codes "url") req.url (accepted (nullable req.url prev.url))
  localaddr ←
      admin_only k (codes "localaddr") req.localaddr
        (accepted (nullable req.localaddr prev.localaddr))
  pkt_size ←
      admin_only k (codes "pkt_size") req.pkt_size
        (not_null (codes "pkt_size") req.pkt_size prev.pkt_size)
  stream_mapping ←
      admin_only k (codes "stream_mapping") req.stream_mapping
        (not_null (codes "stream_mapping") req.stream_mapping prev.stream_mapping)
  enabled ← not_null (codes "enabled") req.enabled prev.enabled
  accepted (record {
    ref = ref;
    url = url;
    localaddr = localaddr;
    pkt_size = pkt_size;
    stream_mapping = stream_mapping;
    enabled = enabled;
  })

-- `ChannelOutputModify.ToChannelOutput`
unfoldable pub to_channel_output : ChannelOutputModify → Result Output
to_channel_output req = do
  ref ← required (codes "ref") req.ref
  url ← required_nullable (codes "url") req.url
  localaddr ← required_nullable (codes "localaddr") req.localaddr
  pkt_size ← required (codes "pkt_size") req.pkt_size
  stream_mapping ← required (codes "stream_mapping") req.stream_mapping
  enabled ← required (codes "enabled") req.enabled
  accepted (record {
    ref = ref;
    url = url;
    localaddr = localaddr;
    pkt_size = pkt_size;
    stream_mapping = stream_mapping;
    enabled = enabled;
  })

-- An element of the array, at the index `i`.
abbrev pub replace_element : ℕ → W ChannelOutputModify → Result Output
replace_element i null = refused (at_index i (cannot_be_null (codes "outputs")))
replace_element i omitted = within (at_index i) (to_channel_output no_output)
replace_element i (value req) = within (at_index i) (to_channel_output req)

-- The array replaces the outputs.
unfoldable pub replace_outputs : ℕ → List (W ChannelOutputModify) → Result (List Output)
replace_outputs i [] = accepted []
replace_outputs i (w ∷ ws) = do
  o ← replace_element i w
  os ← replace_outputs (suc i) ws
  accepted (o ∷ os)

-- A patch of the output at an index.
unfoldable pub merge_at : ℕ → ChannelOutputModify → Kind → List Output → Result (List Output)
merge_at i req k [] = refused out_of_range
merge_at zero req k (o ∷ os) = do q ← merge_output req o k; accepted (q ∷ os)
merge_at (suc i) req k (o ∷ os) = do qs ← merge_at i req k os; accepted (o ∷ qs)

-- The outputs that a client may change.
abbrev pub is_open : Bytes → Bool
is_open ref =
    ref == codes "onprem_mr01" || ref == codes "onprem_mz01" || ref == codes "pubcloud_sky320"

abbrev pub may_set : Kind → Bytes → Bool
may_set admin ref = true
may_set b2b_client ref = is_open ref

-- A member of the object, with what the outputs have under its ref.
abbrev pub merge_member :
    Option OutputEntry → Bytes → W ChannelOutputModify → Kind → List Output → Result (List Output)
merge_member none ref w k os = refused no_such_ref
merge_member (some e) ref null k os = refused (at_ref ref (cannot_be_null (codes "outputs")))
merge_member (some e) ref omitted k os =
    if may_set k ref
    then within (at_ref ref) (merge_at e.index no_output k os)
    else refused (at_ref ref (unauthorized (codes "outputs")))
merge_member (some e) ref (value req) k os =
    if may_set k ref
    then within (at_ref ref) (merge_at e.index req k os)
    else refused (at_ref ref (unauthorized (codes "outputs")))

-- The loop over the members; the refs are those from before it.
unfoldable pub merge_members :
    List (Bytes × W ChannelOutputModify)
    → Map Bytes OutputEntry
    → Kind
    → List Output
    → Result (List Output)
merge_members [] by_ref k os = accepted os
merge_members ((ref, w) ∷ rest) by_ref k os = do
  qs ← merge_member (lookup ref by_ref) ref w k os
  merge_members rest by_ref k qs

abbrev pub merge_outputs : W OutputsBody → Kind → List Output → Result (List Output)
merge_outputs omitted k prev = accepted prev
merge_outputs null k prev = refused (cannot_be_null (codes "outputs"))
merge_outputs (value (elements ws)) k prev = replace_outputs 0 ws
merge_outputs (value (members ms)) k prev = merge_members ms (outputs_by_ref prev) k prev
merge_outputs (value undecodable) k prev = refused neither_array_nor_object

abbrev pub merge_input_field : W ChannelInputModify → Input → Kind → Result Input
merge_input_field omitted prev k = accepted prev
merge_input_field null prev k = refused (cannot_be_null (codes "input"))
merge_input_field (value req) prev k = merge_input req prev k

-- `ChannelModify.MergePatch`
unfoldable pub merge_patch : ChannelModify → Channel → Kind → Result Channel
merge_patch req prev k = do
  b2b_client_id ←
      admin_only k (codes "b2blnt_id") req.b2b_client_id
        (accepted (nullable req.b2b_client_id prev.b2b_client_id))
  input ← merge_input_field req.input prev.input k
  outputs ← merge_outputs req.outputs k prev.outputs
  enabled ← not_null (codes "enabled") req.enabled prev.enabled
  restart_sec ←
      admin_only k (codes "restart_sec") req.restart_sec
        (not_null (codes "restart_sec") req.restart_sec prev.restart_sec)
  accepted (record prev {
    b2b_client_id = b2b_client_id;
    name = nullable req.name prev.name;
    input = input;
    outputs = outputs;
    enabled = enabled;
    restart_sec = restart_sec;
  })
