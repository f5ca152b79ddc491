-- ===== src/Dto/Client.antt =====
-- What a patch by a client can change (channel_modify.go).
use zmux_server.Base.{◌≡◌, codes}
use zmux_server.Channel.Types.{Input, Output}
use zmux_server.Dto.Fields.{
  b2b_client, accepted, not_null, bind-accepted, client_nullable, client_not_null,
}
use zmux_server.Dto.Modify.{ChannelInputModify, ChannelOutputModify, merge_input, merge_output}

-- A client's patch of an input leaves all but the URL and the credentials.
pub merge_input-client :
    (req : ChannelInputModify) (prev new : Input)
    → merge_input req prev b2b_client ≡ accepted new
    → new ≡ record prev { url = new.url; username = new.username; password = new.password }
unfolding merge_input
merge_input-client req prev new h =
    let h1 = client_nullable (codes "avioflags") req.avioflags prev.avioflags _ new h in
    let h2 = client_not_null (codes "probesize") req.probesize prev.probesize _ new h1 in
    let h3 =
      client_not_null (codes "analyzeduration") req.analyzeduration prev.analyzeduration _ new h2 in
    let h4 = client_nullable (codes "fflags") req.fflags prev.fflags _ new h3 in
    let h5 = client_not_null (codes "max_delay") req.max_delay prev.max_delay _ new h4 in
    let h6 = client_nullable (codes "localaddr") req.localaddr prev.localaddr _ new h5 in
    let h7 = client_not_null (codes "timeout") req.timeout prev.timeout _ new h6 in
    let h8 =
      client_nullable (codes "rtsp_transport") req.rtsp_transport prev.rtsp_transport _ new h7 in
    cc h8

-- A client's patch of an output leaves all but whether it is enabled.
pub merge_output-client :
    (req : ChannelOutputModify) (prev new : Output)
    → merge_output req prev b2b_client ≡ accepted new
    → new ≡ record prev { enabled = new.enabled }
unfolding merge_output
merge_output-client req prev new h =
    let h1 = client_not_null (codes "ref") req.ref prev.ref _ new h in
    let h2 = client_nullable (codes "url") req.url prev.url _ new h1 in
    let h3 = client_nullable (codes "localaddr") req.localaddr prev.localaddr _ new h2 in
    let h4 = client_not_null (codes "pkt_size") req.pkt_size prev.pkt_size _ new h3 in
    let h5 =
      client_not_null (codes "stream_mapping") req.stream_mapping prev.stream_mapping _ new h4 in
    let (enabled, _, h6) =
      bind-accepted (not_null (codes "enabled") req.enabled prev.enabled) _ new h5 in
    cc h6
