-- ===== src/Dto/Replace/Complete.antt =====
-- Only a body that says every field is accepted (channel_replace.go).
use zmux_server.Base.{ℕ, suc, ◌≡◌, ◌∙◌, ap, sym, false, List, [], ◌∷◌, codes, map, ◌↔◌}
use zmux_server.Channel.Types.{Channel, Input, Output}
use zmux_server.Dto.Fields.{
  W, omitted, null, value, accepted, required, required_nullable, bind-accepted, required-accepted,
  required_nullable-accepted, within-accepted, accepted-injective,
}
use zmux_server.Dto.Replace.{
  ChannelReplace, InputReplace, OutputReplace, to_element, to_outputs, to_input_field,
  to_outputs_field, to_channel_input, to_channel_output, to_channel,
}
use zmux_server.Dto.Replace.Full.{output_body, input_body, full_body, replace-full_body}

input-accepted :
    (req : InputReplace) (new : Input) → to_channel_input req ≡ accepted new → req ≡ input_body new
unfolding to_channel_input
input-accepted req new h =
    let (url, e_url, h1) = bind-accepted (required_nullable (codes "input.url") req.url) _ new h in
    let (username, e_username, h2) =
      bind-accepted (required_nullable (codes "input.username") req.username) _ new h1 in
    let (password, e_password, h3) =
      bind-accepted (required_nullable (codes "input.password") req.password) _ new h2 in
    let (avioflags, e_avioflags, h4) =
      bind-accepted (required_nullable (codes "input.avioflags") req.avioflags) _ new h3 in
    let (probesize, e_probesize, h5) =
      bind-accepted (required (codes "input.probesize") req.probesize) _ new h4 in
    let (analyzeduration, e_analyzeduration, h6) =
      bind-accepted (required (codes "input.analyzeduration") req.analyzeduration) _ new h5 in
    let (fflags, e_fflags, h7) =
      bind-accepted (required_nullable (codes "input.fflags") req.fflags) _ new h6 in
    let (max_delay, e_max_delay, h8) =
      bind-accepted (required (codes "input.max_delay") req.max_delay) _ new h7 in
    let (localaddr, e_localaddr, h9) =
      bind-accepted (required_nullable (codes "input.localaddr") req.localaddr) _ new h8 in
    let (timeout, e_timeout, h10) =
      bind-accepted (required (codes "input.timeout") req.timeout) _ new h9 in
    let (rtsp_transport, e_rtsp_transport, h11) =
      bind-accepted (required_nullable (codes "input.rtsp_transport") req.rtsp_transport) _ new
        h10 in
    let same =
      accepted-injective
        (record {
          url = url;
          username = username;
          password = password;
          avioflags = avioflags;
          probesize = probesize;
          analyzeduration = analyzeduration;
          fflags = fflags;
          max_delay = max_delay;
          localaddr = localaddr;
          timeout = timeout;
          rtsp_transport = rtsp_transport;
        })
        new h11 in
    (λ i. record {
      url = required_nullable-accepted (codes "input.url") req.url url e_url i;
      username =
          required_nullable-accepted (codes "input.username") req.username username e_username i;
      password =
          required_nullable-accepted (codes "input.password") req.password password e_password i;
      avioflags =
          required_nullable-accepted (codes "input.avioflags") req.avioflags avioflags e_avioflags
            i;
      probesize = required-accepted (codes "input.probesize") req.probesize probesize e_probesize i;
      analyzeduration =
          required-accepted (codes "input.analyzeduration") req.analyzeduration analyzeduration
            e_analyzeduration i;
      fflags = required_nullable-accepted (codes "input.fflags") req.fflags fflags e_fflags i;
      max_delay = required-accepted (codes "input.max_delay") req.max_delay max_delay e_max_delay i;
      localaddr =
          required_nullable-accepted (codes "input.localaddr") req.localaddr localaddr e_localaddr
            i;
      timeout = required-accepted (codes "input.timeout") req.timeout timeout e_timeout i;
      rtsp_transport =
          required_nullable-accepted (codes "input.rtsp_transport") req.rtsp_transport
            rtsp_transport e_rtsp_transport i;
    })
    ∙ ap input_body same

output-accepted :
    (req : OutputReplace) (new : Output)
    → to_channel_output req ≡ accepted new
    → value req ≡ output_body new
unfolding to_channel_output
output-accepted req new h =
    let (ref, e_ref, h1) = bind-accepted (required (codes "output.ref") req.ref) _ new h in
    let (url, e_url, h2) =
      bind-accepted (required_nullable (codes "output.url") req.url) _ new h1 in
    let (localaddr, e_localaddr, h3) =
      bind-accepted (required_nullable (codes "output.localaddr") req.localaddr) _ new h2 in
    let (pkt_size, e_pkt_size, h4) =
      bind-accepted (required (codes "output.pkt_size") req.pkt_size) _ new h3 in
    let (stream_mapping, e_stream_mapping, h5) =
      bind-accepted (required (codes "output.stream_mapping") req.stream_mapping) _ new h4 in
    let (enabled, e_enabled, h6) =
      bind-accepted (required (codes "output.enabled") req.enabled) _ new h5 in
    let same =
      accepted-injective
        (record {
          ref = ref;
          url = url;
          localaddr = localaddr;
          pkt_size = pkt_size;
          stream_mapping = stream_mapping;
          enabled = enabled;
        })
        new h6 in
    (λ i. value (record {
      ref = required-accepted (codes "output.ref") req.ref ref e_ref i;
      url = required_nullable-accepted (codes "output.url") req.url url e_url i;
      localaddr =
          required_nullable-accepted (codes "output.localaddr") req.localaddr localaddr e_localaddr
            i;
      pkt_size = required-accepted (codes "output.pkt_size") req.pkt_size pkt_size e_pkt_size i;
      stream_mapping =
          required-accepted (codes "output.stream_mapping") req.stream_mapping stream_mapping
            e_stream_mapping i;
      enabled = required-accepted (codes "output.enabled") req.enabled enabled e_enabled i;
    }))
    ∙ ap output_body same

element-accepted :
    (i : ℕ) (w : W OutputReplace) (new : Output)
    → to_element i w ≡ accepted new
    → w ≡ output_body new
unfolding to_channel_output
element-accepted i omitted new h = absurd (cc h)
element-accepted i null new h = absurd (cc h)
element-accepted i (value req) new h =
    output-accepted req new (within-accepted _ (to_channel_output req) new h)

elements-accepted :
    (i : ℕ) (ws : List (W OutputReplace)) (new : List Output)
    → to_outputs i ws ≡ accepted new
    → ws ≡ map output_body new
unfolding to_outputs
elements-accepted i [] new h = ap (map output_body) (let e : [] ≡ new = cc h in e)
elements-accepted i (w ∷ ws) new h =
    let (o, e, h1) = bind-accepted (to_element i w) _ new h in
    let (os, f, h2) = bind-accepted (to_outputs (suc i) ws) _ new h1 in
    let first = element-accepted i w o e in
    let rest = elements-accepted (suc i) ws os f in
    let same : o ∷ os ≡ new = cc h2 in
    ap (λ x. x ∷ ws) first ∙ ap (λ x. output_body o ∷ x) rest ∙ ap (map output_body) same

input_field-accepted :
    (w : W InputReplace) (new : Input)
    → to_input_field w ≡ accepted new
    → w ≡ value (input_body new)
input_field-accepted omitted new h = absurd (cc h)
input_field-accepted null new h = absurd (cc h)
input_field-accepted (value req) new h = ap value (input-accepted req new h)

outputs_field-accepted :
    (w : W (List (W OutputReplace))) (new : List Output)
    → to_outputs_field w ≡ accepted new
    → w ≡ value (map output_body new)
outputs_field-accepted omitted new h = absurd (cc h)
outputs_field-accepted null new h = absurd (cc h)
outputs_field-accepted (value ws) new h = ap value (elements-accepted 0 ws new h)

to_channel_complete :
    (req : ChannelReplace) (id : ℕ) (ch : Channel)
    → to_channel req id ≡ accepted ch
    → (req ≡ full_body ch) × (ch.id ≡ id) × (ch.interactive ≡ false)
unfolding to_channel
to_channel_complete req id ch h =
    let (client, e1, h1) =
      bind-accepted (required_nullable (codes "b2bclnt_id") req.b2b_client_id) _ ch h in
    let (name, e2, h2) = bind-accepted (required_nullable (codes "name") req.name) _ ch h1 in
    let (input, e3, h3) = bind-accepted (to_input_field req.input) _ ch h2 in
    let (outputs, e4, h4) = bind-accepted (to_outputs_field req.outputs) _ ch h3 in
    let (enabled, e5, h5) = bind-accepted (required (codes "enabled") req.enabled) _ ch h4 in
    let (restart_sec, e6, h6) =
      bind-accepted (required (codes "restart_sec") req.restart_sec) _ ch h5 in
    let made : Channel = record {
      id = id;
      interactive = false;
      b2b_client_id = client;
      name = name;
      input = input;
      outputs = outputs;
      enabled = enabled;
      restart_sec = restart_sec;
    } in
    let same = accepted-injective made ch h6 in
    (
      (λ i. record {
        b2b_client_id =
            required_nullable-accepted (codes "b2bclnt_id") req.b2b_client_id client e1 i;
        name = required_nullable-accepted (codes "name") req.name name e2 i;
        input = input_field-accepted req.input input e3 i;
        outputs = outputs_field-accepted req.outputs outputs e4 i;
        enabled = required-accepted (codes "enabled") req.enabled enabled e5 i;
        restart_sec = required-accepted (codes "restart_sec") req.restart_sec restart_sec e6 i;
      })
          ∙ ap full_body same,
      sym (ap (λ c. c.id) same),
      sym (ap (λ c. c.interactive) same),
    )

-- A body of PUT is accepted as a channel exactly when it says every field of that channel, and
-- the channel has the id of the request and is not interactive.
pub to_channel_iff :
    (req : ChannelReplace) (id : ℕ) (ch : Channel)
    → (to_channel req id ≡ accepted ch)
      ↔ ((req ≡ full_body ch) × (ch.id ≡ id) × (ch.interactive ≡ false))
to_channel_iff req id ch = (
  to_channel_complete req id ch,
  λ (e, f, g).
      ap (λ r. to_channel r id) e
      ∙ ap (to_channel (full_body ch)) (sym f)
      ∙ replace-full_body ch
      ∙ cc g,
)
