-- ===== src/Dto/Patch.antt =====
-- A client's patch as a whole (channel_modify.go).
use zmux_server.Base.{◌≡◌, subst, Bool, true, false, List, codes}
use zmux_server.Channel.Types.{Channel, Input, Output}
use zmux_server.Dto.Fields.{
  W, omitted, null, value, b2b_client, accepted, not_null, bind-accepted, client_nullable,
  client_not_null,
}
use zmux_server.Dto.Modify.{
  ChannelModify, ChannelInputModify, OutputsBody, elements, members, undecodable, merge_outputs,
  merge_input_field, merge_patch,
}
use zmux_server.Dto.Client.{merge_input-client}
use zmux_server.Dto.Outputs.{AreClientEdits, same-AreClientEdits, merge_by_ref-client}

-- The outputs of a body are an array.
abbrev pub is_array : W OutputsBody → Bool
is_array (value (elements ws)) = true
is_array _ = false

merge_input_field-client :
    (w : W ChannelInputModify) (prev new : Input)
    → merge_input_field w prev b2b_client ≡ accepted new
    → new ≡ record prev { url = new.url; username = new.username; password = new.password }
merge_input_field-client omitted prev new h = cc h
merge_input_field-client null prev new h = absurd (cc h)
merge_input_field-client (value req) prev new h = merge_input-client req prev new h

merge_outputs-client :
    (w : W OutputsBody) (prev new : List Output)
    → is_array w ≡ false
    → merge_outputs w b2b_client prev ≡ accepted new
    → AreClientEdits prev new
merge_outputs-client omitted prev new named h =
    subst (AreClientEdits prev) (cc h) (same-AreClientEdits prev)
merge_outputs-client null prev new named h = absurd (cc h)
merge_outputs-client (value (elements ws)) prev new named h = absurd (cc named)
merge_outputs-client (value (members ms)) prev new named h = merge_by_ref-client ms prev new h
merge_outputs-client (value undecodable) prev new named h = absurd (cc h)

-- A patch by a client that is accepted, with no array of outputs, changes the name, the URL and
-- the credentials of the input, whether the channel is enabled, and nothing else outside the
-- outputs; and of the outputs it changes only whether one is enabled, for those with one of the
-- three refs that are open to clients.
pub merge_patch-client :
    (req : ChannelModify) (prev new : Channel)
    → is_array req.outputs ≡ false
    → merge_patch req prev b2b_client ≡ accepted new
    → (new ≡ record prev {
      name = new.name;
      input = record (prev.input) {
        url = new.input.url;
        username = new.input.username;
        password = new.input.password;
      };
      outputs = new.outputs;
      enabled = new.enabled;
    })
      × AreClientEdits prev.outputs new.outputs
unfolding merge_patch
merge_patch-client req prev new named h =
    let h1 = client_nullable (codes "b2blnt_id") req.b2b_client_id prev.b2b_client_id _ new h in
    let (input, e2, h2) =
      bind-accepted (merge_input_field req.input prev.input b2b_client) _ new h1 in
    let (outputs, e3, h3) =
      bind-accepted (merge_outputs req.outputs b2b_client prev.outputs) _ new h2 in
    let (enabled, e4, h4) =
      bind-accepted (not_null (codes "enabled") req.enabled prev.enabled) _ new h3 in
    let h5 = client_not_null (codes "restart_sec") req.restart_sec prev.restart_sec _ new h4 in
    let kept = merge_input_field-client req.input prev.input input e2 in
    let same_outputs : outputs ≡ new.outputs = cc h5 in
    (
      cc (h5, kept),
      subst (AreClientEdits prev.outputs) same_outputs
          (merge_outputs-client req.outputs prev.outputs outputs named e3),
    )
