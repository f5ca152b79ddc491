-- ===== src/Tests/Bodies.antt =====
-- Request bodies for a channel with two outputs.
use zmux_server.Base.{
  ◌≡◌, ◌↔◌, refl, true, false, [], ◌∷◌, none, some, codes, lookup, insert, bytes_eq,
}
use zmux_server.Base.Int.{negsuc}
use zmux_server.Channel.Types.{Channel, Input, Output}
use zmux_server.Channel.Outputs.{outputs_from, outputs_by_ref}
use zmux_server.Dto.Fields.{omitted, null, value, admin, b2b_client, accepted}
use zmux_server.Dto.Modify.{
  ChannelModify, members, no_output, merge_patch, merge_output, merge_at, merge_members,
}
use zmux_server.Dto.Outputs.{AreClientEdits}
use zmux_server.Dto.Patch.{merge_patch-client}
use zmux_server.Dto.Full.{outputs_patch, full_patch, merge_patch-replaces_outputs, merge_patch-full}
use zmux_server.Dto.Replace.{to_channel as replace_channel}
use zmux_server.Dto.Replace.Full.{full_body as full_replace}
use zmux_server.Dto.Replace.Complete.{to_channel_iff}

abbrev input : Input
input = record {
  url = some (codes "rtsp://camera/live");
  username = none;
  password = none;
  avioflags = none;
  probesize = 5000000;
  analyzeduration = 0;
  fflags = some (codes "nobuffer");
  max_delay = negsuc 0;
  localaddr = none;
  timeout = 3000000;
  rtsp_transport = none;
}

abbrev recorder : Output
recorder = record {
  ref = codes "onprem_mr01";
  url = some (codes "udp://10.0.0.1:5000");
  localaddr = none;
  pkt_size = 1316;
  stream_mapping = codes "video" ∷ [];
  enabled = false;
}

abbrev spare : Output
spare = record recorder { ref = codes "spare" }

abbrev lobby : Channel
lobby = record {
  id = 4;
  interactive = false;
  b2b_client_id = some 2;
  name = some (codes "lobby");
  input = input;
  outputs = spare ∷ recorder ∷ [];
  enabled = true;
  restart_sec = 3;
}

-- A client takes the name off and enables the recorder.
abbrev by_client : ChannelModify
by_client = record {
  b2b_client_id = omitted;
  name = null;
  input = omitted;
  outputs =
      value
        (members ((codes "onprem_mr01", value (record no_output { enabled = value true })) ∷ []));
  enabled = omitted;
  restart_sec = omitted;
}

abbrev patched : Channel
patched = record lobby { name = none; outputs = spare ∷ record recorder { enabled = true } ∷ [] }

merge_patch-client_example :
    (patched ≡ record lobby {
      name = patched.name;
      input = record (lobby.input) {
        url = patched.input.url;
        username = patched.input.username;
        password = patched.input.password;
      };
      outputs = patched.outputs;
      enabled = patched.enabled;
    })
    × AreClientEdits lobby.outputs patched.outputs
unfolding merge_patch merge_members merge_at merge_output outputs_by_ref outputs_from lookup insert
merge_patch-client_example = merge_patch-client by_client lobby patched refl refl

merge_patch-replaces_outputs_example :
    merge_patch (outputs_patch (spare ∷ [])) lobby b2b_client
    ≡ accepted (record lobby { outputs = spare ∷ [] })
merge_patch-replaces_outputs_example = merge_patch-replaces_outputs (spare ∷ []) lobby b2b_client

merge_patch-full_example :
    merge_patch (full_patch lobby) (record patched { id = 9 }) admin
    ≡ accepted (record lobby { id = 9 })
merge_patch-full_example = merge_patch-full lobby (record patched { id = 9 })

to_channel_iff_example :
    (replace_channel (full_replace lobby) 4 ≡ accepted lobby)
    ↔ ((full_replace lobby ≡ full_replace lobby) × (lobby.id ≡ 4) × (lobby.interactive ≡ false))
to_channel_iff_example = to_channel_iff (full_replace lobby) 4 lobby
