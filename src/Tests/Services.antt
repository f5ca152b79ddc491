-- ===== src/Tests/Services.antt =====
-- A concrete client, its quotas and its channels in service.
use zmux_server.Channel.Types.{Channel}
use zmux_server.Base.{
  if◌then◌else◌, ℕ, suc, arith, ◌≡◌, ◌↔◌, refl, true, List, [], ◌∷◌, none, some, Bytes, codes,
  lookup, insert, delete, nat_eq, bytes_eq, ◌==◌, All, Bool-cases, inl, inr,
}
use zmux_server.Base.Int.{pos, leb_ℤ}
use zmux_server.Channel.Outputs.{outputs_by_ref, outputs_from}
use zmux_server.B2bClient.{Client, ClientResource, ClientView, view, slice_to_map_by_ref}
use zmux_server.B2bClient.Quota.{view_quotas, view_channels, view_output, view_online}
use zmux_server.B2bService.{
  Service, ProcessManager, register_channel, unregister_channel, unregistered, start, build_view,
  remove, lookup_by_channel_id,
}
use zmux_server.B2bService.Counters.{count_outputs, bump}
use zmux_server.B2bService.Usage.{
  Counts, register_channel-Counts, unregister_channel-Counts, register_channel_lem,
  enabled_channels,
}
use zmux_server.ChannelService.{
  check_enabled_channel_quota, check_output, check_outputs, check_enabled_output_quotas,
  enforce_quota_on_create, enforce_quota_on_update,
}
use zmux_server.ChannelService.Quota.{
  enforce_quota_on_create_iff, enforce_quota_on_update-Kept, create-quota, ChannelFits, OutputFits,
}
use zmux_server.ObjectStore.{Store, empty, upsert, get_one}
use zmux_server.ObjectStore.{remove as remove_object}
use zmux_server.ObjectStore.Index.{last_lt, reindex, remove_at}
use zmux_server.ObjectStore.Values.{IsValid, empty-IsValid}
use zmux_server.ObjectStore.Upsert.{upsert-IsValid}
use zmux_server.Channel.Clone.{model}
use zmux_server.ChannelService.Ops.{
  DataStore, System, done, create, create_for, create_checked, with_client, attach, attach_to,
  erase, detach, detach_from,
}
use zmux_server.ChannelService.Ops.Create.{create-done}
use zmux_server.ChannelService.{QuotaExceededError}
use zmux_server.ChannelService.Ops.Laws.{Created, create-Created, erase-Counts}
use zmux_server.Tests.Channels.{sd}

abbrev request : ClientResource
request = record {
  name = codes "ACME";
  quotas = record {
    enabled_channels = record { quota = pos 1 };
    enabled_outputs = record { ref = codes "onprem_mr01"; quota = pos 2 } ∷ [];
    online_channels = record { quota = pos 4; max_preflight = pos 1 };
  };
}

abbrev token : Bytes
token = codes "b2b_x"

abbrev acme : Client
acme = record {
  id = 3;
  name = codes "ACME";
  bearer_token = token;
  quotas = record {
    enabled_channels = record { quota = pos 1 };
    enabled_outputs = record { ref = codes "onprem_mr01"; quota = pos 2 } ∷ [];
    online_channels = record { quota = pos 4; max_preflight = pos 1 };
  };
}

abbrev acme_view : ClientView
acme_view = record {
  id = 3;
  name = codes "ACME";
  bearer_token = token;
  quotas = record {
    enabled_channels = record { quota = pos 1; usage = pos 0 };
    enabled_outputs = record { ref = codes "onprem_mr01"; quota = pos 2; usage = pos 0 } ∷ [];
    online_channels = record { quota = pos 4; max_preflight = pos 1; usage = pos 0 };
  };
  channel_ids = [];
}

-- A process manager that keeps the ids of its channels.
abbrev pub manager : ProcessManager (List ℕ)
manager = record {
  add = λ id argv cooldown ids. some (id ∷ ids);
  close = λ id ids. some [];
  onflight = λ ids. pos 0;
}

abbrev idle : Service (List ℕ)
idle = record {
  procmngrs = (3, []) ∷ [];
  channel_client = [];
  client_channels = [];
  channels_usage = [];
  outputs_usage = (3, []) ∷ [];
}

abbrev busy : Service (List ℕ)
busy = record {
  procmngrs = (3, 7 ∷ []) ∷ [];
  channel_client = (7, 3) ∷ [];
  client_channels = (3, 7 ∷ []) ∷ [];
  channels_usage = (3, pos 1) ∷ [];
  outputs_usage = (3, (codes "onprem_mr01", pos 1) ∷ []) ∷ [];
}

abbrev over : Service (List ℕ)
over = record {
  procmngrs = (3, []) ∷ [];
  channel_client = [];
  client_channels = (3, []) ∷ [];
  channels_usage = (3, pos 0) ∷ [];
  outputs_usage = (3, (codes "onprem_mr01", pos 0) ∷ []) ∷ [];
}

idle-Counts : Counts idle []
unfolding lookup
idle-Counts = record {
  channels = λ c. refl;
  outputs = λ c r. elim (Bool-cases (3 == c)) [ inl e ↦ rw e refl | inr e ↦ rw e refl ];
}

registered_sd : register_channel manager 3 sd idle ≡ some (busy, start sd)
unfolding register_channel count_outputs bump lookup insert
registered_sd = refl

unregistered_sd : unregister_channel manager 3 sd busy ≡ some over
unfolding unregister_channel unregistered count_outputs bump lookup insert delete remove
unregistered_sd = refl

busy-Counts : Counts busy ((3, sd) ∷ [])
busy-Counts = register_channel-Counts manager 3 sd idle busy (start sd) [] idle-Counts registered_sd

register_channel-Counts_example : Counts busy ((3, sd) ∷ [])
register_channel-Counts_example =
    register_channel-Counts manager 3 sd idle busy (start sd) [] idle-Counts registered_sd

unregister_channel-Counts_example : Counts over []
unregister_channel-Counts_example =
    unregister_channel-Counts manager 3 sd busy over [] [] busy-Counts unregistered_sd

register_channel_lem_example :
    (s' : Service (List ℕ)) × ((register_channel manager 3 sd idle ≡ some (s', start sd))
      × ((lookup_by_channel_id 7 s' ≡ some 3) × (lookup 3 s'.procmngrs ≡ some (7 ∷ []))))
unfolding lookup
register_channel_lem_example = register_channel_lem manager 3 sd idle [] (7 ∷ []) refl refl refl

accepted : enforce_quota_on_create acme_view sd ≡ none
unfolding enforce_quota_on_create check_enabled_channel_quota check_enabled_output_quotas
    slice_to_map_by_ref check_outputs check_output lookup insert
accepted = refl

view_idle : build_view manager idle acme ≡ some acme_view
unfolding build_view view view_quotas view_channels view_output view_online lookup
view_idle = refl

create-quota_example : leb_ℤ (pos (enabled_channels 3 ((3, sd) ∷ []))) (pos 1) ≡ true
create-quota_example =
    create-quota manager idle [] acme acme_view sd idle-Counts view_idle accepted refl

enforce_quota_on_create_iff_example : (enforce_quota_on_create acme_view sd ≡ none) ↔ (
    ChannelFits acme_view sd
    × All (OutputFits (slice_to_map_by_ref acme_view.quotas.enabled_outputs [])) sd.outputs)
enforce_quota_on_create_iff_example = enforce_quota_on_create_iff acme_view sd

enforce_quota_on_update-Kept_example : enforce_quota_on_update acme_view sd sd ≡ none
unfolding lookup outputs_by_ref outputs_from insert
enforce_quota_on_update-Kept_example =
    enforce_quota_on_update-Kept acme_view sd sd (λ h. refl) ((λ h. refl), ((λ h. cc), tt))

-- A data store that hands out ids in turn.
abbrev pub database : DataStore ℕ
database = record {
  create = λ m n. some (n, suc n);
  update = λ id m n. some n;
  erase = λ id n. some n;
}

abbrev one_object {ℓ} : {V : Type ℓ} → ℕ → V → Store V
one_object id v = record { by_id = (id, v) ∷ []; ids = id ∷ []; vals = v ∷ []; pos = (id, 0) ∷ [] }

abbrev no_channels : Store Channel
no_channels = record { by_id = []; ids = []; vals = []; pos = [] }

abbrev before : System ℕ (List ℕ) (List ℕ)
before = record {
  ds = 7;
  objs = no_channels;
  procmngr = [];
  clients = one_object 3 acme;
  service = idle;
}

abbrev pub after : System ℕ (List ℕ) (List ℕ)
after = record {
  ds = 8;
  objs = one_object 7 (start sd);
  procmngr = [];
  clients = one_object 3 acme;
  service = busy;
}

abbrev emptied : System ℕ (List ℕ) (List ℕ)
emptied = record {
  ds = 8;
  objs = no_channels;
  procmngr = [];
  clients = one_object 3 acme;
  service = over;
}

created_sd : create database manager manager sd before ≡ done after
unfolding create create_for with_client create_checked attach attach_to get_one upsert last_lt
    build_view view view_quotas view_channels view_output view_online enforce_quota_on_create
    check_enabled_channel_quota check_enabled_output_quotas slice_to_map_by_ref check_outputs
    check_output register_channel count_outputs bump lookup insert model
created_sd = refl

create-Created_example :
    (c : Client) × ((v : ClientView) × ((get_one 3 before.clients ≡ some c)
        × ((build_view manager before.service c ≡ some v)
            × ((enforce_quota_on_create v sd ≡ none)
                × Created database manager manager 3 sd before after []))))
create-Created_example =
    create-Created database manager manager 3 sd before after [] refl idle-Counts created_sd

found_sd : get_one 7 after.objs ≡ some (start sd)
unfolding get_one lookup
found_sd = refl

after-IsValid : IsValid after.objs
unfolding upsert last_lt lookup insert empty
after-IsValid = upsert-IsValid 7 (start sd) no_channels (omega arith) empty-IsValid

erased_sd : erase database manager manager 7 after ≡ done emptied
unfolding erase detach detach_from get_one remove_object remove_at reindex unregister_channel
    unregistered count_outputs bump lookup insert delete remove
erased_sd = refl

started-Counts : Counts busy ((3, start sd) ∷ [])
started-Counts = record { channels = busy-Counts.channels; outputs = busy-Counts.outputs }

erase-Counts_example :
    Counts over []
    × ((j : ℕ) → get_one j no_channels ≡ (if 7 == j then none else get_one j after.objs))
erase-Counts_example =
    erase-Counts database manager manager 3 7 (start sd) after emptied [] [] found_sd refl
      after-IsValid started-Counts erased_sd

known_acme : get_one 3 before.clients ≡ some acme
unfolding get_one lookup
known_acme = refl

stored_sd : database.create (model sd) before.ds ≡ some (7, 8)
stored_sd = refl

create-done_example :
    (sys' : System ℕ (List ℕ) (List ℕ)) × ((create database manager manager sd before ≡ done sys')
      × (lookup 3 sys'.service.procmngrs ≡ some (7 ∷ [])))
unfolding lookup
create-done_example =
    create-done database manager manager 3 sd before acme acme_view refl known_acme view_idle 7 8 []
      (7 ∷ []) accepted stored_sd refl refl refl

-- The view once a channel is in service, with no room left.
abbrev full_view : ClientView
full_view = record {
  id = 3;
  name = codes "ACME";
  bearer_token = token;
  quotas = record {
    enabled_channels = record { quota = pos 1; usage = pos 1 };
    enabled_outputs = record { ref = codes "onprem_mr01"; quota = pos 2; usage = pos 1 } ∷ [];
    online_channels = record { quota = pos 4; max_preflight = pos 1; usage = pos 0 };
  };
  channel_ids = 7 ∷ [];
}

abbrev too_many : QuotaExceededError
too_many = record {
  client_name = codes "ACME";
  client_id = 3;
  resource = codes "enabled channel";
  usage = pos 2;
  quota = pos 1;
}

view_busy : build_view manager busy acme ≡ some full_view
unfolding build_view view view_quotas view_channels view_output view_online lookup
view_busy = refl

refused_sd : enforce_quota_on_create full_view sd ≡ some too_many
unfolding enforce_quota_on_create check_enabled_channel_quota check_enabled_output_quotas
    slice_to_map_by_ref check_outputs check_output lookup insert
refused_sd = refl
