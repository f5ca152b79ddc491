-- ===== src/ChannelService/Ops/Create.antt =====
-- When `Create` of internal/service/channel.go goes through.
use zmux_server.Base.{ℕ, ◌≡◌, refl, ap, ◌∙◌, true, none, some, lookup, is_some, nat_eq, bytes_eq}
use zmux_server.Channel.Types.{Channel}
use zmux_server.Channel.Clone.{model}
use zmux_server.ObjectStore.{upsert, get_one}
use zmux_server.B2bClient.{Client, ClientView}
use zmux_server.B2bService.{Service, ProcessManager, register_channel, build_view, start, seconds}
use zmux_server.B2bService.Usage.{register_channel_lem}
use zmux_server.Remux.{build_argv}
use zmux_server.ChannelService.{enforce_quota_on_create}
use zmux_server.ChannelService.Ops.{
  DataStore, System, done, create, create_for, create_checked, attach, attach_to, with_client,
}

attach_to-register {ℓ} :
    {D P Q : Type ℓ} (db : DataStore D) (pm : ProcessManager P) (qm : ProcessManager Q) (b : ℕ)
    (ch : Channel) (sys : System D P Q) (s : Service P)
    → register_channel pm b ch sys.service ≡ some (s, start ch)
    → attach_to db pm qm (some b) ch sys
      ≡ done (record sys { service = s; objs = upsert ch.id (start ch) sys.objs })
unfolding attach_to
attach_to-register db pm qm b ch sys s e = rw e refl

module _ {ℓ} {D P Q : Type ℓ} (db : DataStore D) (pm : ProcessManager P) (qm : ProcessManager Q)
    (b : ℕ) (ch : Channel) (sys : System D P Q) (c : Client) (v : ClientView)
    (own : ch.b2b_client_id ≡ some b) (known : get_one b sys.clients ≡ some c)
    (seen : build_view pm sys.service c ≡ some v) where
  -- `Create` of a channel of a known client goes through when the quota checks pass, the data
  -- store gives an id, the client has its counters and a process manager, and that takes the
  -- channel; the new state of the process manager is then on record.
  pub create-done :
      (id : ℕ) (ds : D) (p p' : P)
      → enforce_quota_on_create v ch ≡ none
      → db.create (model ch) sys.ds ≡ some (id, ds)
      → is_some (lookup b sys.service.outputs_usage) ≡ true
      → lookup b sys.service.procmngrs ≡ some p
      → pm.add id (build_argv (start (record ch { id = id }))) (seconds ch.restart_sec) p ≡ some p'
      → (sys' : System D P Q) × ((create db pm qm ch sys ≡ done sys')
          × (lookup b sys'.service.procmngrs ≡ some p'))
  unfolding create create_for with_client create_checked attach
  create-done id ds p p' accepted stored counted found added =
      let ch' = record ch { id = id } in
      let (s, (e, (owner, manager))) =
        register_channel_lem pm b ch' sys.service p p' counted found added in
      let left = record sys { ds = ds; objs = upsert id ch' sys.objs } in
      let attached =
        ap (λ o. attach_to db pm qm o ch' left) own ∙ attach_to-register db pm qm b ch' left s e in
      (
        record left { service = s; objs = upsert id (start ch') left.objs },
        (
          ap (λ o. create_for db pm qm o ch sys) own ∙ rw (known, seen, accepted, stored) attached,
          manager,
        ),
      )
