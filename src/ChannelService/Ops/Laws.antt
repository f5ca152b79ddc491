-- ===== src/ChannelService/Ops/Laws.antt =====
-- What `Create` and `Delete` of internal/service/channel.go leave behind.
use zmux_server.Base.{
  ℕ, ◌≡◌, refl, ap, sym, ◌∙◌, subst, true, ◌∷◌, ◌++◌, none, some, if◌then◌else◌, nat_eq,
  nat_beq_iff, ◌==◌, Option-cases, inl, inr,
}
use zmux_server.Channel.Types.{Channel}
use zmux_server.Channel.Clone.{model}
use zmux_server.ObjectStore.{upsert, remove, get_one}
use zmux_server.ObjectStore.Values.{IsValid}
use zmux_server.ObjectStore.Remove.{get_one-upsert, get_one-remove}
use zmux_server.B2bClient.{Client, ClientView}
use zmux_server.B2bService.{ProcessManager, register_channel, unregister_channel, build_view, start}
use zmux_server.B2bService.Usage.{
  Registry, Counts, register_channel-Counts, unregister_channel-Counts, register_channel-start,
}
use zmux_server.ChannelService.{enforce_quota_on_create}
use zmux_server.ChannelService.Ops.{
  DataStore, System, done, create, create_for, create_checked, attach, attach_to, detach,
  detach_from, erase, with_client,
}

module _ {ℓ} {D P Q : Type ℓ} (db : DataStore D) (pm : ProcessManager P) (qm : ProcessManager Q)
    (b : ℕ) where
  attach-Counts :
      (ch : Channel) (sys sys' : System D P Q) (reg : Registry)
      → ch.b2b_client_id ≡ some b
      → Counts sys.service reg
      → attach db pm qm ch sys ≡ done sys'
      → Counts sys'.service ((b, ch) ∷ reg) × (get_one ch.id sys'.objs ≡ some (start ch))
  unfolding attach attach_to
  attach-Counts ch sys sys' reg own k h' =
      let h = sym (ap (λ o. attach_to db pm qm o ch sys) own) ∙ h' in
      elim (Option-cases (register_channel pm b ch sys.service)) [
        | inl stuck ↦ absurd (cc (rw stuck at h))
        | inr ((s, started), e) ↦
            let q = rw e at h in
            let objs : sys'.objs ≡ upsert ch.id started sys.objs = cc q in
            let service : s ≡ sys'.service = cc q in
            let self : (ch.id == ch.id) ≡ true = (nat_beq_iff ch.id ch.id).1 refl in
            let found = rw self at (get_one-upsert ch.id ch.id started sys.objs) in
            (
              subst (λ t. Counts t ((b, ch) ∷ reg)) service
                  (register_channel-Counts pm b ch sys.service s started reg k e),
              ap (get_one ch.id) objs
                  ∙ (found ∙ ap some (register_channel-start pm b ch sys.service s started e)),
            )
      ]

  -- The data store got the model of `ch` and gave it the id `id`; the channel is counted, and stands
  -- in the table under that id, marked as interactive.
  pub record Created (ch : Channel) (sys sys' : System D P Q) (reg : Registry) : Type ℓ where
    pub id : ℕ
    pub ds : D
    pub stored : db.create (model ch) sys.ds ≡ some (id, ds)
    pub counts : Counts sys'.service ((b, record ch { id = id }) ∷ reg)
    pub found : get_one id sys'.objs ≡ some (start (record ch { id = id }))

  create_checked-Created :
      (ch : Channel) (sys sys' : System D P Q) (reg : Registry)
      → ch.b2b_client_id ≡ some b
      → Counts sys.service reg
      → create_checked db pm qm ch sys ≡ done sys'
      → Created ch sys sys' reg
  unfolding create_checked
  create_checked-Created ch sys sys' reg own k h =
      elim (Option-cases (db.create (model ch) sys.ds)) [
        | inl lost ↦ absurd (cc (rw lost at h))
        | inr ((id, ds), stored) ↦
            let ch' = record ch { id = id } in
            let (counts, found) =
              attach-Counts ch' (record sys { ds = ds; objs = upsert id ch' sys.objs }) sys' reg own
                k (rw stored at h) in
            record { id = id; ds = ds; stored = stored; counts = counts; found = found }
      ]

  -- When `Create` of a channel of client `b` returns without an error or a panic, and the counters
  -- agreed with a registry before, then the client exists, its view passed both quota checks, the
  -- data store gave the model an id, the counters agree with the registry to which the channel is
  -- added, and the table holds the channel under that id, marked as interactive.
  pub create-Created :
      (ch : Channel) (sys sys' : System D P Q) (reg : Registry)
      → ch.b2b_client_id ≡ some b
      → Counts sys.service reg
      → create db pm qm ch sys ≡ done sys'
      → (c : Client) × ((v : ClientView) × ((get_one b sys.clients ≡ some c)
            × ((build_view pm sys.service c ≡ some v)
                × ((enforce_quota_on_create v ch ≡ none) × Created ch sys sys' reg))))
  unfolding create create_for with_client
  create-Created ch sys sys' reg own k h' =
      let h = sym (ap (λ o. create_for db pm qm o ch sys) own) ∙ h' in
      elim (Option-cases (get_one b sys.clients)) [
        | inl unknown ↦ absurd (cc (rw unknown at h))
        | inr (c, known) ↦ elim (Option-cases (build_view pm sys.service c)) [
          | inl stuck ↦ absurd (cc (rw (known, stuck) at h))
          | inr (v, seen) ↦ elim (Option-cases (enforce_quota_on_create v ch)) [
            | inr (e, refused) ↦ absurd (cc (rw (known, seen, refused) at h))
            | inl accepted ↦ (
              c,
              (
                v,
                (
                  known,
                  (
                    seen,
                    (
                      accepted,
                      create_checked-Created ch sys sys' reg own k
                          (rw (known, seen, accepted) at h),
                    ),
                  ),
                ),
              ),
            )
          ]
        ]
      ]

  -- When `Delete` of a channel of client `b` in an ordered table returns without an error or a
  -- panic, the channel is gone from the table, every other id has what it had, and the counters
  -- agree with the registry without that channel.
  pub erase-Counts :
      (id : ℕ) (ch : Channel) (sys sys' : System D P Q) (front back : Registry)
      → get_one id sys.objs ≡ some ch
      → ch.b2b_client_id ≡ some b
      → IsValid sys.objs
      → Counts sys.service (front ++ ((b, ch) ∷ back))
      → erase db pm qm id sys ≡ done sys'
      → Counts sys'.service (front ++ back)
        × ((j : ℕ) → get_one j sys'.objs ≡ (if id == j then none else get_one j sys.objs))
  unfolding erase detach detach_from
  erase-Counts id ch sys sys' front back found own v k h =
      elim (Option-cases (db.erase id sys.ds)) [
        | inl lost ↦ absurd (cc (rw (found, lost) at h))
        | inr (ds, erased) ↦
            let left = record sys { ds = ds; objs = remove id sys.objs } in
            let h' = sym (ap (λ o. detach_from db pm qm o ch left) own) ∙ rw (found, erased) at h in
            elim (Option-cases (unregister_channel pm b ch sys.service)) [
              | inl stuck ↦ absurd (cc (rw stuck at h'))
              | inr (s, e) ↦
                  let q = rw e at h' in
                  let objs : sys'.objs ≡ remove id sys.objs = cc q in
                  let service : s ≡ sys'.service = cc q in
                  (
                    subst (λ t. Counts t (front ++ back)) service
                        (unregister_channel-Counts pm b ch sys.service s front back k e),
                    λ j. ap (get_one j) objs ∙ get_one-remove id j sys.objs v,
                  )
            ]
      ]
