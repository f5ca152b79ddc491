-- ===== src/ProcessMgr/Scheduler/Laws.antt =====
-- The scheduler (scheduler.go) as a table of due times.
use zmux_server.Base.{
  ℕ, ◌≤◌, ◌≡◌, refl, ap, sym, ◌∙◌, arith, Bool, true, false, Option, none, some, if◌then◌else◌,
  nat_eq, nat_beq_iff, ◌==◌, lookup, lookup-insert, lookup-delete, Bool-cases, Option-cases, inl,
  inr,
}
use zmux_server.ProcessMgr.EventHeap.{before}
use zmux_server.ProcessMgr.Heap.{Event, Heap}
use zmux_server.ProcessMgr.Scheduler.{
  Scheduler, new_scheduler, remove, remove_entry, push, next, pop, pop_entry,
}

-- When the event of an entry is due.
abbrev pub when_of : Option Event → Option ℕ
when_of none = none
when_of (some ev) = some ev.when

-- The heap holds the events of the entries, each entry under its own id.
pub record IsValid {H : Type 0} (hp : Heap H) (s : Scheduler H) : Type 0 where
  pub agree : (j : ℕ) → hp.due j s.h ≡ when_of (lookup j s.entries)
  pub own : (j : ℕ) (ev : Event) → lookup j s.entries ≡ some ev → ev.id ≡ j

-- The time for which an id is scheduled.
abbrev pub due_at : {H : Type 0} → Scheduler H → ℕ → Option ℕ
due_at s j = when_of (lookup j s.entries)

not_before : {a b : ℕ} → before b a ≡ false → a ≤ b
not_before h = ground arith

module _ {H : Type 0} (hp : Heap H) where
  pub new_scheduler-IsValid : IsValid hp (new_scheduler hp)
  unfolding new_scheduler lookup
  new_scheduler-IsValid = record { agree = hp.due-nothing; own = λ j ev h. cc }

  remove-entries :
      (i : ℕ) (s : Scheduler H) (j : ℕ)
      → lookup j (remove hp i s).entries ≡ (if i == j then none else lookup j s.entries)
  unfolding remove
  remove-entries i s j = elim (Option-cases (lookup i s.entries)) [
    | inr (ev, e) ↦
        ap (λ o. lookup j (remove_entry hp o i s).entries) e ∙ lookup-delete i j s.entries
    | inl e ↦ ap (λ o. lookup j (remove_entry hp o i s).entries) e ∙ elim (Bool-cases (i == j)) [
      | inr other ↦ rw other refl
      | inl own ↦ rw own (ap (λ k. lookup k s.entries) (sym ((nat_beq_iff i j).0 own)) ∙ e)
    ]
  ]

  remove-h :
      (i : ℕ) (s : Scheduler H) (j : ℕ)
      → IsValid hp s
      → hp.due j (remove hp i s).h ≡ (if i == j then none else hp.due j s.h)
  unfolding remove
  remove-h i s j v = elim (Option-cases (lookup i s.entries)) [
    | inr (ev, e) ↦
        ap (λ o. hp.due j (remove_entry hp o i s).h) e
        ∙ (hp.due-remove ev.id s.h j
            ∙ ap (λ k. if k == j then none else hp.due j s.h) (v.own i ev e))
    | inl e ↦ ap (λ o. hp.due j (remove_entry hp o i s).h) e ∙ elim (Bool-cases (i == j)) [
      | inr other ↦ rw other refl
      | inl own ↦
          let same : i ≡ j = (nat_beq_iff i j).0 own in
          rw own (v.agree j ∙ ap (λ k. when_of (lookup k s.entries)) (sym same) ∙ ap when_of e)
    ]
  ]

  when_of-if :
      (c : Bool) (a b : Option Event)
      → when_of (if c then a else b) ≡ (if c then when_of a else when_of b)
  when_of-if true a b = refl
  when_of-if false a b = refl

  pub remove-due :
      (i : ℕ) (s : Scheduler H) (j : ℕ)
      → due_at (remove hp i s) j ≡ (if i == j then none else due_at s j)
  remove-due i s j =
      ap when_of (remove-entries i s j) ∙ when_of-if (i == j) none (lookup j s.entries)

  pub remove-IsValid : (i : ℕ) (s : Scheduler H) → IsValid hp s → IsValid hp (remove hp i s)
  remove-IsValid i s v = record {
    agree = λ j.
        remove-h i s j v
        ∙ (ap (λ o. if i == j then none else o) (v.agree j) ∙ sym (remove-due i s j));
    own = λ j ev e. elim (Bool-cases (i == j)) [
      | inl gone ↦ absurd (cc (e, rw gone at (remove-entries i s j)))
      | inr other ↦ v.own j ev (sym (rw other at (remove-entries i s j)) ∙ e)
    ];
  }

  push-entries :
      (id when : ℕ) (s : Scheduler H) (j : ℕ)
      → lookup j (push hp id when s).entries
        ≡ (if id == j then some (record { id = id; when = when }) else lookup j s.entries)
  unfolding push remove
  push-entries id when s j =
      lookup-insert id j (record { id = id; when = when }) (remove hp id s).entries
      ∙ elim (Bool-cases (id == j)) [
        | inl own ↦ rw own refl
        | inr other ↦ rw other (rw other at (remove-entries id s j))
      ]

  pub push-due :
      (id when : ℕ) (s : Scheduler H) (j : ℕ)
      → due_at (push hp id when s) j ≡ (if id == j then some when else due_at s j)
  push-due id when s j =
      ap when_of (push-entries id when s j)
      ∙ when_of-if (id == j) (some (record { id = id; when = when })) (lookup j s.entries)

  pub push-IsValid : (id when : ℕ) (s : Scheduler H) → IsValid hp s → IsValid hp (push hp id when s)
  unfolding push remove
  push-IsValid id when s v =
      let ev : Event = record { id = id; when = when } in
      let self : (id == id) ≡ true = (nat_beq_iff id id).1 refl in
      let free : hp.due id (remove hp id s).h ≡ none = rw self at (remove-h id s id v) in
      record {
        agree = λ j. hp.due-push ev (remove hp id s).h j free ∙ elim (Bool-cases (id == j)) [
          | inl own ↦ rw own (sym (rw own at (push-due id when s j)))
          | inr other ↦ rw other (
              rw other at (remove-h id s j v)
              ∙ (v.agree j ∙ sym (rw other at (push-due id when s j))))
        ];
        own = λ j e found. elim (Bool-cases (id == j)) [
          | inl same ↦
              let q : e ≡ ev = cc (found, rw same at (push-entries id when s j)) in
              ap (λ x. x.id) q ∙ (nat_beq_iff id j).0 same
          | inr other ↦ v.own j e (sym (rw other at (push-entries id when s j)) ∙ found)
        ];
      }

  pub next-least :
      (s : Scheduler H) (ev : Event)
      → IsValid hp s
      → next hp s ≡ some ev
      → (due_at s ev.id ≡ some ev.when) × ((j t : ℕ) → due_at s j ≡ some t → ev.when ≤ t)
  unfolding next
  next-least s ev v h = (
    sym (v.agree ev.id) ∙ hp.due-top ev s.h h,
    λ j t d. not_before (hp.top-least ev s.h j t h (v.agree j ∙ d)),
  )

  pub next-none : (s : Scheduler H) (j : ℕ) → IsValid hp s → next hp s ≡ none → due_at s j ≡ none
  unfolding next
  next-none s j v h = sym (v.agree j) ∙ hp.top-none s.h j h

  pop-entries :
      (s : Scheduler H) (ev : Event) (j : ℕ)
      → next hp s ≡ some ev
      → lookup j (pop hp s).entries ≡ (if ev.id == j then none else lookup j s.entries)
  unfolding next pop
  pop-entries s ev j h =
      ap (λ o. lookup j (pop_entry hp o s).entries) h ∙ lookup-delete ev.id j s.entries

  pub pop-due :
      (s : Scheduler H) (ev : Event) (j : ℕ)
      → next hp s ≡ some ev
      → due_at (pop hp s) j ≡ (if ev.id == j then none else due_at s j)
  pop-due s ev j h =
      ap when_of (pop-entries s ev j h) ∙ when_of-if (ev.id == j) none (lookup j s.entries)

  pub pop-IsValid :
      (s : Scheduler H) (ev : Event) → IsValid hp s → next hp s ≡ some ev → IsValid hp (pop hp s)
  unfolding next pop
  pop-IsValid s ev v h = record {
    agree = λ j.
        ap (λ o. hp.due j (pop_entry hp o s).h) h
        ∙ (hp.due-pop ev s.h j h
            ∙ (ap (λ o. if ev.id == j then none else o) (v.agree j) ∙ sym (pop-due s ev j h)));
    own = λ j e found. elim (Bool-cases (ev.id == j)) [
      | inl gone ↦ absurd (cc (found, rw gone at (pop-entries s ev j h)))
      | inr other ↦ v.own j e (sym (rw other at (pop-entries s ev j h)) ∙ found)
    ];
  }
