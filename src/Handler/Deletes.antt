-- ===== src/Handler/Deletes.antt =====
-- internal/http/handler/channels.go: the requests that delete channels.
use zmux_server.Base.{ℕ, ◌+◌, ◌≡◌, refl, ap, List, [], ◌∷◌, Option, none, some, length, map, arith}
use zmux_server.B2bService.{ProcessManager}
use zmux_server.ChannelService.Ops.{
  DataStore, System, Outcome, OpError, done, failed, panicked, not_found, erase,
}

-- `itemResult`, without the text of the error
pub record ItemResult : Type 0 where
  pub id : ℕ
  pub status : ℕ

-- What is put together over the ids.
pub record Report : Type 0 where
  pub results : List ItemResult
  pub deleted : List ℕ
  pub failures : List ℕ

abbrev pub error_status : OpError → ℕ
error_status not_found = 404
error_status e = 500

-- A response with the new state; `none` is a panic.
abbrev pub Response {ℓ} : Type ℓ → Type ℓ → Type ℓ
Response A S = Option (A × S)

abbrev pub note_deleted : ℕ → Report → Report
note_deleted id r = record {
  results = record { id = id; status = 200 } ∷ r.results;
  deleted = id ∷ r.deleted;
  failures = r.failures;
}

abbrev pub note_failed : ℕ → ℕ → Report → Report
note_failed id status r = record {
  results = record { id = id; status = status } ∷ r.results;
  deleted = r.deleted;
  failures = id ∷ r.failures;
}

abbrev pub no_report : Report
no_report = record { results = []; deleted = []; failures = [] }

abbrev pub noted {ℓ} : {S : Type ℓ} → (Report → Report) → Option (Report × S) → Option (Report × S)
noted f none = none
noted f (some (r, s)) = some (f r, s)

-- 200, or 207 when some ids failed
abbrev pub report_status : Report → ℕ
report_status r = elim r.failures [ [] ↦ 200 | id ∷ ids ↦ 207 ]

module _ {ℓ} {D P Q : Type ℓ} (db : DataStore D) (pm : ProcessManager P)
    (qm : ProcessManager Q) where
  -- The response to `Delete`, with the state after it; `none` is a panic.
  abbrev pub delete_response : Outcome (System D P Q) → System D P Q → Option (ℕ × System D P Q)
  delete_response (done after) sys = some (200, after)
  delete_response (failed e) sys = some (error_status e, sys)
  delete_response panicked sys = none

  -- `DeleteChannel`
  unfoldable pub delete_channel : ℕ → System D P Q → Option (ℕ × System D P Q)
  delete_channel id sys = delete_response (erase db pm qm id sys) sys

  -- The loop of `DeleteChannels`
  unfoldable pub delete_all : List ℕ → System D P Q → Option (Report × System D P Q)
  delete_all [] sys = some (no_report, sys)
  delete_all (id ∷ ids) sys = elim (erase db pm qm id sys) [
    | done after ↦ noted (note_deleted id) (delete_all ids after)
    | failed e ↦ noted (note_failed id (error_status e)) (delete_all ids sys)
    | panicked ↦ none
  ]

-- A report accounts for each id once, in order.
pub record IsAccount (ids : List ℕ) (r : Report) : Type 0 where
  pub in_order : map (λ i. i.id) r.results ≡ ids
  pub counted : length r.deleted + length r.failures ≡ length ids

note_deleted-IsAccount :
    (id : ℕ) (ids : List ℕ) (r : Report)
    → IsAccount ids r
    → IsAccount (id ∷ ids) (note_deleted id r)
note_deleted-IsAccount id ids r a = record {
  in_order = ap (λ l. id ∷ l) a.in_order;
  counted = omega (arith, a.counted);
}

note_failed-IsAccount :
    (id status : ℕ) (ids : List ℕ) (r : Report)
    → IsAccount ids r
    → IsAccount (id ∷ ids) (note_failed id status r)
note_failed-IsAccount id status ids r a = record {
  in_order = ap (λ l. id ∷ l) a.in_order;
  counted = omega (arith, a.counted);
}

abbrev Accounts {ℓ} : {S : Type ℓ} → List ℕ → Option (Report × S) → Type 0
Accounts ids none = Unit
Accounts ids (some (r, s)) = IsAccount ids r

noted-Accounts {ℓ} :
    {S : Type ℓ} (f : Report → Report) (id : ℕ) (ids : List ℕ) (o : Option (Report × S))
    → ((r : Report) → IsAccount ids r → IsAccount (id ∷ ids) (f r))
    → Accounts ids o
    → Accounts (id ∷ ids) (noted f o)
noted-Accounts f id ids none step a = tt
noted-Accounts f id ids (some (r, s)) step a = step r a

-- The report of `DeleteChannels` has one result for each id, in order, and counts each id once.
pub delete_all-Accounts {ℓ} :
    {D P Q : Type ℓ} (db : DataStore D) (pm : ProcessManager P) (qm : ProcessManager Q)
    (ids : List ℕ) (sys : System D P Q)
    → Accounts ids (delete_all db pm qm ids sys)
unfolding delete_all
delete_all-Accounts db pm qm [] sys = record { in_order = refl; counted = omega arith }
delete_all-Accounts db pm qm (id ∷ ids) sys =
    elim (erase db pm qm id sys)
      as (λ o. Accounts (id ∷ ids) (elim o [
        | done after ↦ noted (note_deleted id) (delete_all db pm qm ids after)
        | failed e ↦ noted (note_failed id (error_status e)) (delete_all db pm qm ids sys)
        | panicked ↦ none
      ])) [
        | done after ↦
            noted-Accounts (note_deleted id) id ids (delete_all db pm qm ids after)
              (note_deleted-IsAccount id ids) (delete_all-Accounts db pm qm ids after)
        | failed e ↦
            noted-Accounts (note_failed id (error_status e)) id ids (delete_all db pm qm ids sys)
              (note_failed-IsAccount id (error_status e) ids) (delete_all-Accounts db pm qm ids sys)
        | panicked ↦ tt
      ]
