-- ===== src/Handler/Queries.antt =====
-- internal/http/handler/channels.go: the ids of a query, and the channels that a status list shows.
use zmux_server.Base.{
  ℕ, zero, suc, ◌<◌, ◌≡◌, refl, subst, Bool, true, List, [], ◌∷◌, Option, none, some, Bytes,
  bytes_eq, nat_eq, if◌then◌else◌, All, Map, lookup, insert, is_some, Bool-cases, inl, inr, arith,
}
use zmux_server.Base.Int.{ℤ, pos, negsuc}
use zmux_server.Dto.Fields.{Kind, admin, b2b_client}

-- `n <= 0` is an error.
abbrev pub positive : ℤ → Option ℕ
positive (pos zero) = none
positive (pos (suc n)) = some (suc n)
positive (negsuc n) = none

abbrev pub parsed : Option ℤ → Option ℕ
parsed none = none
parsed (some n) = positive n

abbrev pub consed : Option ℕ → Option (List ℕ) → Option (List ℕ)
consed none rest = none
consed (some n) none = none
consed (some n) (some ns) = some (n ∷ ns)

-- `ChannelStatus`
pub record ChannelStatus : Type 0 where
  pub id : ℕ
  pub online : Bool

-- `strconv.ParseInt` in base 10 is `parse_int`; an error is `none`.
module _ (parse_int : Bytes → Option ℤ) where
  -- The loop of `collectRequestedIDs` over the texts of the ids, and over those seen so far.
  unfoldable pub collect : List Bytes → Map Bytes (Unit {0}) → Option (List ℕ)
  collect [] seen = some []
  collect (id ∷ ids) seen =
      let next = consed (parsed (parse_int id)) (collect ids (insert id tt seen)) in
      let rest = collect ids seen in if is_some (lookup id seen) then rest else next

  -- `collectRequestedIDs`
  unfoldable pub collect_requested_ids : List Bytes → Option (List ℕ)
  collect_requested_ids ids = collect ids []

  consed-Positive :
      (o : Option ℤ) (r : Option (List ℕ)) (out : List ℕ)
      → ((rest : List ℕ) → r ≡ some rest → All (λ n. 0 < n) rest)
      → consed (parsed o) r ≡ some out
      → All (λ n. 0 < n) out
  consed-Positive none r out a h = absurd (cc h)
  consed-Positive (some (pos zero)) r out a h = absurd (cc h)
  consed-Positive (some (negsuc n)) r out a h = absurd (cc h)
  consed-Positive (some (pos (suc n))) none out a h = absurd (cc h)
  consed-Positive (some (pos (suc n))) (some rest) out a h =
      subst (All (λ k. 0 < k)) (let q : suc n ∷ rest ≡ out = cc h in q) (omega arith, a rest refl)

  -- The ids of a query that is accepted are positive.
  pub collect-Positive :
      (ids : List Bytes) (seen : Map Bytes (Unit {0})) (out : List ℕ)
      → collect ids seen ≡ some out
      → All (λ n. 0 < n) out
  unfolding collect
  collect-Positive [] seen out h = subst (All (λ k. 0 < k)) (let q : [] ≡ out = cc h in q) tt
  collect-Positive (id ∷ ids) seen out h = elim (Bool-cases (is_some (lookup id seen))) [
    | inl again ↦ collect-Positive ids seen out (rw again at h)
    | inr first ↦
        consed-Positive (parse_int id) (collect ids (insert id tt seen)) out
          (λ rest e. collect-Positive ids (insert id tt seen) rest e) (rw first at h)
  ]

-- What of the statuses a principal sees; `owned` are the channels of the client.
abbrev pub shows : Kind → Map ℕ (Unit {0}) → ChannelStatus → Bool
shows admin owned s = true
shows b2b_client owned s = is_some (lookup s.id owned)

unfoldable pub status_list : Kind → Map ℕ (Unit {0}) → List ChannelStatus → List ChannelStatus
status_list k owned [] = []
status_list k owned (s ∷ rest) =
    let shown = status_list k owned rest in if shows k owned s then s ∷ shown else shown

-- A client sees the statuses of its own channels only.
pub status_list-All :
    (owned : Map ℕ (Unit {0})) (statuses : List ChannelStatus)
    → All (λ s. is_some (lookup s.id owned) ≡ true) (status_list b2b_client owned statuses)
unfolding status_list
status_list-All owned [] = tt
status_list-All owned (s ∷ rest) = elim (Bool-cases (is_some (lookup s.id owned))) [
  | inl own ↦ rw own (own, status_list-All owned rest)
  | inr other ↦ rw other (status_list-All owned rest)
]
