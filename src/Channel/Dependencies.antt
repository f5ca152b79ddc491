-- ===== src/Channel/Dependencies.antt =====
-- internal/domain/channel/model.go: the rules on fields that require other fields.
use zmux_server.Base.{
  ℕ, zero, suc, ◌≡◌, ◌↔◌, ◌⊎◌, refl, Bool, true, false, ◌||◌, List, [], ◌∷◌, ◌++◌, Option, none,
  some, arith, if◌then◌else◌, is_some, All, All-append, Bool-cases, inl, inr,
}
use zmux_server.Channel.Types.{Channel}

-- The fields that `depRules` and `isSet` name.
pub data Field : Type 0 where
  name input_url input_username input_password enabled : Field

-- `depRules`
unfoldable pub dep_rules : Field → List Field
dep_rules input_url = name ∷ []
dep_rules input_username = input_url ∷ []
dep_rules input_password = input_username ∷ []
dep_rules enabled = input_url ∷ []
dep_rules name = []

unfoldable pub is_set : Channel → Field → Bool
is_set ch name = is_some ch.name
is_set ch input_url = is_some ch.input.url
is_set ch input_username = is_some ch.input.username
is_set ch input_password = is_some ch.input.password
is_set ch enabled = ch.enabled

-- The loop over the dependencies of one field; `next` is the recursive call.
unfoldable pub visit_deps : Channel → (Field → List Field) → List Field → List Field
unfolding is_set
visit_deps ch next [] = []
visit_deps ch next (dep ∷ deps) =
    (if is_set ch dep then [] else dep ∷ []) ++ (next dep ++ visit_deps ch next deps)

-- `visit`: the fields that it adds to `missing`. The rules have no cycle, and no chain of them is
-- longer than three, so four levels are enough.
unfoldable pub visit : ℕ → Channel → Field → List Field
unfolding dep_rules visit_deps
visit zero ch f = []
visit (suc fuel) ch f = visit_deps ch (visit fuel ch) (dep_rules f)

-- The loop over the fields that have a rule. Go takes them in any order; `missing` is a set.
unfoldable pub visit_set : Channel → List Field → List Field
unfolding visit is_set
visit_set ch [] = []
visit_set ch (f ∷ fs) = (if is_set ch f then visit 4 ch f else []) ++ visit_set ch fs

unfoldable pub missing : Channel → List Field
unfolding visit_set
missing ch = visit_set ch (input_url ∷ input_username ∷ input_password ∷ enabled ∷ [])

abbrev pub same : Field → Field → Bool
same name name = true
same input_url input_url = true
same input_username input_username = true
same input_password input_password = true
same enabled enabled = true
same _ _ = false

abbrev pub among : Field → List Field → Bool
among f [] = false
among f (g ∷ gs) = same f g || among f gs

abbrev pub keep_among : List Field → List Field → List Field
keep_among [] m = []
keep_among (f ∷ fs) m = (if among f m then f ∷ [] else []) ++ keep_among fs m

-- The fields in the order of their names.
abbrev pub sorted_fields : List Field
sorted_fields = enabled ∷ input_password ∷ input_url ∷ input_username ∷ name ∷ []

-- `none`, or the missing fields, each once, in the order of `sort.Strings` on their names.
unfoldable pub cross_dependency_check : Channel → Option (List Field)
unfolding missing
cross_dependency_check ch = elim (missing ch) [
  | [] ↦ none
  | f ∷ fs ↦ some (keep_among sorted_fields (f ∷ fs))
]

-- `f` requires `g`, in one step or more.
pub data Requires : Field → Field → Type 0 where
  url_name : Requires input_url name
  username_url : Requires input_username input_url
  password_username : Requires input_password input_username
  enabled_url : Requires enabled input_url
  through : {f g h : Field} → Requires f g → Requires g h → Requires f h

-- The direct requirements of every set field are met.
pub record IsConsistent (ch : Channel) : Type 0 where
  pub url_needs_name : is_some ch.input.url ≡ true → is_some ch.name ≡ true
  pub username_needs_url : is_some ch.input.username ≡ true → is_some ch.input.url ≡ true
  pub password_needs_username : is_some ch.input.password ≡ true → is_some ch.input.username ≡ true
  pub enabled_needs_url : ch.enabled ≡ true → is_some ch.input.url ≡ true

check-IsConsistent : (ch : Channel) → cross_dependency_check ch ≡ none → IsConsistent ch
unfolding cross_dependency_check
check-IsConsistent ch h = ground arith

IsConsistent-check : (ch : Channel) → IsConsistent ch → cross_dependency_check ch ≡ none
unfolding cross_dependency_check
IsConsistent-check ch v = ground arith

Requires-IsConsistent :
    (ch : Channel) {f g : Field}
    → IsConsistent ch
    → Requires f g
    → is_set ch f ≡ true
    → is_set ch g ≡ true
unfolding is_set
Requires-IsConsistent ch v url_name = v.url_needs_name
Requires-IsConsistent ch v username_url = v.username_needs_url
Requires-IsConsistent ch v password_username = v.password_needs_username
Requires-IsConsistent ch v enabled_url = v.enabled_needs_url
Requires-IsConsistent ch v (through r t) =
    λ set. Requires-IsConsistent ch v t (Requires-IsConsistent ch v r set)

-- The dependency check passes a channel exactly when all that a set field requires, in one step
-- or more, is set.
pub check_iff :
    (ch : Channel)
    → (cross_dependency_check ch ≡ none)
      ↔ ((f g : Field) → Requires f g → is_set ch f ≡ true → is_set ch g ≡ true)
check_iff ch = (
  λ h f g r. Requires-IsConsistent ch (check-IsConsistent ch h) r,
  λ all. IsConsistent-check ch (
      unfold is_set in
      record {
        url_needs_name = all input_url name url_name;
        username_needs_url = all input_username input_url username_url;
        password_needs_username = all input_password input_username password_username;
        enabled_needs_url = all enabled input_url enabled_url;
      }),
)

same_eq : (f g : Field) → same f g ≡ true → f ≡ g
same_eq name name h = refl
same_eq input_url input_url h = refl
same_eq input_username input_username h = refl
same_eq input_password input_password h = refl
same_eq enabled enabled h = refl
same_eq _ _ h = cc

All-among : (P : Field → Type 0) (f : Field) (fs : List Field) → All P fs → among f fs ≡ true → P f
All-among P f [] all h = cc
All-among P f (g ∷ gs) all h = elim (Bool-cases (same f g)) [
  | inl e ↦ rw (same_eq f g e) all.0
  | inr ne ↦ All-among P f gs all.1 (rw ne at h)
]

among-keep : (f : Field) (fs m : List Field) → among f (keep_among fs m) ≡ true → among f m ≡ true
among-keep f [] m h = cc
among-keep f (g ∷ gs) m h = ground (arith, among-keep f gs m, same_eq f g)

module _ (ch : Channel) where
  -- `h` is missing, and `g` requires it.
  abbrev MissingFor : Field → Field → Type 0
  MissingFor g h = (is_set ch h ≡ false) × Requires g h

  visit_deps-All :
      (g : Field) (next : Field → List Field) (deps : List Field)
      → All (Requires g) deps
      → ((d : Field) → Requires g d → All (MissingFor g) (next d))
      → All (MissingFor g) (visit_deps ch next deps)
  unfolding visit_deps
  visit_deps-All g next [] r rest = tt
  visit_deps-All g next (d ∷ ds) r rest =
      All-append (MissingFor g) (if is_set ch d then [] else d ∷ []) _
        (elim (Bool-cases (is_set ch d)) [ inl e ↦ rw e tt | inr e ↦ rw e ((e, r.0), tt) ])
        (All-append (MissingFor g) (next d) _ (rest d r.0) (visit_deps-All g next ds r.1 rest))

  dep_rules-All :
      (f g : Field) → ((h : Field) → Requires f h → Requires g h) → All (Requires g) (dep_rules f)
  unfolding dep_rules
  dep_rules-All name g k = tt
  dep_rules-All input_url g k = (k name url_name, tt)
  dep_rules-All input_username g k = (k input_url username_url, tt)
  dep_rules-All input_password g k = (k input_username password_username, tt)
  dep_rules-All enabled g k = (k input_url enabled_url, tt)

  visit-All :
      (n : ℕ) (f g : Field)
      → ((h : Field) → Requires f h → Requires g h)
      → All (MissingFor g) (visit n ch f)
  unfolding visit
  visit-All zero f g k = tt
  visit-All (suc n) f g k =
      visit_deps-All g (visit n ch) (dep_rules f) (dep_rules-All f g k)
        (λ d r. visit-All n d g (λ h t. through r t))

  -- `h` is missing, and some set field requires it.
  abbrev pub IsMissing : Field → Type 0
  IsMissing h = (is_set ch h ≡ false) × ((g : Field) × Requires g h × (is_set ch g ≡ true))

  All-MissingFor :
      (g : Field) (fs : List Field) → is_set ch g ≡ true → All (MissingFor g) fs → All IsMissing fs
  All-MissingFor g [] e all = tt
  All-MissingFor g (f ∷ fs) e all = ((all.0.0, (g, all.0.1, e)), All-MissingFor g fs e all.1)

  visit_set-All : (fs : List Field) → All IsMissing (visit_set ch fs)
  unfolding visit_set
  visit_set-All [] = tt
  visit_set-All (f ∷ fs) =
      All-append IsMissing (if is_set ch f then visit 4 ch f else []) _
        (elim (Bool-cases (is_set ch f)) [
          | inl e ↦ rw e (All-MissingFor f (visit 4 ch f) e (visit-All 4 f f (λ h r. r)))
          | inr e ↦ rw e tt
        ])
        (visit_set-All fs)

missing_cases : (m : List Field) → (m ≡ []) ⊎ ((f : Field) × (fs : List Field) × (m ≡ f ∷ fs))
missing_cases [] = inl refl
missing_cases (f ∷ fs) = inr (f, fs, refl)

-- Every field that the dependency error names is unset, and some set field requires it.
pub check_names-IsMissing :
    (ch : Channel) (fs : List Field) (f : Field)
    → cross_dependency_check ch ≡ some fs
    → among f fs ≡ true
    → IsMissing ch f
unfolding cross_dependency_check missing
check_names-IsMissing ch fs f h m = elim (missing_cases (missing ch)) [
  | inl e ↦ absurd (ground arith)
  | inr (g, gs, e) ↦
      All-among (IsMissing ch) f (missing ch)
        (visit_set-All ch (input_url ∷ input_username ∷ input_password ∷ enabled ∷ []))
        (rw e (among-keep f sorted_fields (g ∷ gs) (ground arith)))
]
