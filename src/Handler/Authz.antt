-- ===== src/Handler/Authz.antt =====
-- internal/http/middleware/authz.go: the checks before a handler runs.
use zmux_server.Base.{
  ℕ, ◌≡◌, ◌⊎◌, ◌↔◌, inl, inr, refl, ap, Bool, true, false, List, [], ◌∷◌, Option, none, some,
  nat_eq, nat_beq_iff, ◌==◌, if◌then◌else◌,
}
use zmux_server.Dto.Fields.{Kind, admin, b2b_client}
use zmux_server.B2bService.{Service, lookup_by_channel_id}

-- `Principal`, with the number that `strconv.ParseInt` reads in its id
pub record Principal : Type 0 where
  pub id : ℕ
  pub kind : Kind

-- `c.Next()`, or `c.AbortWithStatus`
pub data Check : Type 0 where
  next : Check
  abort : ℕ → Check

abbrev pub admits : List Kind → Bool
admits [] = false
admits (b2b_client ∷ kinds) = true
admits (admin ∷ kinds) = admits kinds

-- `Authorization`; `admits` says whether clients are among the kinds.
abbrev pub authorize : List Kind → Kind → Check
authorize kinds admin = next
authorize kinds b2b_client = if admits kinds then next else abort 403

unfoldable pub authorization : List Kind → Option Principal → Check
authorization kinds none = abort 401
authorization kinds (some p) = authorize kinds p.kind

abbrev pub require_kind : Kind → Check
require_kind admin = abort 422
require_kind b2b_client = next

-- `RequireB2BClient`
unfoldable pub require_b2b_client : Option Principal → Check
require_b2b_client none = abort 401
require_b2b_client (some p) = require_kind p.kind

abbrev pub is_owner : Option ℕ → ℕ → Bool
is_owner none client = false
is_owner (some owner) client = owner == client

abbrev pub access : Kind → Bool → Check
access admin own = next
access b2b_client own = if own then next else abort 403

-- `RequireChannelIDAccess`
unfoldable pub require_channel_id_access {ℓ} :
    {P : Type ℓ} → Option Principal → ℕ → Service P → Check
require_channel_id_access none channel s = abort 401
require_channel_id_access (some p) channel s =
    access p.kind (is_owner (lookup_by_channel_id channel s) p.id)

pub is_owner-some : (o : Option ℕ) (client : ℕ) → is_owner o client ≡ true → o ≡ some client
is_owner-some none client h = absurd (cc h)
is_owner-some (some owner) client h = ap some ((nat_beq_iff owner client).0 h)

pub owner-is_owner : (o : Option ℕ) (client : ℕ) → o ≡ some client → is_owner o client ≡ true
owner-is_owner none client h = absurd (cc h)
owner-is_owner (some owner) client h = (nat_beq_iff owner client).1 (cc h)

access_iff : (k : Kind) (own : Bool) → (access k own ≡ next) ↔ ((k ≡ admin) ⊎ (own ≡ true))
access_iff admin own = (λ h. inl refl, λ h. refl)
access_iff b2b_client true = (λ h. inr refl, λ h. refl)
access_iff b2b_client false =
    (λ h. absurd (cc h), λ h. elim h [ inl e ↦ absurd (cc e) | inr e ↦ absurd (cc e) ])

-- The check of a channel id lets a principal pass exactly when it is an admin or the client that
-- the channel is bound to.
pub require_channel_id_access_iff {ℓ} :
    {P : Type ℓ} (p : Principal) (channel : ℕ) (s : Service P)
    → (require_channel_id_access (some p) channel s ≡ next)
      ↔ ((p.kind ≡ admin) ⊎ (lookup_by_channel_id channel s ≡ some p.id))
unfolding require_channel_id_access
require_channel_id_access_iff p channel s =
    let owner = lookup_by_channel_id channel s in
    let whole = access_iff p.kind (is_owner owner p.id) in
    (
      λ h. elim (whole.0 h) [ inl e ↦ inl e | inr e ↦ inr (is_owner-some owner p.id e) ],
      λ h. whole.1 (elim h [ inl e ↦ inl e | inr e ↦ inr (owner-is_owner owner p.id e) ]),
    )
