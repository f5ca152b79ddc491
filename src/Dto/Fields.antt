-- ===== src/Dto/Fields.antt =====
-- internal/http/dto/w.go and the conversion of single fields; internal/domain/principal/principal.go.
use zmux_server.Base.{ℕ, ◌≡◌, refl, ap, Option, none, some, Bytes}

-- `W`, by its three states. A value is read only when the field is set and not null.
pub data W (A : Type 0) : Type 0 where
  omitted null : W A
  value : A → W A

-- `PrincipalKind`
pub data Kind : Type 0 where
  admin b2b_client : Kind

-- The errors, with the field in the words of the message.
pub data Error : Type 0 where
  unauthorized cannot_be_null is_required : Bytes → Error
  at_index : ℕ → Error → Error
  at_ref : Bytes → Error → Error
  no_such_ref neither_array_nor_object out_of_range : Error

pub data Result (A : Type 0) : Type 0 where
  accepted : A → Result A
  refused : Error → Result A

infixl 5 ◌>>=◌
abbrev pub ◌>>=◌ : {A B : Type 0} → Result A → (A → Result B) → Result B
accepted a >>= f = f a
refused e >>= f = refused e

-- The error of an element or a member, with where it was met.
abbrev pub within : {A : Type 0} → (Error → Error) → Result A → Result A
within f (accepted a) = accepted a
within f (refused e) = refused (f e)

-- The `V` of a wrapper, given the zero value of its type.
abbrev pub value_or : {A : Type 0} → A → W A → A
value_or zero_value omitted = zero_value
value_or zero_value null = zero_value
value_or zero_value (value a) = a

-- A nullable field over the value `old`, which stays when it is omitted.
abbrev pub nullable : {A : Type 0} → W A → Option A → Option A
nullable omitted old = old
nullable null old = none
nullable (value a) old = some a

-- A field that may not be null.
abbrev pub not_null : {A : Type 0} → Bytes → W A → A → Result A
not_null name omitted old = accepted old
not_null name null old = refused (cannot_be_null name)
not_null name (value a) old = accepted a

-- A field that only an admin may set.
abbrev pub admin_only : {A B : Type 0} → Kind → Bytes → W A → Result B → Result B
admin_only admin name w r = r
admin_only b2b_client name omitted r = r
admin_only b2b_client name null r = refused (unauthorized name)
admin_only b2b_client name (value a) r = refused (unauthorized name)

-- A field that has to be set; null is allowed.
abbrev pub required_nullable : {A : Type 0} → Bytes → W A → Result (Option A)
required_nullable name omitted = refused (is_required name)
required_nullable name null = accepted none
required_nullable name (value a) = accepted (some a)

-- A field that has to be set and may not be null.
abbrev pub required : {A : Type 0} → Bytes → W A → Result A
required name omitted = refused (is_required name)
required name null = refused (cannot_be_null name)
required name (value a) = accepted a

-- The wrapper of a nullable field that is present.
abbrev pub present : {A : Type 0} → Option A → W A
present none = null
present (some a) = value a

-- When a chain of conversions is accepted, its first step is.
pub bind-accepted :
    {A B : Type 0} (r : Result A) (f : A → Result B) (b : B)
    → (r >>= f) ≡ accepted b
    → (a : A) × (r ≡ accepted a) × (f a ≡ accepted b)
bind-accepted (accepted a) f b h = (a, refl, h)
bind-accepted (refused e) f b h = absurd (cc h)

-- A field that is for admins alone stays as it was when a client's body is accepted.
pub client_nullable :
    {A B : Type 0} (name : Bytes) (w : W A) (old : Option A) (f : Option A → Result B) (b : B)
    → (admin_only b2b_client name w (accepted (nullable w old)) >>= f) ≡ accepted b
    → f old ≡ accepted b
client_nullable name omitted old f b h = h
client_nullable name null old f b h = absurd (cc h)
client_nullable name (value a) old f b h = absurd (cc h)

pub client_not_null :
    {A B : Type 0} (name : Bytes) (w : W A) (old : A) (f : A → Result B) (b : B)
    → (admin_only b2b_client name w (not_null name w old) >>= f) ≡ accepted b
    → f old ≡ accepted b
client_not_null name omitted old f b h = h
client_not_null name null old f b h = absurd (cc h)
client_not_null name (value a) old f b h = absurd (cc h)

-- A field that is present reads back as it was written.
pub nullable-present : {A : Type 0} (o old : Option A) → nullable (present o) old ≡ o
nullable-present none old = refl
nullable-present (some a) old = refl

pub required_nullable-present :
    {A : Type 0} (name : Bytes) (o : Option A) → required_nullable name (present o) ≡ accepted o
required_nullable-present name none = refl
required_nullable-present name (some a) = refl

-- A required field that is accepted was present.
pub required_nullable-accepted :
    {A : Type 0} (name : Bytes) (w : W A) (o : Option A)
    → required_nullable name w ≡ accepted o
    → w ≡ present o
required_nullable-accepted name omitted o h = absurd (cc h)
required_nullable-accepted name null o h = ap present (let e : none ≡ o = cc h in e)
required_nullable-accepted name (value a) o h = ap present (let e : some a ≡ o = cc h in e)

pub required-accepted :
    {A : Type 0} (name : Bytes) (w : W A) (a : A) → required name w ≡ accepted a → w ≡ value a
required-accepted name omitted a h = absurd (cc h)
required-accepted name null a h = absurd (cc h)
required-accepted name (value b) a h = ap value (let e : b ≡ a = cc h in e)

pub within-accepted :
    {A : Type 0} (f : Error → Error) (r : Result A) (a : A)
    → within f r ≡ accepted a
    → r ≡ accepted a
within-accepted f (accepted b) a h = h
within-accepted f (refused e) a h = absurd (cc h)

pub accepted-injective : {A : Type 0} (a b : A) → accepted a ≡ accepted b → a ≡ b
accepted-injective a b h = cc h
