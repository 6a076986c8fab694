-- ===== src/Governance/Effects.antt =====
-- What the governance services raise, and the values of the dictionaries that they build.
use codex_orchestrator.Base.{
  String, Bool, Option, none, some, List, ◌≡◌, refl, ap, ◌⊎◌, inl, inr, if◌then◌else◌,
}
use codex_orchestrator.Base.Text.{is_blank}

-- The exceptions, by class. A `validation_error` is Pydantic's, for a text under its `min_length`.
pub data Error : Type 0 where
  value_error : String → Error
  key_error : String → Error
  validation_error index_error type_error attribute_error : Error

pub data Result {ℓ} (A : Type ℓ) : Type ℓ where
  ok : A → Result A
  err : Error → Result A

-- A value goes on to what follows; an exception ends the chain.
infixl 5 ◌>>=◌
abbrev pub ◌>>=◌ {ℓ κ} :
    {A : Type ℓ} {B : Type κ} (first : Result A) (next : A → Result B) → Result B
err raised >>= next = err raised
ok value >>= next = next value

infixl 5 ◌>>◌
abbrev pub ◌>>◌ {ℓ} : {B : Type ℓ} → Result (Unit {0}) → Result B → Result B
check >> next = check >>= λ passed. next

pub bind-ok {ℓ κ} :
    {A : Type ℓ} {B : Type κ} (m : Result A) (f : A → Result B) {a : A} → m ≡ ok a → (m >>= f) ≡ f a
bind-ok m f e = ap (λ r. r >>= f) e

pub bind-err {ℓ κ} :
    {A : Type ℓ} {B : Type κ} (m : Result A) (f : A → Result B) {e : Error}
    → m ≡ err e
    → (m >>= f) ≡ err e
bind-err m f e = ap (λ r. r >>= f) e

-- What holds of the value of a result, if it has one.
abbrev pub OnOk {ℓ κ} : {A : Type ℓ} → (A → Type κ) → Result A → Type κ
OnOk P (ok a) = P a
OnOk P (err e) = Unit

pub Result-cases {ℓ} :
    {A : Type ℓ} (m : Result A) → ((a : A) × (m ≡ ok a)) ⊎ ((e : Error) × (m ≡ err e))
Result-cases (ok a) = inl (a, refl)
Result-cases (err e) = inr (e, refl)

-- A chain that returns got a value from its first part.
pub bind-returns {ℓ κ} :
    {A : Type ℓ} {B : Type κ} (first : Result A) (rest : A → Result B) {b : B}
    → (first >>= rest) ≡ ok b
    → (a : A) × (first ≡ ok a) × (rest a ≡ ok b)
bind-returns (ok a) rest e = (a, refl, e)
bind-returns (err x) rest e = cc e

-- `if condition: raise error`
abbrev pub raise_if : Bool → Error → Result (Unit {0})
raise_if condition e = if condition then err e else ok tt

-- The values of the payloads: texts, truth values, lists of texts and further dictionaries.
mutual
  pub data Json : Type 0 where
    text : String → Json
    flag : Bool → Json
    texts : List String → Json
    object : Fields → Json

  pub data Fields : Type 0 where
    end : Fields
    field : String → Json → Fields → Fields

-- `first or second`, for a text that may be missing.
abbrev pub or_text : Option String → String → String
or_text none second = second
or_text (some s) second = if is_blank s then second else s
