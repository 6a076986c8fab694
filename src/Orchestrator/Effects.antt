-- ===== src/Orchestrator/Effects.antt =====
-- What the methods of `PMOrchestrator` raise, and what a call reads from outside.
use codex_orchestrator.Base.{ℕ, String, Bool, Option, if◌then◌else◌, ◌≡◌, subst}
use codex_orchestrator.Schemas.{ActorContext, ApprovalActionType, ProjectStatus}

-- An entry of `approved_actions`: a member of the enum, a text, or anything else.
pub data ActionItem : Type 0 where
  member : ApprovalActionType → ActionItem
  raw : String → ActionItem
  other : ActionItem

-- The exceptions, by class: the first five are `ValueError`s.
pub data Error : Type 0 where
  value_error : String → Error
  invalid_transition : ProjectStatus → ProjectStatus → Error
  invalid_state : ProjectStatus → ProjectStatus → Error
  unsupported_action : ActionItem → Error
  unsupported_provider : String → Error
  lookup_error : String → Error
  permission_error : String → Error

pub data Result (A : Type 0) : Type 0 where
  ok : A → Result A
  err : Error → Result A

infixl 5 ◌>>=◌ ◌>>◌
abbrev pub ◌>>=◌ : {A B : Type 0} → Result A → (A → Result B) → Result B
ok a >>= f = f a
err e >>= f = err e

abbrev pub ◌>>◌ : {B : Type 0} → Result (Unit {0}) → Result B → Result B
m >> k = m >>= λ _. k

-- `if condition: raise error`
abbrev pub raise_if : Bool → Error → Result (Unit {0})
raise_if condition e = if condition then err e else ok tt

-- What one call reads from outside: the clock when the record's n-th event is made, the `uuid4()`
-- of a new project and of a new approval, and the variable TREND_PROVIDER_STRICT.
pub record Call : Type 0 where
  pub clock : ℕ → String
  pub project_uuid : String
  pub approval_uuid : String
  pub strict_env : Option String

-- The argument `actor: ActorContext | str | None`.
pub data ActorArgument : Type 0 where
  nobody : ActorArgument
  named : String → ActorArgument
  context : ActorContext → ActorArgument

-- What holds of the value of a result, if it has one.
abbrev pub OnOk : {A : Type 0} → (A → Type 0) → Result A → Type 0
OnOk P (ok a) = P a
OnOk P (err e) = Unit

pub OnOk-bind :
    {A B : Type 0} (P : A → Type 0) (Q : B → Type 0) (m : Result A) (f : A → Result B)
    → OnOk P m
    → ((a : A) → P a → OnOk Q (f a))
    → OnOk Q (m >>= f)
OnOk-bind P Q (ok a) f h k = k a h
OnOk-bind P Q (err e) f h k = tt

pub OnOk-eq : {A : Type 0} (P : A → Type 0) (m : Result A) {a : A} → OnOk P m → m ≡ ok a → P a
OnOk-eq P m h e = subst (OnOk P) e h

pub OnOk-map :
    {A : Type 0} (P Q : A → Type 0) (m : Result A) → OnOk P m → ((a : A) → P a → Q a) → OnOk Q m
OnOk-map P Q (ok a) h k = k a h
OnOk-map P Q (err e) h k = tt
