-- ===== src/Orchestrator/Session.antt =====
-- A method that reads and writes the repository: it returns or raises, and what was saved before a
-- raise stays saved.
use codex_orchestrator.Base.{String, ◌<>◌, Option, none, some}
use codex_orchestrator.Repository.{Repository}
use codex_orchestrator.Schemas.{ProjectRecord}
use codex_orchestrator.Orchestrator.Effects.{Error, Result, ok, err, lookup_error}

abbrev pub Action : Type 0 → Type 0 → Type 0
Action S A = S → Result A × S

module _ {S : Type 0} {A : Type 0} where
  abbrev pub pure : A → Action S A
  pure a s = (ok a, s)

  abbrev pub lift : Result A → Action S A
  lift result s = (result, s)

  abbrev pub raise : Error → Action S A
  raise e s = (err e, s)

  abbrev pub and_then : {B : Type 0} → Result A → (A → Action S B) → Action S B
  and_then (ok a) f s = f a s
  and_then (err e) f s = (err e, s)

  infixl 5 ◌>>=◌
  abbrev pub ◌>>=◌ : {B : Type 0} → Action S A → (A → Action S B) → Action S B
  ◌>>=◌ m f s = let (result, s') = m s in and_then result f s'

infixl 5 ◌>>◌
abbrev pub ◌>>◌ : {S B : Type 0} → Action S (Unit {0}) → Action S B → Action S B
m >> k = m >>= λ _. k

module _ (repo : Repository) where
  open repo use {Store, save, get}

  -- `self.repository.save(record)`
  abbrev pub save_record : ProjectRecord → Action Store Unit
  save_record r s = (ok tt, save r s)

  abbrev found : String → Option ProjectRecord → Result ProjectRecord
  found project_id none = err (lookup_error ("Project not found: " <> project_id))
  found project_id (some r) = ok r

  unfoldable pub get_record_or_raise : String → Action Store ProjectRecord
  get_record_or_raise project_id s = (found project_id (get project_id s), s)
