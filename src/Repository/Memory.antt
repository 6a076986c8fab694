-- ===== src/Repository/Memory.antt =====
-- `class InMemoryProjectRepository` of app/state/repository.py: a dict from project ids.
use codex_orchestrator.Base.{
  String, ◌≡◌, refl, arith, Option, none, some, List, [], ◌∷◌, ◌==◌, if◌then◌else◌, string_eq,
  string_dec,
}
use codex_orchestrator.Schemas.{ProjectRecord}
use codex_orchestrator.Repository.{Repository}

abbrev pub Store : Type 0
Store = List (String × ProjectRecord)

unfoldable pub put : String → ProjectRecord → Store → Store
unfolding string_dec
put key r [] = (key, r) ∷ []
put key r ((k, old) ∷ rest) = if k == key then (k, r) ∷ rest else (k, old) ∷ put key r rest

unfoldable pub save : ProjectRecord → Store → Store
unfolding put
save r = put r.project.id r

unfoldable pub get : String → Store → Option ProjectRecord
unfolding string_dec
get key [] = none
get key ((k, r) ∷ rest) = if k == key then some r else get key rest

-- What `get` returns after `save`: the saved record under its own id, the old one elsewhere.
get-put :
    (key k : String) (r : ProjectRecord) (s : Store)
    → get key (put k r s) ≡ (if k == key then some r else get key s)
unfolding put get
get-put key k r [] = refl
get-put key k r ((j, old) ∷ rest) = ground (arith, get-put key k r rest)

-- After a save, `get` returns the saved record under its own id and what it returned before under
-- every other one.
pub get-save :
    (r : ProjectRecord) (key : String) (s : Store)
    → get key (save r s) ≡ (if r.project.id == key then some r else get key s)
unfolding save
get-save r key s = get-put key r.project.id r s

-- `InMemoryProjectRepository` keeps the interface's promise.
abbrev pub memory : Repository
memory = record { Store = Store; save = save; get = get; get-save = get-save }
