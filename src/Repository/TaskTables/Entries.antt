-- ===== src/Repository/TaskTables/Entries.antt =====
-- The dictionaries by task id in app/state/repository.py: which keys they have, and what they hold.
use codex_orchestrator.Base.{
  ℕ, suc, ◌≡◌, refl, ◌∙◌, ap, String, true, ◌||◌, some, List, [], ◌∷◌, ◌++◌, map, contains, All,
  All-append, ◌==◌, arith, Bool-cases, inl, inr, string_eq,
}
use codex_orchestrator.Schemas.{Task}
use codex_orchestrator.Repository.TaskTables.{
  Dependents, Positions, append_dependent, at, set_all, set_entry, set_positions, task_ids,
}

abbrev pub keys : {A : Type 0} → List (String × A) → List String
keys entries = map (λ entry. entry.0) entries

-- What holds of every value.
abbrev pub AllValues : {A : Type 0} → (A → Type 0) → List (String × A) → Type 0
AllValues P entries = All (λ entry. P entry.1) entries

pub at-found :
    {A : Type 0} (P : A → Type 0) (id : String) (entries : List (String × A))
    → AllValues P entries
    → contains id (keys entries) ≡ true
    → (value : A) × (at id entries ≡ some value) × P value
at-found P id [] all h = cc h
at-found P id (entry ∷ entries) all h = elim (Bool-cases (entry.0 == id)) [
  | inl e ↦ (entry.1, rw e refl, all.0)
  | inr e ↦
      let (value, p, holds) = at-found P id entries all.1 (ground arith) in (value, rw e p, holds)
]

pub AllValues-any : {A : Type 0} (entries : List (String × A)) → AllValues (λ value. Unit) entries
AllValues-any [] = tt
AllValues-any (entry ∷ entries) = (tt, AllValues-any entries)

pub contains-set_entry :
    {A : Type 0} (id key : String) (value : A) (entries : List (String × A))
    → contains id (keys (set_entry key value entries)) ≡ (id == key || contains id (keys entries))
contains-set_entry id key value [] = refl
contains-set_entry id key value (entry ∷ entries) =
    ground (arith, contains-set_entry id key value entries)

AllValues-set_entry :
    {A : Type 0} (P : A → Type 0) (key : String) (value : A) (entries : List (String × A))
    → P value
    → AllValues P entries
    → AllValues P (set_entry key value entries)
AllValues-set_entry P key value [] holds all = (holds, tt)
AllValues-set_entry P key value (entry ∷ entries) holds all = elim (Bool-cases (entry.0 == key)) [
  | inl e ↦ rw e (holds, all.1)
  | inr e ↦ rw e (all.0, AllValues-set_entry P key value entries holds all.1)
]

pub contains-set_all :
    {A : Type 0} (id : String) (value : A) (tasks : List Task) (entries : List (String × A))
    → contains id (keys (set_all value tasks entries))
      ≡ (contains id (task_ids tasks) || contains id (keys entries))
contains-set_all id value [] entries = refl
contains-set_all id value (task ∷ tasks) entries =
    contains-set_all id value tasks (set_entry task.id value entries)
    ∙ rw (contains-set_entry id task.id value entries) (ground arith)

pub AllValues-set_all :
    {A : Type 0} (P : A → Type 0) (value : A) (tasks : List Task) (entries : List (String × A))
    → P value
    → AllValues P entries
    → AllValues P (set_all value tasks entries)
AllValues-set_all P value [] entries holds all = all
AllValues-set_all P value (task ∷ tasks) entries holds all =
    AllValues-set_all P value tasks (set_entry task.id value entries) holds
      (AllValues-set_entry P task.id value entries holds all)

pub contains-set_positions :
    (id : String) (index : ℕ) (tasks : List Task) (entries : Positions)
    → contains id (keys (set_positions index tasks entries))
      ≡ (contains id (task_ids tasks) || contains id (keys entries))
contains-set_positions id index [] entries = refl
contains-set_positions id index (task ∷ tasks) entries =
    contains-set_positions id (suc index) tasks (set_entry task.id index entries)
    ∙ rw (contains-set_entry id task.id index entries) (ground arith)

-- The append to an entry that is there keeps the keys, and what holds of all the dependents.
pub append_dependent-returns :
    (P : String → Type 0) (id key : String) (dependents : Dependents)
    → P id
    → AllValues (All P) dependents
    → contains key (keys dependents) ≡ true
    → (after : Dependents) × (append_dependent id key dependents ≡ some after)
      × (keys after ≡ keys dependents)
      × AllValues (All P) after
append_dependent-returns P id key [] holds all h = cc h
append_dependent-returns P id key (entry ∷ entries) holds all h =
    elim (Bool-cases (entry.0 == key)) [
      | inl e ↦ (
        (entry.0, entry.1 ++ id ∷ []) ∷ entries,
        rw e refl,
        refl,
        (All-append P entry.1 (id ∷ []) all.0 (holds, tt), all.1),
      )
      | inr e ↦
          let (after, p, q, later) =
            append_dependent-returns P id key entries holds all.1 (ground arith) in
          (entry ∷ after, rw e (rw p refl), ap (λ ks. entry.0 ∷ ks) q, (all.0, later))
    ]
