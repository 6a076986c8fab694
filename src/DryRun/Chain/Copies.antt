-- ===== src/DryRun/Chain/Copies.antt =====
-- What the copying moves of the builders give on a row of required entries with the related ids after
-- it.
use codex_orchestrator.Base.{
  String, ◌≡◌, refl, ◌∙◌, Bool, true, false, ◌&&◌, not, some, List, [], ◌∷◌, ◌++◌, map, all,
  contains, All, arith, string_eq, string_dec,
}
use codex_orchestrator.Governance.ApprovalRecord.{RelatedIds}
use codex_orchestrator.Governance.Effects.{ok, bind-ok}
use codex_orchestrator.DryRun.Artifact.{
  Artifact, Entry, copy_optional, copy_required, find, get, related_entries, related_keys,
}

abbrev pub names : Artifact → List String
names row = map (λ entry. entry.0) row

-- No key occurs twice.
abbrev pub is_distinct : List String → Bool
is_distinct [] = true
is_distinct (key ∷ keys) = not (contains key keys) && is_distinct keys

-- Distinct keys, none of them that of a related id.
abbrev pub is_plain : List String → Bool
is_plain keys = is_distinct keys && all (λ key. not (contains key keys)) related_keys

pub find-row :
    (key : String) (row tail : Artifact)
    → contains key (names row) ≡ true
    → find key (row ++ tail) ≡ find key row
find-row key [] tail h = cc h
find-row key (e ∷ row) tail h = ground (arith, find-row key row tail)

find-tail :
    (key : String) (row tail : Artifact)
    → contains key (names row) ≡ false
    → find key (row ++ tail) ≡ find key tail
find-tail key [] tail h = refl
find-tail key (e ∷ row) tail h = ground (arith, find-tail key row tail)

Found-skip :
    (e : String × Entry) (whole xs : Artifact)
    → contains e.0 (names xs) ≡ false
    → All (λ x. find x.0 whole ≡ some x.1) xs
    → All (λ x. find x.0 (e ∷ whole) ≡ some x.1) xs
Found-skip e whole [] h a = tt
Found-skip e whole (x ∷ xs) h a = (ground arith, Found-skip e whole xs (ground arith) a.1)

Found-row :
    (row tail : Artifact)
    → is_distinct (names row) ≡ true
    → All (λ x. find x.0 (row ++ tail) ≡ some x.1) row
Found-row [] tail h = tt
Found-row (e ∷ row) tail h = (
  ground arith,
  Found-skip e (row ++ tail) row (ground arith) (Found-row row tail (ground arith)),
)

pub get-found :
    {A : Type 0} (key : String) (entries : List (String × A)) {a : A}
    → find key entries ≡ some a
    → get key entries ≡ ok a
get-found key entries e = rw (e, get) refl

copy-Found :
    (row whole : Artifact)
    → All (λ x. find x.0 whole ≡ some x.1) row
    → copy_required (names row) whole ≡ ok row
copy-Found [] whole a = refl
copy-Found (e ∷ row) whole a =
    bind-ok (get e.0 whole) _ (get-found e.0 whole a.0)
    ∙ bind-ok (copy_required (names row) whole) _ (copy-Found row whole a.1)

-- Copying the keys of the row gives the row.
pub copy_required-row :
    (row tail : Artifact)
    → is_plain (names row) ≡ true
    → copy_required (names row) (row ++ tail) ≡ ok row
copy_required-row row tail h = copy-Found row (row ++ tail) (Found-row row tail (ground arith))

copied_ids :
    (ids : RelatedIds) → copy_optional related_keys (related_entries ids) ≡ related_entries ids
unfolding string_dec
copied_ids ids = ground arith

-- Copying the related ids gives those after the row.
pub copy_optional-row :
    (row : Artifact) (ids : RelatedIds)
    → is_plain (names row) ≡ true
    → copy_optional related_keys (row ++ related_entries ids) ≡ related_entries ids
copy_optional-row row ids h =
    rw (find-tail "related_project_id" row (related_entries ids) (ground arith)) (
      rw (find-tail "related_activation_decision_id" row (related_entries ids) (ground arith)) (
        rw (find-tail "related_packet_id" row (related_entries ids) (ground arith)) (
          rw (find-tail "related_queue_item_id" row (related_entries ids) (ground arith))
            (copied_ids ids))))
