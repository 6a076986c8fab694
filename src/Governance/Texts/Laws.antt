-- ===== src/Governance/Texts/Laws.antt =====
-- What the loop for distinct values keeps.
use codex_orchestrator.Base.{
  String, ◌≡◌, refl, Bool, true, false, ◌&&◌, ◌||◌, not, List, [], ◌∷◌, ◌++◌, contains, any, ◌==◌,
  Bool-cases, inl, inr, arith, string_eq,
}
use codex_orchestrator.Base.Text.{is_blank, strip}
use codex_orchestrator.Base.Text.Strip.{strip-strip}
use codex_orchestrator.Governance.Texts.{add_unique, add_values, unique_preserve_order}

-- No element is empty or has spaces at an end, and none occurs twice.
abbrev pub is_unique : List String → Bool
is_unique [] = true
is_unique (s ∷ rest) =
    not (is_blank s) && (strip s == s && (not (contains s rest) && is_unique rest))

contains-snoc :
    (s t : String) (xs : List String) → contains s (xs ++ t ∷ []) ≡ (contains s xs || s == t)
contains-snoc s t [] = ground arith
contains-snoc s t (x ∷ xs) = ground (arith, contains-snoc s t xs)

==-comm : (s t : String) → (s == t) ≡ (t == s)
==-comm s t = ground arith

is_unique-snoc :
    (t : String) (xs : List String)
    → is_unique xs ≡ true
    → is_blank t ≡ false
    → (strip t == t) ≡ true
    → contains t xs ≡ false
    → is_unique (xs ++ t ∷ []) ≡ true
is_unique-snoc t [] h hb hs hc = rw hb (rw hs refl)
is_unique-snoc t (x ∷ xs) h hb hs hc =
    ground (arith, is_unique-snoc t xs, contains-snoc x t xs, ==-comm t x)

strip-fixed : (s : String) → (strip (strip s) == strip s) ≡ true
strip-fixed s = rw (strip-strip s) (ground arith)

add_unique-is_unique :
    (n : String) (xs : List String)
    → (strip n == n) ≡ true
    → is_unique xs ≡ true
    → is_unique (add_unique n xs) ≡ true
add_unique-is_unique n xs hs h = elim (Bool-cases (is_blank n)) [
  | inl b ↦ rw b h
  | inr b ↦ rw b (elim (Bool-cases (contains n xs)) [
    | inl c ↦ rw c h
    | inr c ↦ rw c (is_unique-snoc n xs h b hs c)
  ])
]

add_values-is_unique :
    (values result : List String)
    → is_unique result ≡ true
    → is_unique (add_values result values) ≡ true
add_values-is_unique [] result h = h
add_values-is_unique (v ∷ values) result h =
    add_values-is_unique values (add_unique (strip v) result)
      (add_unique-is_unique (strip v) result (strip-fixed v) h)

-- `x` is the stripped text of one of the values.
abbrev pub is_stripped_from : String → List String → Bool
is_stripped_from x values = any (λ value. x == strip value) values

blank-differs : (x n : String) → is_blank x ≡ false → is_blank n ≡ true → (x == n) ≡ false
blank-differs x n h b = ground arith

contains-same :
    (x n : String) (xs : List String)
    → contains n xs ≡ true
    → (x == n) ≡ true
    → contains x xs ≡ true
contains-same x n xs c e = ground arith

contains-add_unique :
    (x n : String) (xs : List String)
    → is_blank x ≡ false
    → contains x (add_unique n xs) ≡ (contains x xs || x == n)
contains-add_unique x n xs h = elim (Bool-cases (is_blank n)) [
  | inl b ↦ rw b (ground (arith, blank-differs x n h b))
  | inr b ↦ rw b (elim (Bool-cases (contains n xs)) [
    | inl c ↦ rw c (ground (arith, contains-same x n xs c))
    | inr c ↦ rw c (contains-snoc x n xs)
  ])
]

contains-add_values :
    (x : String) (values result : List String)
    → is_blank x ≡ false
    → contains x (add_values result values) ≡ (contains x result || is_stripped_from x values)
contains-add_values x [] result h = ground arith
contains-add_values x (v ∷ values) result h =
    rw (contains-add_values x values (add_unique (strip v) result) h)
      (rw (contains-add_unique x (strip v) result h) (ground arith))

-- Every distinct value that is kept has at least one character and no space at either end, and none
-- is kept twice.
pub unique_preserve_order-is_unique :
    (values : List String) → is_unique (unique_preserve_order values) ≡ true
unfolding unique_preserve_order
unique_preserve_order-is_unique values = add_values-is_unique values [] refl

-- A text that is not blank is among the distinct values exactly when it is one of the values, stripped.
pub unique_preserve_order-members :
    (x : String) (values : List String)
    → is_blank x ≡ false
    → contains x (unique_preserve_order values) ≡ is_stripped_from x values
unfolding unique_preserve_order
unique_preserve_order-members x values h = contains-add_values x values [] h
