-- ===== src/Base/Text/Strip.antt =====
-- `str.strip` takes away nothing more from a stripped text.
use Prim.Native.Char.{Char}
use codex_orchestrator.Base.{
  String, ◌≡◌, refl, ◌∙◌, ap, Bool, true, false, not, Bool-cases, inl, inr,
}
use codex_orchestrator.Base.Text.{is_space, lstrip, rstrip, snoc_space, strip}

-- The text is empty or begins with a character that is not a space.
abbrev starts_clean : String → Bool
unfolding is_space
starts_clean String.[] = true
starts_clean (String.◌∷◌ c s) = not (is_space c)

starts_clean-lstrip : (s : String) → starts_clean (lstrip s) ≡ true
unfolding starts_clean lstrip
starts_clean-lstrip String.[] = refl
starts_clean-lstrip (String.◌∷◌ c s) = elim (Bool-cases (is_space c)) [
  | inl e ↦ rw e (starts_clean-lstrip s)
  | inr e ↦ rw e (ap not e)
]

lstrip-clean : (s : String) → starts_clean s ≡ true → lstrip s ≡ s
unfolding starts_clean lstrip
lstrip-clean String.[] h = refl
lstrip-clean (String.◌∷◌ c s) h = elim (Bool-cases (is_space c)) [
  | inl e ↦ cc (h, e)
  | inr e ↦ rw e refl
]

rstrip-snoc_space :
    (c : Char) (s : String) → rstrip s ≡ s → rstrip (snoc_space c s) ≡ snoc_space c s
unfolding rstrip
rstrip-snoc_space c String.[] h = elim (Bool-cases (is_space c)) [
  | inl e ↦ rw e refl
  | inr e ↦ rw e (rw e refl)
]
rstrip-snoc_space c (String.◌∷◌ d s) h = ap (snoc_space c) h

rstrip-rstrip : (s : String) → rstrip (rstrip s) ≡ rstrip s
unfolding rstrip
rstrip-rstrip String.[] = refl
rstrip-rstrip (String.◌∷◌ c s) = rstrip-snoc_space c (rstrip s) (rstrip-rstrip s)

starts_clean-snoc_space :
    (c : Char) (s : String) → is_space c ≡ false → starts_clean (snoc_space c s) ≡ true
unfolding starts_clean
starts_clean-snoc_space c String.[] e = rw e (ap not e)
starts_clean-snoc_space c (String.◌∷◌ d s) e = ap not e

starts_clean-rstrip : (s : String) → starts_clean s ≡ true → starts_clean (rstrip s) ≡ true
unfolding starts_clean rstrip
starts_clean-rstrip String.[] h = refl
starts_clean-rstrip (String.◌∷◌ c s) h = elim (Bool-cases (is_space c)) [
  | inl e ↦ cc (h, e)
  | inr e ↦ starts_clean-snoc_space c (rstrip s) e
]

pub strip-strip : (s : String) → strip (strip s) ≡ strip s
unfolding strip
strip-strip s =
    ap rstrip
      (lstrip-clean (rstrip (lstrip s)) (starts_clean-rstrip (lstrip s) (starts_clean-lstrip s)))
    ∙ rstrip-rstrip (lstrip s)
