-- ===== src/Base/Order.antt =====
-- The order of texts (Rust's `Ord` of `String`) is total: what `compare` answers is antisymmetric
-- and transitive, and says `eq` of equal texts only.
use Prim.Native.Nat.{Ordering, compare as compare_ℕ}
use Prim.Native.Char.{code}
use Prim.Native.String.compare
use Prim.Native.String.{String, [], ◌∷◌, compare, then}
use mathlib.Core.Path.{◌≡◌, refl, sym, ◌∙◌, ap}
use mathlib.Core.Logic.{◌≢◌, ◌⊎◌, inl, inr}
use native.Mathlib.Omega.{arith}
use text.Mathlib.TextPositions.{compare_refl}

-- The order that `BTreeMap` keeps its keys in.
abbrev pub compare_text : String → String → Ordering
compare_text = compare

abbrev pub swap : Ordering → Ordering
swap Ordering.lt = Ordering.gt
swap Ordering.eq = Ordering.eq
swap Ordering.gt = Ordering.lt

then-swap : (o r : Ordering) → then (swap o) (swap r) ≡ swap (then o r)
then-swap Ordering.lt r = refl
then-swap Ordering.eq r = refl
then-swap Ordering.gt r = refl

pub compare-swap : (s t : String) → compare_text t s ≡ swap (compare_text s t)
compare-swap [] [] = rw (compare_refl []) refl
compare-swap [] (d ∷ t) = compare.cons-nil d t ∙ ap swap (sym (compare.nil-cons d t))
compare-swap (c ∷ s) [] = compare.nil-cons c s ∙ ap swap (sym (compare.cons-nil c s))
compare-swap (c ∷ s) (d ∷ t) =
    rw (compare.cons-cons d c t s, compare.cons-cons c d s t, numbers)
      (rw (compare-swap s t) (then-swap (compare_ℕ (code c) (code d)) (compare s t)))
  where
    numbers : compare_ℕ (code d) (code c) ≡ swap (compare_ℕ (code c) (code d))
    numbers = ground arith

then-eq-lt :
    (o r : Ordering)
    → then o r ≡ Ordering.lt
    → (o ≡ Ordering.lt) ⊎ ((o ≡ Ordering.eq) × (r ≡ Ordering.lt))
then-eq-lt Ordering.lt r h = inl refl
then-eq-lt Ordering.eq r h = inr (refl, h)
then-eq-lt Ordering.gt r h = cc

pub compare-lt_trans :
    (s t u : String)
    → compare_text s t ≡ Ordering.lt
    → compare_text t u ≡ Ordering.lt
    → compare_text s u ≡ Ordering.lt
compare-lt_trans s [] [] h k = cc
compare-lt_trans [] [] (e ∷ u) h k = k
compare-lt_trans (c ∷ s) [] (e ∷ u) h k = cc (compare.cons-nil c s)
compare-lt_trans s (d ∷ t) [] h k = cc (compare.cons-nil d t)
compare-lt_trans [] (d ∷ t) (e ∷ u) h k = compare.nil-cons e u
compare-lt_trans (c ∷ s) (d ∷ t) (e ∷ u) h k =
    compare.cons-cons c e s u
    ∙ joined
        (then-eq-lt (compare_ℕ (code c) (code d)) (compare s t)
          (sym (compare.cons-cons c d s t) ∙ h))
        (then-eq-lt (compare_ℕ (code d) (code e)) (compare t u)
          (sym (compare.cons-cons d e t u) ∙ k))
        (compare-lt_trans s t u)
  where
    joined :
        (compare_ℕ (code c) (code d) ≡ Ordering.lt)
          ⊎ ((compare_ℕ (code c) (code d) ≡ Ordering.eq) × (compare s t ≡ Ordering.lt))
        → (compare_ℕ (code d) (code e) ≡ Ordering.lt)
          ⊎ ((compare_ℕ (code d) (code e) ≡ Ordering.eq) × (compare t u ≡ Ordering.lt))
        → (compare s t ≡ Ordering.lt → compare t u ≡ Ordering.lt → compare s u ≡ Ordering.lt)
        → then (compare_ℕ (code c) (code e)) (compare s u) ≡ Ordering.lt
    joined a b ih = ground arith

-- A text is not below itself.
pub compare-lt_irrefl : (s : String) → compare_text s s ≢ Ordering.lt
compare-lt_irrefl s h = cc (compare_refl s)
