-- ===== src/Float.antt =====
-- `f64`: the type of the floats and its operations are parameters of the model.
-- The laws state what IEEE 754 says of the numbers, that is of every value but NaN.
use void_control.Base.{ℕ, Ordering, compare, ◌≡◌, Bool, true, false, Option, none, some}

pub record FloatOps (F : Type 0) : Type 0 where
  pub zero : F
  pub one : F
  pub infinity : F
  pub neg_infinity : F
  pub epsilon : F
  -- What `sum` starts from.
  pub sum_start : F
  pub add : F → F → F
  pub sub : F → F → F
  pub mul : F → F → F
  pub div : F → F → F
  pub abs : F → F
  pub min : F → F → F
  pub max : F → F → F
  pub partial_cmp : F → F → Option Ordering

-- `>=` and `<`: false where `partial_cmp` has no answer.
abbrev is_ge : Option Ordering → Bool
is_ge none = false
is_ge (some Ordering.lt) = false
is_ge (some Ordering.eq) = true
is_ge (some Ordering.gt) = true

abbrev is_lt : Option Ordering → Bool
is_lt none = false
is_lt (some Ordering.lt) = true
is_lt (some Ordering.eq) = false
is_lt (some Ordering.gt) = false

module _ {F : Type 0} (fl : FloatOps F) where
  abbrev pub ge : F → F → Bool
  ge a b = is_ge (fl.partial_cmp a b)

  abbrev pub lt : F → F → Bool
  lt a b = is_lt (fl.partial_cmp a b)

-- The numbers are finitely many and in a total order, so each has a place in it.
pub record FloatLaws {F : Type 0} (fl : FloatOps F) : Type 0 where
  pub is_nan : F → Bool
  pub place : F → ℕ
  pub cmp :
      (a b : F)
      → is_nan a ≡ false
      → is_nan b ≡ false
      → fl.partial_cmp a b ≡ some (compare (place a) (place b))
  pub infinity_number : is_nan fl.infinity ≡ false
