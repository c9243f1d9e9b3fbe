-- ===== src/Base/Sorting.antt =====
-- `sort_by` and `sort_by_key` of the standard library: a stable sort, here by insertion.
use Prim.Native.Nat.{ℕ, suc, ◌≤◌}
use mathlib.Core.Path.{◌≡◌, refl, ap, ◌∙◌}
use mathlib.Core.Bool.{Bool, true, false}
use mathlib.Core.Logic.{◌↔◌, ◌⊎◌, inl, inr}
use mathlib.Core.List.{List, [], ◌∷◌, Perm}
use mathlib.Core.List.Perm
use native.Mathlib.Omega.{arith}
use void_control.Base.Tests.{ltb, ◌==◌, if◌then◌else◌, Bool-cases}
use void_control.Base.Lists.{filter, length, All, In}

module _ {ℓ} {A : Type ℓ} (after : A → A → Bool) where
  -- `after x y`: the comparison says that `x` is greater than `y`. Equal entries keep their order.
  unfoldable pub insert_by : A → List A → List A
  insert_by x [] = x ∷ []
  insert_by x (y ∷ ys) = if after x y then y ∷ insert_by x ys else x ∷ y ∷ ys

  unfoldable pub sort_by : List A → List A
  unfolding insert_by
  sort_by [] = []
  sort_by (x ∷ xs) = insert_by x (sort_by xs)

  pub insert_by-perm : (x : A) (ys : List A) → Perm (insert_by x ys) (x ∷ ys)
  unfolding insert_by
  insert_by-perm x [] = Perm.refl (x ∷ [])
  insert_by-perm x (y ∷ ys) = ground (
    arith,
    Perm.trans (Perm.cons y (insert_by-perm x ys)) (Perm.swap x y ys),
    Perm.refl (x ∷ y ∷ ys),
  )

  -- Sorting neither loses an entry nor makes one up.
  pub sort_by-perm : (xs : List A) → Perm (sort_by xs) xs
  unfolding sort_by
  sort_by-perm [] = Perm.nil
  sort_by-perm (x ∷ xs) = Perm.trans (insert_by-perm x (sort_by xs)) (Perm.cons x (sort_by-perm xs))

module _ {ℓ} {A : Type ℓ} (after : A → A → Bool) where
  length-insert_by : (x : A) (ys : List A) → length (insert_by after x ys) ≡ suc (length ys)
  unfolding insert_by
  length-insert_by x [] = refl
  length-insert_by x (y ∷ ys) = ground (arith, length-insert_by x ys)

  pub length-sort_by : (xs : List A) → length (sort_by after xs) ≡ length xs
  unfolding sort_by
  length-sort_by [] = refl
  length-sort_by (x ∷ xs) = length-insert_by x (sort_by after xs) ∙ ap suc (length-sort_by xs)

module _ {ℓ} {A : Type ℓ} (after : A → A → Bool) (p : A → Bool) where
  length-filter-insert_by :
      (x : A) (ys : List A) → length (filter p (insert_by after x ys)) ≡ length (filter p (x ∷ ys))
  unfolding insert_by
  length-filter-insert_by x [] = refl
  length-filter-insert_by x (y ∷ ys) = ground (arith, length-filter-insert_by x ys)

  -- Sorting keeps the number of entries that pass a test.
  pub length-filter-sort_by :
      (xs : List A) → length (filter p (sort_by after xs)) ≡ length (filter p xs)
  unfolding sort_by
  length-filter-sort_by [] = refl
  length-filter-sort_by (x ∷ xs) =
      ground (arith, length-filter-insert_by x (sort_by after xs), length-filter-sort_by xs)

module _ {ℓ} {A : Type ℓ} (key : A → ℕ) where
  abbrev pub sort_by_key : List A → List A
  sort_by_key = sort_by (λ x y. ltb (key y) (key x))

  -- The keys rise along the list.
  abbrev pub IsSortedBy : List A → Type 0
  IsSortedBy [] = Unit {0}
  IsSortedBy (x ∷ xs) = All (λ y. key x ≤ key y) xs × IsSortedBy xs

module _ {ℓ} {A : Type ℓ} (key : A → ℕ) where
  All-below : (a b : ℕ) (xs : List A) → a ≤ b → All (λ y. b ≤ key y) xs → All (λ y. a ≤ key y) xs
  All-below a b [] h c = tt
  All-below a b (x ∷ xs) h c = (omega arith, All-below a b xs h c.1)

  All-insert_by :
      (k : ℕ) (x : A) (xs : List A)
      → k ≤ key x
      → All (λ y. k ≤ key y) xs
      → All (λ y. k ≤ key y) (insert_by (λ x y. ltb (key y) (key x)) x xs)
  unfolding insert_by
  All-insert_by k x [] h c = (h, tt)
  All-insert_by k x (y ∷ ys) h c = ground (arith, All-insert_by k x ys h c.1)

  insert_by-IsSortedBy :
      (x : A) (xs : List A)
      → IsSortedBy key xs
      → IsSortedBy key (insert_by (λ x y. ltb (key y) (key x)) x xs)
  unfolding insert_by
  insert_by-IsSortedBy x [] s = (tt, tt)
  insert_by-IsSortedBy x (y ∷ ys) s = ground (
    arith,
    insert_by-IsSortedBy x ys s.1,
    All-insert_by (key y) x ys,
    All-below (key x) (key y) ys,
  )

  -- The result is in the order of the keys.
  pub sort_by_key-IsSortedBy : (xs : List A) → IsSortedBy key (sort_by_key key xs)
  unfolding sort_by
  sort_by_key-IsSortedBy [] = tt
  sort_by_key-IsSortedBy (x ∷ xs) =
      insert_by-IsSortedBy x (sort_by_key key xs) (sort_by_key-IsSortedBy xs)

  filter-insert_by :
      (k : ℕ) (x : A) (xs : List A)
      → filter (λ y. key y == k) (insert_by (λ x y. ltb (key y) (key x)) x xs)
        ≡ filter (λ y. key y == k) (x ∷ xs)
  unfolding insert_by
  filter-insert_by k x [] = refl
  filter-insert_by k x (y ∷ ys) = ground (arith, filter-insert_by k x ys)

  -- Entries of one key keep their order: the sort is stable.
  pub filter-sort_by_key :
      (k : ℕ) (xs : List A)
      → filter (λ y. key y == k) (sort_by_key key xs) ≡ filter (λ y. key y == k) xs
  unfolding sort_by
  filter-sort_by_key k [] = refl
  filter-sort_by_key k (x ∷ xs) =
      ground (arith, filter-insert_by k x (sort_by_key key xs), filter-sort_by_key k xs)

module _ {ℓ} {A : Type ℓ} (after : A → A → Bool) where
  -- No entry comes after an entry that stands behind it.
  abbrev pub IsSortedFor : List A → Type 0
  IsSortedFor [] = Unit {0}
  IsSortedFor (x ∷ xs) = All (λ y. after x y ≡ false) xs × IsSortedFor xs

-- On the entries that are `Good` the comparison is asymmetric, and "not after" is transitive.
module _ {ℓ} {A : Type ℓ} (after : A → A → Bool) (Good : A → Type 0)
    (asymm : (x y : A) → Good x → Good y → after x y ≡ true → after y x ≡ false)
    (trans : (x y z : A)
      → Good x
      → Good y
      → Good z
      → after x y ≡ false
      → after y z ≡ false
      → after x z ≡ false) where
  All-insert_of :
      (P : A → Type 0) (x : A) (ys : List A) → P x → All P ys → All P (insert_by after x ys)
  unfolding insert_by
  All-insert_of P x [] px h = (px, tt)
  All-insert_of P x (y ∷ ys) px h = elim (Bool-cases (after x y)) [
    | inl e ↦ rw e (h.0, All-insert_of P x ys px h.1)
    | inr e ↦ rw e (px, h)
  ]

  All-trans :
      (x y : A) (zs : List A)
      → Good x
      → Good y
      → All Good zs
      → after x y ≡ false
      → All (λ z. after y z ≡ false) zs
      → All (λ z. after x z ≡ false) zs
  All-trans x y [] gx gy g e h = tt
  All-trans x y (z ∷ zs) gx gy g e h =
      (trans x y z gx gy g.0 e h.0, All-trans x y zs gx gy g.1 e h.1)

  insert_by-IsSortedFor :
      (x : A) (ys : List A)
      → Good x
      → All Good ys
      → IsSortedFor after ys
      → IsSortedFor after (insert_by after x ys)
  unfolding insert_by
  insert_by-IsSortedFor x [] gx g s = (tt, tt)
  insert_by-IsSortedFor x (y ∷ ys) gx g s = elim (Bool-cases (after x y)) [
    | inl e ↦ rw e (
      All-insert_of (λ z. after y z ≡ false) x ys (asymm x y gx g.0 e) s.0,
      insert_by-IsSortedFor x ys gx g.1 s.1,
    )
    | inr e ↦ rw e ((e, All-trans x y ys gx g.0 g.1 e s.0), s)
  ]

  pub All-sort_by : (xs : List A) → All Good xs → All Good (sort_by after xs)
  unfolding sort_by
  All-sort_by [] g = tt
  All-sort_by (x ∷ xs) g = All-insert_of Good x (sort_by after xs) g.0 (All-sort_by xs g.1)

  pub sort_by-IsSortedFor : (xs : List A) → All Good xs → IsSortedFor after (sort_by after xs)
  unfolding sort_by
  sort_by-IsSortedFor [] g = tt
  sort_by-IsSortedFor (x ∷ xs) g =
      insert_by-IsSortedFor x (sort_by after xs) g.0 (All-sort_by xs g.1)
        (sort_by-IsSortedFor xs g.1)

module _ {ℓ} {A : Type ℓ} (after : A → A → Bool) where
  In-insert_by : (x y : A) (l : List A) → In y (insert_by after x l) ↔ ((x ≡ y) ⊎ In y l)
  unfolding insert_by
  In-insert_by x y [] = (λ i. i, λ i. i)
  In-insert_by x y (z ∷ l) = elim (Bool-cases (after x z)) [
    | inl e ↦ rw e (ground (arith, In-insert_by x y l))
    | inr e ↦ rw e (λ i. i, λ i. i)
  ]

  -- What stands in the sorted list.
  pub In-sort_by : (y : A) (l : List A) → In y (sort_by after l) ↔ In y l
  unfolding sort_by
  In-sort_by y [] = (λ i. i, λ i. i)
  In-sort_by y (x ∷ l) = ground (arith, In-insert_by x y (sort_by after l), In-sort_by y l)
