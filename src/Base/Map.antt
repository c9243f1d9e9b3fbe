-- ===== src/Base/Map.antt =====
-- `BTreeMap<String, V>`: an association list, in the order of its keys.
-- `HashMap` is read by key only, so the same list serves for it.
use Prim.Native.Nat.{Ordering}
use Prim.Native.String.{String}
use mathlib.Core.Path.{◌≡◌, refl, subst, sym, ap, ◌∙◌}
use mathlib.Core.Logic.{inl, inr}
use mathlib.Core.Option
use mathlib.Core.Option.{Option, none, some}
use mathlib.Core.List.{List, [], ◌∷◌, ◌++◌, map, append-nil, append_assoc}
use native.Mathlib.Omega.{arith}
use text.Mathlib.TextEquality.{path_by_compare}
use text.Mathlib.TextPositions.{compare_refl}
use void_control.Base.Tests.{if◌then◌else◌}
use void_control.Base.Lists.{In, In-append}
use void_control.Base.Order.{compare_text, compare-swap, compare-lt_trans}
use void_control.Base.Text.{str_eq, str_eq_iff}

abbrev pub Map {ℓ} : Type ℓ → Type ℓ
Map V = List (String × V)

module _ {ℓ} {V : Type ℓ} where
  -- `get`
  unfoldable pub get : String → Map V → Option V
  get k [] = none
  get k ((j, v) ∷ m) = if str_eq j k then some v else get k m

  -- `insert`: a key that is there keeps its place, a new one goes where the order puts it.
  unfoldable pub insert : String → V → Map V → Map V
  insert k v [] = (k, v) ∷ []
  insert k v ((j, w) ∷ m) = elim (compare_text j k) [
    | Ordering.lt ↦ (j, w) ∷ insert k v m
    | Ordering.eq ↦ (k, v) ∷ m
    | Ordering.gt ↦ (k, v) ∷ (j, w) ∷ m
  ]

  -- `if let Some(v) = m.get_mut(k) { *v = f(v) }`
  unfoldable pub update : String → (V → V) → Map V → Map V
  update k f [] = []
  update k f ((j, v) ∷ m) = if str_eq j k then (j, f v) ∷ m else (j, v) ∷ update k f m

  -- `values`, in the order of the keys.
  abbrev pub values : Map V → List V
  values = map (λ e. e.1)

  abbrev pub keys : Map V → List String
  keys = map (λ e. e.0)

  abbrev AllAbove : String → Map V → Type 0
  AllAbove k [] = Unit {0}
  AllAbove k ((j, v) ∷ m) = (compare_text k j ≡ Ordering.lt) × AllAbove k m

  -- The keys rise strictly, as in every `BTreeMap`.
  abbrev pub IsOrdered : Map V → Type 0
  IsOrdered [] = Unit {0}
  IsOrdered ((k, v) ∷ m) = AllAbove k m × IsOrdered m

  pub get-insert :
      (k j : String) (v : V) (m : Map V)
      → get j (insert k v m) ≡ (if str_eq k j then some v else get j m)
  unfolding get insert
  get-insert k j v [] = refl
  get-insert k j v ((i, w) ∷ m) = ground (
    arith,
    path_by_compare i k,
    str_eq_iff k j,
    str_eq_iff i j,
    compare_refl i,
    get-insert k j v m,
  )

  pub get-update :
      (k j : String) (f : V → V) (m : Map V)
      → get j (update k f m) ≡ (if str_eq k j then Option.map f (get j m) else get j m)
  unfolding get update
  get-update k j f [] = ground arith
  get-update k j f ((i, w) ∷ m) =
      ground (arith, str_eq_iff k j, str_eq_iff i j, str_eq_iff i k, get-update k j f m)

  AllAbove-trans :
      (j k : String) (m : Map V) → compare_text j k ≡ Ordering.lt → AllAbove k m → AllAbove j m
  AllAbove-trans j k [] h a = tt
  AllAbove-trans j k ((i, v) ∷ m) h a = (compare-lt_trans j k i h a.0, AllAbove-trans j k m h a.1)

  AllAbove-insert :
      (j k : String) (v : V) (m : Map V)
      → compare_text j k ≡ Ordering.lt
      → AllAbove j m
      → AllAbove j (insert k v m)
  unfolding insert
  AllAbove-insert j k v [] h a = (h, tt)
  AllAbove-insert j k v ((i, w) ∷ m) h a = ground (arith, AllAbove-insert j k v m h a.1)

  AllAbove-key :
      (j k : String) (m : Map V) → compare_text j k ≡ Ordering.eq → AllAbove j m → AllAbove k m
  AllAbove-key j k m h a = subst (λ t. AllAbove t m) (path_by_compare j k h) a

  pub insert-IsOrdered : (k : String) (v : V) (m : Map V) → IsOrdered m → IsOrdered (insert k v m)
  unfolding insert
  insert-IsOrdered k v [] o = (tt, tt)
  insert-IsOrdered k v ((j, w) ∷ m) o = ground (
    arith,
    compare-swap j k,
    AllAbove-key j k m,
    AllAbove-insert j k v m,
    AllAbove-trans k j m,
    insert-IsOrdered k v m o.1,
  )

  get-AllAbove : (k : String) (m : Map V) → AllAbove k m → get k m ≡ none
  unfolding get
  get-AllAbove k [] a = refl
  get-AllAbove k ((j, v) ∷ m) a = ground (arith, compare-swap k j, get-AllAbove k m a.1)

  -- What is found stands in the map.
  pub In-of_get : (k : String) (v : V) (m : Map V) → get k m ≡ some v → In (k, v) m
  unfolding get
  In-of_get k v [] h = cc
  In-of_get k v ((j, w) ∷ m) h = ground (arith, str_eq_iff j k, In-of_get k v m)

  AllAbove-In :
      (j k : String) (v : V) (m : Map V)
      → AllAbove j m
      → In (k, v) m
      → compare_text j k ≡ Ordering.lt
  AllAbove-In j k v [] a i = absurd i.0
  AllAbove-In j k v ((l, w) ∷ m) a (inl e) = ground (arith)
  AllAbove-In j k v ((l, w) ∷ m) a (inr i) = AllAbove-In j k v m a.1 i

  -- In a map in order, what stands in it is found.
  pub get-of_In : (k : String) (v : V) (m : Map V) → IsOrdered m → In (k, v) m → get k m ≡ some v
  unfolding get
  get-of_In k v [] o i = absurd i.0
  get-of_In k v ((j, w) ∷ m) o (inl e) = ground (arith, str_eq_iff j k)
  get-of_In k v ((j, w) ∷ m) o (inr i) =
      ground (arith, AllAbove-In j k v m o.0 i, get-of_In k v m o.1 i)

  -- A key below the first one is not in a map in order.
  pub get-below :
      (k j : String) (v : V) (m : Map V)
      → IsOrdered ((j, v) ∷ m)
      → compare_text j k ≡ Ordering.gt
      → get k ((j, v) ∷ m) ≡ none
  get-below k j v m o h =
      let below : compare_text k j ≡ Ordering.lt = ground (arith, compare-swap j k) in
      get-AllAbove k ((j, v) ∷ m) (below, AllAbove-trans k j m below o.0)

  pub update-IsOrdered :
      (k : String) (f : V → V) (m : Map V) → IsOrdered m → IsOrdered (update k f m)
  unfolding update
  update-IsOrdered k f [] o = tt
  update-IsOrdered k f ((j, v) ∷ m) o =
      ground (arith, update-IsOrdered k f m o.1, AllAbove-update j m o.0)
    where
      AllAbove-update : (i : String) (n : Map V) → AllAbove i n → AllAbove i (update k f n)
      AllAbove-update i [] a = tt
      AllAbove-update i ((l, w) ∷ n) a = ground (arith, AllAbove-update i n a.1)

  -- The pairs of a list inserted one after another.
  abbrev pub insert_all : List (String × V) → Map V → Map V
  insert_all [] m = m
  insert_all ((k, v) ∷ l) m = insert_all l (insert k v m)

  insert-last :
      (k : String) (v : V) (l m : Map V)
      → IsOrdered (m ++ (k, v) ∷ l)
      → insert k v m ≡ m ++ (k, v) ∷ []
  unfolding insert
  insert-last k v l [] o = refl
  insert-last k v l ((j, w) ∷ m) o =
      let below : compare_text j k ≡ Ordering.lt =
        AllAbove-In j k v (m ++ (k, v) ∷ l) o.0
          ((In-append (k, v) m ((k, v) ∷ l)).1 (inr (inl refl))) in
      rw (below, insert) (ap (◌∷◌ (j, w)) (insert-last k v l m o.1))

  insert_all-append : (l m : Map V) → IsOrdered (m ++ l) → insert_all l m ≡ m ++ l
  insert_all-append [] m o = rw append-nil refl
  insert_all-append ((k, v) ∷ l) m o =
      let regroup : (m ++ (k, v) ∷ []) ++ l ≡ m ++ (k, v) ∷ l = append_assoc m ((k, v) ∷ []) l in
      rw (insert-last k v l m o)
        (insert_all-append l (m ++ (k, v) ∷ []) (subst IsOrdered (sym regroup) o) ∙ regroup)

  -- A map in order is rebuilt from its pairs.
  pub insert_all-ordered : (m : Map V) → IsOrdered m → insert_all m [] ≡ m
  insert_all-ordered m o = insert_all-append m [] o
