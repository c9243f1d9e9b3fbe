-- ===== src/Orchestration/Variation/Proposals.antt =====
-- src/orchestration/variation.rs: how many proposals an iteration has, and where they come from.
use void_control.Base.{
  ℕ, zero, suc, ◌+◌, ◌%◌, ◌≤◌, ◌<◌, ◌≡◌, refl, ap, inl, inr, false, Option, some, String, List, [],
  ◌∷◌, take, filter, length, get_elem?, is_empty, arith, In, length-take, length-map,
}
use native.Mathlib.Nat.{add-zero, mod-add-mod, mod-lt}
use void_control.Base.Map.{Map}
use void_control.Orchestration.Types.{ExecutionAccumulator, VariationProposal}
use void_control.Orchestration.Variation.{
  VariationConfig, VariationSelection, generate, generate_explicit, cycle_from, at_index,
  from_leader, generate_from, ordered, override_one, has_overrides,
}

length-cycle_from :
    (l : List VariationProposal) (start offset n : ℕ) → length (cycle_from l start offset n) ≡ n
unfolding cycle_from
length-cycle_from l start offset zero = refl
length-cycle_from l start offset (suc n) = ap suc (length-cycle_from l start (suc offset) n)

generate_explicit-le :
    (c : VariationConfig) (a : ExecutionAccumulator)
    → length (generate_explicit c a) ≤ c.candidates_per_iteration
unfolding generate_explicit
generate_explicit-le c a = ground (
  arith,
  length-cycle_from c.explicit (a.scoring_history_len % length c.explicit) 0
      c.candidates_per_iteration,
)

generate_from-le :
    (s : Option VariationSelection) (n : ℕ) (m : Map (List String))
    → length (generate_from s n m) ≤ n
unfolding generate_from
generate_from-le s n [] = omega arith
generate_from-le s n ((path, values) ∷ m) = omega (
  arith,
  length-map (override_one path) (take n (ordered s values)),
  length-take n (ordered s values),
)

from_leader-le :
    (c : VariationConfig) (a : ExecutionAccumulator)
    → length (from_leader c a) ≤ c.candidates_per_iteration
unfolding from_leader
from_leader-le c a =
    omega (arith, length-take c.candidates_per_iteration (filter has_overrides a.leader_proposals))

-- No source gives more proposals than the configuration asks for in an iteration.
pub length-generate-le :
    (c : VariationConfig) (a : ExecutionAccumulator)
    → length (generate c a) ≤ c.candidates_per_iteration
unfolding generate
length-generate-le c a = ground (
  arith,
  generate_from-le c.selection c.candidates_per_iteration c.parameter_space,
  generate_explicit-le c a,
  from_leader-le c a,
)

In-at_index : (l : List VariationProposal) (i : ℕ) → i < length l → In (at_index l i) l
unfolding at_index
In-at_index [] i h = absurd (omega arith)
In-at_index (p ∷ l) zero h = inl refl
In-at_index (p ∷ l) (suc i) h = inr (In-at_index l i (omega arith))

get_elem?-cycle_from :
    (l : List VariationProposal) (start offset n i : ℕ)
    → i < n
    → get_elem? (cycle_from l start offset n) i
      ≡ some (at_index l ((start + offset + i) % length l))
unfolding cycle_from
get_elem?-cycle_from l start offset zero i h = absurd (omega arith)
get_elem?-cycle_from l start offset (suc n) zero h = rw (add-zero (start + offset))
get_elem?-cycle_from l start offset (suc n) (suc i) h =
    let same : start + suc offset + i ≡ start + offset + suc i = omega arith in
    rw (← same) (get_elem?-cycle_from l start (suc offset) n i (omega arith))

-- An iteration goes round the explicit proposals: after `h` scored iterations its i-th proposal is
-- number `h + i`, counted round, of the list, and stands in the list.
pub generate_explicit_round :
    (c : VariationConfig) (a : ExecutionAccumulator) (i : ℕ)
    → 0 < length c.explicit
    → i < c.candidates_per_iteration
    → (p : VariationProposal) × (get_elem? (generate_explicit c a) i ≡ some p)
      × (p ≡ at_index c.explicit ((a.scoring_history_len + i) % length c.explicit))
      × In p c.explicit
unfolding generate_explicit
generate_explicit_round c a i nonempty h =
    let len = length c.explicit in
    let history = a.scoring_history_len in
    let same : (history % len + 0 + i) % len ≡ (history + i) % len =
      rw (add-zero (history % len)) (mod-add-mod history len i) in
    let some_there : is_empty c.explicit ≡ false = is_empty_of_pos c.explicit nonempty in
    (
      at_index c.explicit ((history + i) % len),
      rw (some_there, ← same)
          (get_elem?-cycle_from c.explicit (history % len) 0 c.candidates_per_iteration i h),
      refl,
      In-at_index c.explicit ((history + i) % len) (mod-lt (history + i) nonempty),
    )
  where
    is_empty_of_pos : (l : List VariationProposal) → 0 < length l → is_empty l ≡ false
    is_empty_of_pos [] q = absurd (omega arith)
    is_empty_of_pos (p ∷ l) q = refl
