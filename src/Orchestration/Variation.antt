-- ===== src/Orchestration/Variation.antt =====
-- src/orchestration/variation.rs: what the candidates of an iteration vary.
pub mod Proposals
use void_control.Base.{
  ℕ, zero, suc, ◌+◌, ◌%◌, Bool, true, false, not, Option, none, some, String, List, [], ◌∷◌, map,
  reverse, str_eq, if◌then◌else◌, take, filter, length, get_elem?, is_empty,
}
use void_control.Base.Map.{Map}
use void_control.Orchestration.Types.{ExecutionAccumulator, VariationProposal}

pub data VariationSelection : Type 0 where
  random sequential : VariationSelection

pub record VariationConfig : Type 0 where
  pub source : String
  pub candidates_per_iteration : ℕ
  pub selection : Option VariationSelection
  pub parameter_space : Map (List String)
  pub explicit : List VariationProposal

-- The constructors; each fills in the name of its source.
unfoldable pub new_parameter_space : ℕ → VariationSelection → Map (List String) → VariationConfig
new_parameter_space candidates_per_iteration selection parameter_space = record {
  source = "parameter_space";
  candidates_per_iteration = candidates_per_iteration;
  selection = some selection;
  parameter_space = parameter_space;
  explicit = [];
}

unfoldable pub new_explicit : ℕ → List VariationProposal → VariationConfig
new_explicit candidates_per_iteration explicit = record {
  source = "explicit";
  candidates_per_iteration = candidates_per_iteration;
  selection = none;
  parameter_space = [];
  explicit = explicit;
}

unfoldable pub new_leader_directed : ℕ → VariationConfig
new_leader_directed candidates_per_iteration = record {
  source = "leader_directed";
  candidates_per_iteration = candidates_per_iteration;
  selection = none;
  parameter_space = [];
  explicit = [];
}

unfoldable pub new_signal_reactive : ℕ → VariationConfig
new_signal_reactive candidates_per_iteration = record {
  source = "signal_reactive";
  candidates_per_iteration = candidates_per_iteration;
  selection = none;
  parameter_space = [];
  explicit = [];
}

-- `self.selection.unwrap_or(Sequential)`
ordered : Option VariationSelection → List String → List String
ordered none values = values
ordered (some VariationSelection.sequential) values = values
ordered (some VariationSelection.random) values = reverse values

override_one : String → String → VariationProposal
override_one path value = record { overrides = (path, value) ∷ [] }

-- Only the first parameter, in the order of the keys, is read.
generate_from : Option VariationSelection → ℕ → Map (List String) → List VariationProposal
unfolding ordered override_one
generate_from selection n [] = []
generate_from selection n ((path, values) ∷ m) =
    map (override_one path) (take n (ordered selection values))

unfoldable pub generate_parameter_space : VariationConfig → List VariationProposal
unfolding generate_from
generate_parameter_space c = generate_from c.selection c.candidates_per_iteration c.parameter_space

-- `self.explicit[i].clone()`: the index is below the length wherever this is called.
unfoldable pub at_index : List VariationProposal → ℕ → VariationProposal
at_index [] i = record { overrides = [] }
at_index (p ∷ l) zero = p
at_index (p ∷ l) (suc i) = at_index l i

-- `(0..n).map(|offset| explicit[(start + offset) % len])`, from a first offset on.
cycle_from : List VariationProposal → ℕ → ℕ → ℕ → List VariationProposal
unfolding at_index
cycle_from explicit start offset zero = []
cycle_from explicit start offset (suc n) =
    at_index explicit ((start + offset) % length explicit)
    ∷ cycle_from explicit start (suc offset) n

unfoldable pub generate_explicit : VariationConfig → ExecutionAccumulator → List VariationProposal
unfolding cycle_from
generate_explicit c accumulator =
    if is_empty c.explicit
    then []
    else cycle_from c.explicit (accumulator.scoring_history_len % length c.explicit) 0
        c.candidates_per_iteration

has_overrides : VariationProposal → Bool
has_overrides p = not (is_empty p.overrides)

from_leader : VariationConfig → ExecutionAccumulator → List VariationProposal
unfolding has_overrides
from_leader c accumulator =
    take c.candidates_per_iteration (filter has_overrides accumulator.leader_proposals)

unfoldable pub generate : VariationConfig → ExecutionAccumulator → List VariationProposal
unfolding from_leader generate_parameter_space generate_explicit
generate c accumulator =
    if str_eq c.source "parameter_space"
    then generate_parameter_space c
    else if str_eq c.source "explicit"
    then generate_explicit c accumulator
    else if str_eq c.source "leader_directed"
    then from_leader c accumulator
    else if str_eq c.source "signal_reactive"
    then (if not (is_empty c.explicit)
        then generate_explicit c accumulator
        else if not (is_empty c.parameter_space)
        then generate_parameter_space c
        else from_leader c accumulator)
    else []
