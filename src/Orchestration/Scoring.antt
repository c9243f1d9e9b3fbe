-- ===== src/Orchestration/Scoring.antt =====
-- src/orchestration/scoring.rs: the scores of an iteration's candidates and their ranking.
-- `F` is the type of `f64`, `fl` its operations, and `V` the type of JSON values.
pub mod Ranking
use mathlib.Core.Option.{get_or}
use void_control.Base.{
  ℕ, Ordering, Bool, true, false, not, Option, none, some, String, List, [], ◌∷◌, map,
  if◌then◌else◌, leb, length, filter, sort_by,
}
use void_control.Base.Map.{Map, get}
use void_control.Float.{FloatOps}
use void_control.Float
use void_control.Orchestration.Types.{CandidateOutput}

pub data MetricDirection : Type 0 where
  minimize maximize : MetricDirection

pub record WeightedMetric (F : Type 0) : Type 0 where
  pub name : String
  pub weight : F
  pub direction : MetricDirection

pub record ScoringConfig (F : Type 0) : Type 0 where
  pub metrics : List (WeightedMetric F)
  pub pass_threshold : F
  pub tie_break_metric : String

pub record RankedCandidate (F : Type 0) : Type 0 where
  pub candidate_id : String
  pub score : F
  pub pass : Bool
  pub metrics : Map F

-- `fold`
fold : {A : Type 0} → (A → A → A) → A → List A → A
fold f a [] = a
fold f a (x ∷ xs) = fold f (f a x) xs

-- The values of a metric over the candidates that succeeded and have it.
collect_values : {F V : Type 0} → String → List (CandidateOutput F V) → List F
collect_values name [] = []
collect_values name (o ∷ os) =
    let rest = collect_values name os in
    if o.succeeded then elim (get name o.metrics) [ none ↦ rest | some v ↦ v ∷ rest ] else rest

-- `Ordering::then_with`
then_with : Ordering → Ordering → Ordering
then_with Ordering.eq o = o
then_with Ordering.lt o = Ordering.lt
then_with Ordering.gt o = Ordering.gt

is_greater : Ordering → Bool
is_greater Ordering.gt = true
is_greater Ordering.lt = false
is_greater Ordering.eq = false

module _ {F : Type 0} (fl : FloatOps F) where
  -- The value's place between the least and the greatest.
  scale : MetricDirection → F → F → F → F
  scale MetricDirection.minimize lo hi current = fl.div (fl.sub hi current) (fl.sub hi lo)
  scale MetricDirection.maximize lo hi current = fl.div (fl.sub current lo) (fl.sub hi lo)

  normalize : MetricDirection → List F → F → F
  unfolding scale fold
  normalize direction values current =
      let lo = fold fl.min fl.infinity values in
      let hi = fold fl.max fl.neg_infinity values in
      if leb (length values) 1
      then fl.one
      else if Float.lt fl (fl.abs (fl.sub hi lo)) fl.epsilon
      then fl.one
      else scale direction lo hi current

  normalized_value :
      {V : Type 0} → WeightedMetric F → List (CandidateOutput F V) → CandidateOutput F V → F
  unfolding normalize collect_values
  normalized_value metric outputs output = elim (get metric.name output.metrics) [
    | none ↦ fl.zero
    | some current ↦ normalize metric.direction (collect_values metric.name outputs) current
  ]

  weigh :
      {V : Type 0}
      → List (WeightedMetric F)
      → List (CandidateOutput F V)
      → CandidateOutput F V
      → F
      → F
  unfolding normalized_value
  weigh [] outputs output acc = acc
  weigh (m ∷ ms) outputs output acc =
      weigh ms outputs output (fl.add acc (fl.mul m.weight (normalized_value m outputs output)))

  -- One candidate, before the ranking.
  unfoldable pub score_one :
      {V : Type 0}
      → ScoringConfig F
      → List (CandidateOutput F V)
      → CandidateOutput F V
      → RankedCandidate F
  unfolding weigh
  score_one config outputs output =
      let score = weigh config.metrics outputs output fl.sum_start in
      if not output.succeeded
      then record {
        candidate_id = output.candidate_id;
        score = fl.zero;
        pass = false;
        metrics = output.metrics;
      }
      else record {
        candidate_id = output.candidate_id;
        score = score;
        pass = Float.ge fl score config.pass_threshold;
        metrics = output.metrics;
      }

  unfoldable pub compare_ranked : ScoringConfig F → RankedCandidate F → RankedCandidate F → Ordering
  unfolding then_with
  compare_ranked config left right =
      then_with (get_or (fl.partial_cmp right.score left.score) Ordering.eq) (
        get_or
          (fl.partial_cmp (get_or (get config.tie_break_metric left.metrics) fl.infinity)
            (get_or (get config.tie_break_metric right.metrics) fl.infinity))
          Ordering.eq)

  unfoldable pub ranked_after : ScoringConfig F → RankedCandidate F → RankedCandidate F → Bool
  unfolding is_greater
  ranked_after config left right = is_greater (compare_ranked config left right)

  unfoldable pub score_iteration :
      {V : Type 0} → ScoringConfig F → List (CandidateOutput F V) → List (RankedCandidate F)
  score_iteration config outputs =
      sort_by (ranked_after config) (map (score_one config outputs) outputs)
