-- ===== src/Orchestration/Scoring/Ranking.antt =====
-- src/orchestration/scoring.rs: the ranking of an iteration's candidates.
use mathlib.Core.List.{Perm}
use mathlib.Core.Option.{get_or}
use void_control.Base.{
  ◌≤◌, ◌<◌, ◌≡◌, refl, ◌∙◌, ◌⊎◌, compare, Bool, true, false, ◌&&◌, List, [], ◌∷◌, map, length,
  filter, All, arith, sort_by-perm, sort_by-IsSortedFor, All-sort_by, length-filter-sort_by,
  IsSortedFor,
}
use void_control.Base.Map.{get}
use void_control.Float.{FloatOps, FloatLaws}
use void_control.Float
use void_control.Orchestration.Types.{CandidateOutput}
use void_control.Orchestration.Scoring.{
  ScoringConfig, RankedCandidate, score_one, weigh, compare_ranked, ranked_after, score_iteration,
  then_with, is_greater,
}

module _ {F V : Type 0} (fl : FloatOps F) (config : ScoringConfig F) where
  -- A candidate passes just when it succeeded and its score reaches the threshold.
  pub passes : List (CandidateOutput F V) → CandidateOutput F V → Bool
  passes outputs o =
      o.succeeded
      && Float.ge fl (weigh fl config.metrics outputs o fl.sum_start) config.pass_threshold

  pass-score_one :
      (outputs : List (CandidateOutput F V)) (o : CandidateOutput F V)
      → (score_one fl config outputs o).pass ≡ passes outputs o
  unfolding score_one passes
  pass-score_one outputs o = ground arith

  count-map :
      (outputs os : List (CandidateOutput F V))
      → length (filter (λ r. r.pass) (map (score_one fl config outputs) os))
        ≡ length (filter (passes outputs) os)
  count-map outputs [] = refl
  count-map outputs (o ∷ os) = ground (arith, pass-score_one outputs o, count-map outputs os)

  -- The ranking has one entry for each output, and as many entries pass as outputs succeeded with
  -- a score that reaches the threshold.
  pub score_iteration-counts :
      (outputs : List (CandidateOutput F V))
      → Perm (score_iteration fl config outputs) (map (score_one fl config outputs) outputs)
        × (length (filter (λ r. r.pass) (score_iteration fl config outputs))
            ≡ length (filter (passes outputs) outputs))
  unfolding score_iteration
  score_iteration-counts outputs = (
    sort_by-perm (ranked_after fl config) (map (score_one fl config outputs) outputs),
    length-filter-sort_by (ranked_after fl config) (λ r. r.pass)
          (map (score_one fl config outputs) outputs)
        ∙ count-map outputs outputs,
  )

module _ {F : Type 0} (fl : FloatOps F) (laws : FloatLaws fl) (config : ScoringConfig F) where
  -- The value of the metric that breaks ties.
  abbrev pub tie_break : RankedCandidate F → F
  tie_break r = get_or (get config.tie_break_metric r.metrics) fl.infinity

  -- Neither the score nor the metric that breaks ties is NaN.
  pub record IsNumbered (r : RankedCandidate F) : Type 0 where
    pub score : laws.is_nan r.score ≡ false
    pub tie : laws.is_nan (tie_break r) ≡ false

  -- `x` has the higher score, or an equal one and a metric that is no higher.
  abbrev pub RanksFirst : RankedCandidate F → RankedCandidate F → Type 0
  RanksFirst x y =
      (laws.place y.score < laws.place x.score)
      ⊎ ((laws.place y.score ≡ laws.place x.score)
          × (laws.place (tie_break x) ≤ laws.place (tie_break y)))

  -- Each entry ranks before those that stand behind it.
  abbrev pub IsRanked : List (RankedCandidate F) → Type 0
  IsRanked [] = Unit {0}
  IsRanked (x ∷ xs) = All (RanksFirst x) xs × IsRanked xs

  ranked_after_numbers :
      (x y : RankedCandidate F)
      → IsNumbered x
      → IsNumbered y
      → ranked_after fl config x y
        ≡ is_greater (
            then_with
              (compare (laws.place y.score) (laws.place x.score))
              (compare (laws.place (tie_break x)) (laws.place (tie_break y))))
  unfolding ranked_after compare_ranked
  ranked_after_numbers x y nx ny =
      rw
        (
          laws.cmp y.score x.score ny.score nx.score,
          laws.cmp (tie_break x) (tie_break y) nx.tie ny.tie,
        )
        refl

  RanksFirst-of_not_after :
      (x y : RankedCandidate F)
      → IsNumbered x
      → IsNumbered y
      → ranked_after fl config x y ≡ false
      → RanksFirst x y
  unfolding is_greater then_with
  RanksFirst-of_not_after x y nx ny h = ground (arith, ranked_after_numbers x y nx ny)

  not_after_asymm :
      (x y : RankedCandidate F)
      → IsNumbered x
      → IsNumbered y
      → ranked_after fl config x y ≡ true
      → ranked_after fl config y x ≡ false
  unfolding is_greater then_with
  not_after_asymm x y nx ny h =
      ground (arith, ranked_after_numbers x y nx ny, ranked_after_numbers y x ny nx)

  not_after_trans :
      (x y z : RankedCandidate F)
      → IsNumbered x
      → IsNumbered y
      → IsNumbered z
      → ranked_after fl config x y ≡ false
      → ranked_after fl config y z ≡ false
      → ranked_after fl config x z ≡ false
  unfolding is_greater then_with
  not_after_trans x y z nx ny nz h k = ground (
    arith,
    ranked_after_numbers x y nx ny,
    ranked_after_numbers y z ny nz,
    ranked_after_numbers x z nx nz,
  )

  All-RanksFirst :
      (x : RankedCandidate F) (ys : List (RankedCandidate F))
      → IsNumbered x
      → All IsNumbered ys
      → All (λ y. ranked_after fl config x y ≡ false) ys
      → All (RanksFirst x) ys
  All-RanksFirst x [] nx n h = tt
  All-RanksFirst x (y ∷ ys) nx n h =
      (RanksFirst-of_not_after x y nx n.0 h.0, All-RanksFirst x ys nx n.1 h.1)

  IsRanked-of_sorted :
      (xs : List (RankedCandidate F))
      → All IsNumbered xs
      → IsSortedFor (ranked_after fl config) xs
      → IsRanked xs
  IsRanked-of_sorted [] n h = tt
  IsRanked-of_sorted (x ∷ xs) n h = (All-RanksFirst x xs n.0 n.1 h.0, IsRanked-of_sorted xs n.1 h.1)

  -- Where no score and no metric that breaks ties is NaN, the candidates are ranked by falling
  -- score, and those of one score by rising tie-break metric.
  pub score_iteration-IsRanked :
      {V : Type 0} (outputs : List (CandidateOutput F V))
      → All IsNumbered (map (score_one fl config outputs) outputs)
      → IsRanked (score_iteration fl config outputs)
  unfolding score_iteration
  score_iteration-IsRanked outputs n =
      let scored = map (score_one fl config outputs) outputs in
      IsRanked-of_sorted (score_iteration fl config outputs)
        (All-sort_by (ranked_after fl config) IsNumbered not_after_asymm not_after_trans scored n)
        (sort_by-IsSortedFor (ranked_after fl config) IsNumbered not_after_asymm not_after_trans
          scored n)
