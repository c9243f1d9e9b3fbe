-- ===== src/Contract/Event/Sequence.antt =====
-- src/contract/event.rs: which sequences of events the tracker lets pass.
use void_control.Base.{
  ℕ, ◌<◌, ◌≡◌, refl, ◌↔◌, Option, none, some, is_some, true, List, [], ◌∷◌, arith, All,
}
use void_control.Contract.Event.{EventEnvelope, default, observe, observe_all}

-- Each number is above the one before it, the first above `n`.
abbrev RisesFrom : Option ℕ → List EventEnvelope → Type 0
RisesFrom last [] = Unit {0}
RisesFrom none (e ∷ es) = RisesFrom (some e.seq) es
RisesFrom (some n) (e ∷ es) = (n < e.seq) × RisesFrom (some e.seq) es

observe_all-RisesFrom :
    (last : Option ℕ) (es : List EventEnvelope)
    → is_some (observe_all (record { last_seq = last }) es) ≡ true
    → RisesFrom last es
unfolding observe_all observe
observe_all-RisesFrom last [] h = tt
observe_all-RisesFrom none (e ∷ es) h = observe_all-RisesFrom (some e.seq) es h
observe_all-RisesFrom (some n) (e ∷ es) h = ground (arith, observe_all-RisesFrom (some e.seq) es)

RisesFrom-observe_all :
    (last : Option ℕ) (es : List EventEnvelope)
    → RisesFrom last es
    → is_some (observe_all (record { last_seq = last }) es) ≡ true
unfolding observe_all observe
RisesFrom-observe_all last [] h = refl
RisesFrom-observe_all none (e ∷ es) h = RisesFrom-observe_all (some e.seq) es h
RisesFrom-observe_all (some n) (e ∷ es) h =
    ground (arith, RisesFrom-observe_all (some e.seq) es h.1)

-- Every event's number is below that of each event after it.
abbrev pub IsStrictlyIncreasing : List EventEnvelope → Type 0
IsStrictlyIncreasing [] = Unit {0}
IsStrictlyIncreasing (e ∷ es) = All (λ x. e.seq < x.seq) es × IsStrictlyIncreasing es

RisesFrom-All : (n : ℕ) (es : List EventEnvelope) → RisesFrom (some n) es → All (λ x. n < x.seq) es
RisesFrom-All n [] h = tt
RisesFrom-All n (e ∷ es) h = (h.0, weaken es (RisesFrom-All e.seq es h.1))
  where
    weaken : (xs : List EventEnvelope) → All (λ x. e.seq < x.seq) xs → All (λ x. n < x.seq) xs
    weaken [] a = tt
    weaken (x ∷ xs) a = (omega arith, weaken xs a.1)

RisesFrom-IsStrictlyIncreasing :
    (last : Option ℕ) (es : List EventEnvelope) → RisesFrom last es → IsStrictlyIncreasing es
RisesFrom-IsStrictlyIncreasing last [] h = tt
RisesFrom-IsStrictlyIncreasing none (e ∷ es) h =
    (RisesFrom-All e.seq es h, RisesFrom-IsStrictlyIncreasing (some e.seq) es h)
RisesFrom-IsStrictlyIncreasing (some n) (e ∷ es) h =
    (RisesFrom-All e.seq es h.1, RisesFrom-IsStrictlyIncreasing (some e.seq) es h.1)

IsStrictlyIncreasing-RisesFrom :
    (n : ℕ) (es : List EventEnvelope)
    → All (λ x. n < x.seq) es
    → IsStrictlyIncreasing es
    → RisesFrom (some n) es
IsStrictlyIncreasing-RisesFrom n [] a h = tt
IsStrictlyIncreasing-RisesFrom n (e ∷ es) a h =
    (a.0, IsStrictlyIncreasing-RisesFrom e.seq es h.0 h.1)

IsStrictlyIncreasing-Rises : (es : List EventEnvelope) → IsStrictlyIncreasing es → RisesFrom none es
IsStrictlyIncreasing-Rises [] h = tt
IsStrictlyIncreasing-Rises (e ∷ es) h = IsStrictlyIncreasing-RisesFrom e.seq es h.0 h.1

-- A new tracker lets a list of events pass exactly when each event's number is below those of all
-- the events after it.
pub observe_all_iff :
    (es : List EventEnvelope) → (is_some (observe_all default es) ≡ true) ↔ IsStrictlyIncreasing es
unfolding default
observe_all_iff es = (
  λ h. RisesFrom-IsStrictlyIncreasing none es (observe_all-RisesFrom none es h),
  λ h. RisesFrom-observe_all none es (IsStrictlyIncreasing-Rises es h),
)
