-- ===== src/Contract/State/Lifecycle.antt =====
-- src/contract/state.rs: what the permitted moves mean for a run's life.
use void_control.Base.{ℕ, ◌<◌, ◌≡◌, refl, ◌⊎◌, inl, inr, Bool, true, false, arith, subst}
use void_control.Contract.State.{RunState, is_terminal, can_transition_to}

-- A run moves from one state to another by permitted transitions.
pub data Moves (a : RunState) : RunState → Type 0 where
  here : Moves a a
  next : {b c : RunState} → Moves a b → can_transition_to b c ≡ true → Moves a c

-- How far along its life a state is.
rank : RunState → ℕ
rank RunState.pending = 0
rank RunState.starting = 1
rank RunState.running = 2
rank RunState.succeeded = 3
rank RunState.failed = 3
rank RunState.canceled = 3

transition-rank : (a b : RunState) → can_transition_to a b ≡ true → (a ≡ b) ⊎ (rank a < rank b)
unfolding rank can_transition_to
transition-rank a b h = ground arith

Moves-rank : {a b : RunState} → Moves a b → (a ≡ b) ⊎ (rank a < rank b)
Moves-rank here = inl refl
Moves-rank {a} (next {b} {c} m h) = ground (arith, Moves-rank m, transition-rank b c h)

-- No sequence of permitted transitions leads from a state to another one and back.
pub Moves-antisymm : (a b : RunState) → Moves a b → Moves b a → a ≡ b
Moves-antisymm a b m n = ground (arith, Moves-rank m, Moves-rank n)

-- A run that has reached a terminal state stays in it.
pub terminal_absorbs : (a b : RunState) → is_terminal a ≡ true → Moves a b → a ≡ b
unfolding is_terminal can_transition_to
terminal_absorbs a b t here = refl
terminal_absorbs a b t (next {b = c} m h) = ground (arith, terminal_absorbs a c t m)

before_running : RunState → Bool
before_running RunState.pending = true
before_running RunState.starting = true
before_running _ = false

transition_before_running :
    (a b : RunState)
    → before_running a ≡ true
    → can_transition_to a b ≡ true
    → (before_running b ≡ true) ⊎ (b ≡ RunState.running)
unfolding before_running can_transition_to
transition_before_running a b e h = ground arith

Moves-passes :
    {b : RunState}
    → Moves RunState.pending b
    → (before_running b ≡ true) ⊎ Moves RunState.pending RunState.running
unfolding before_running
Moves-passes here = inl refl
Moves-passes (next {b} {c} m h) = elim (Moves-passes m) [
  | inr p ↦ inr p
  | inl e ↦ elim (transition_before_running b c e h) [
    | inl e' ↦ inl e'
    | inr r ↦ inr (subst (Moves RunState.pending) r (next m h))
  ]
]

-- A new run that has reached a terminal state was running on the way.
pub terminal_passes_running :
    (b : RunState)
    → is_terminal b ≡ true
    → Moves RunState.pending b
    → Moves RunState.pending RunState.running
unfolding is_terminal before_running
terminal_passes_running b t m = elim (Moves-passes m) [ inr p ↦ p | inl e ↦ absurd (ground arith) ]
