-- ===== src/Orchestration/MessageBox/Merging.antt =====
-- src/orchestration/message_box.rs: the intents of two sources, merged.
use void_control.Base.{
  ◌≡◌, refl, ap, ◌⊎◌, inl, inr, Bool, true, false, Bool-cases, String, List, [], ◌∷◌, ◌++◌, any,
  str_eq, str_eq_iff, All, In, arith,
}
use void_control.Orchestration.Json.{Value}
use void_control.Orchestration.Types.{CommunicationIntent}
use void_control.Orchestration.MessageBox.{message_dedup_key, dedup, merge_and_dedup}

module _ {A : Type 0} (key : A → String) where
  abbrev is_seen : List String → A → Bool
  is_seen seen x = any (λ k. str_eq k (key x)) seen

  -- No two have one key.
  abbrev pub HaveDistinctKeys : List A → Type 0
  HaveDistinctKeys [] = Unit {0}
  HaveDistinctKeys (x ∷ xs) = All (λ y. str_eq (key x) (key y) ≡ false) xs × HaveDistinctKeys xs

  unseen-cons :
      (k : String) (seen : List String) (xs : List A)
      → All (λ y. is_seen (k ∷ seen) y ≡ false) xs
      → All (λ y. is_seen seen y ≡ false) xs × All (λ y. str_eq k (key y) ≡ false) xs
  unseen-cons k seen [] h = (tt, tt)
  unseen-cons k seen (x ∷ xs) h =
      let (a, b) = unseen-cons k seen xs h.1 in ((ground arith, a), (ground arith, b))

  dedup-unseen :
      (seen : List String) (xs : List A) → All (λ y. is_seen seen y ≡ false) (dedup key seen xs)
  unfolding dedup
  dedup-unseen seen [] = tt
  dedup-unseen seen (x ∷ xs) = elim (Bool-cases (is_seen seen x)) [
    | inl e ↦ rw e (dedup-unseen seen xs)
    | inr e ↦ rw e (e, (unseen-cons (key x) seen _ (dedup-unseen (key x ∷ seen) xs)).0)
  ]

  dedup-HaveDistinctKeys : (seen : List String) (xs : List A) → HaveDistinctKeys (dedup key seen xs)
  unfolding dedup
  dedup-HaveDistinctKeys seen [] = tt
  dedup-HaveDistinctKeys seen (x ∷ xs) = elim (Bool-cases (is_seen seen x)) [
    | inl e ↦ rw e (dedup-HaveDistinctKeys seen xs)
    | inr e ↦ rw e (
      (unseen-cons (key x) seen _ (dedup-unseen (key x ∷ seen) xs)).1,
      dedup-HaveDistinctKeys (key x ∷ seen) xs,
    )
  ]

  dedup-In : (seen : List String) (xs : List A) (y : A) → In y (dedup key seen xs) → In y xs
  unfolding dedup
  dedup-In seen [] y i = i
  dedup-In seen (x ∷ xs) y i = elim (Bool-cases (is_seen seen x)) [
    | inl e ↦ inr (dedup-In seen xs y (subst_if e i))
    | inr e ↦ elim (subst_else e i) [ inl p ↦ inl p | inr j ↦ inr (dedup-In (key x ∷ seen) xs y j) ]
  ]
    where
      subst_if : is_seen seen x ≡ true → In y (dedup key seen (x ∷ xs)) → In y (dedup key seen xs)
      subst_if e = rw e (λ j. j)

      subst_else :
          is_seen seen x ≡ false
          → In y (dedup key seen (x ∷ xs))
          → In y (x ∷ dedup key (key x ∷ seen) xs)
      subst_else e = rw e (λ j. j)

  dedup-keeps :
      (seen : List String) (xs : List A) (x : A)
      → In x xs
      → (is_seen seen x ≡ true) ⊎ ((y : A) × In y (dedup key seen xs) × (key y ≡ key x))
  unfolding dedup
  dedup-keeps seen [] x i = absurd i.0
  dedup-keeps seen (z ∷ xs) x (inl p) = elim (Bool-cases (is_seen seen z)) [
    | inl e ↦ inl (ground (arith, ap key p))
    | inr e ↦ inr (rw e (z, inl refl, ap key p))
  ]
  dedup-keeps seen (z ∷ xs) x (inr i) = elim (Bool-cases (is_seen seen z)) [
    | inl e ↦ rw e (dedup-keeps seen xs x i)
    | inr e ↦ elim (dedup-keeps (key z ∷ seen) xs x i) [
      | inr (y, j, p) ↦ inr (rw e (y, inr j, p))
      | inl s ↦ elim (Bool-cases (str_eq (key z) (key x))) [
        | inl q ↦ inr (rw e (z, inl refl, (str_eq_iff (key z) (key x)).0 q))
        | inr q ↦ inl (ground arith)
      ]
    ]
  ]

-- Of the intents of both lists, merging keeps no two of one payload, audience and iteration, makes
-- none up, and keeps one with the key of each that was sent.
pub merge_and_dedup_lem :
    {N : Type 0} (number_text : N → String) (quote : String → String)
    (sidecar_intents structured_output_intents : List (CommunicationIntent (Value N)))
    → HaveDistinctKeys
        (message_dedup_key number_text quote)
        (merge_and_dedup number_text quote sidecar_intents structured_output_intents)
      × ((y : CommunicationIntent (Value N))
          → In y (merge_and_dedup number_text quote sidecar_intents structured_output_intents)
          → In y (sidecar_intents ++ structured_output_intents))
      × ((x : CommunicationIntent (Value N))
          → In x (sidecar_intents ++ structured_output_intents)
          → (y : CommunicationIntent (Value N)) × In y
              (merge_and_dedup number_text quote sidecar_intents structured_output_intents)
            × (message_dedup_key number_text quote y ≡ message_dedup_key number_text quote x))
unfolding merge_and_dedup
merge_and_dedup_lem number_text quote sidecar outputs =
    let key = message_dedup_key number_text quote in
    (
      dedup-HaveDistinctKeys key [] (sidecar ++ outputs),
      dedup-In key [] (sidecar ++ outputs),
      λ x i. elim (dedup-keeps key [] (sidecar ++ outputs) x i) [
        | inl e ↦ absurd (ground arith)
        | inr y ↦ y
      ],
    )
