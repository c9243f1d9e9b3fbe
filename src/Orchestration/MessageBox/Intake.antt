-- ===== src/Orchestration/MessageBox/Intake.antt =====
-- src/orchestration/message_box.rs: what is kept of the intents that candidates send.
use void_control.Base.{
  ℕ, suc, ◌+◌, ◌≤◌, ◌<◌, ◌≡◌, refl, sym, subst, ap, ◌∙◌, Bool, true, not, ◌&&◌, ◌||◌, String, List,
  [], ◌∷◌, ◌++◌, map, filter, if◌then◌else◌, ◌==◌, length, length-append, All-append, append_assoc,
  append-nil, is_blank, All, arith,
}
use void_control.Orchestration.Json.{Value}
use void_control.Orchestration.Types.{CommunicationIntent}
use void_control.Orchestration.MessageBox.{
  payload_has_summary_text, is_broadcast, stamp, Normalizing, reject, push_valid, count_broadcast,
  normalize_one, normalize_all, normalize_intents,
}

module _ {N : Type 0} (candidate_id : String) (iteration : ℕ) where
  -- What the source demands of an intent by itself.
  abbrev pub is_sound : CommunicationIntent (Value N) → Bool
  is_sound i =
      not (is_blank i.intent_id || i.ttl_iterations == 0) && payload_has_summary_text i.payload

  -- An intent that is kept: sound, and marked as this candidate's, of this iteration.
  abbrev pub IsKept : CommunicationIntent (Value N) → Type 0
  IsKept i = (is_sound i ≡ true) × (i.from_candidate_id ≡ candidate_id) × (i.iteration ≡ iteration)

  abbrev pub broadcasts :
      List (CommunicationIntent (Value N)) → List (CommunicationIntent (Value N))
  broadcasts is = filter (λ i. is_broadcast i.audience) is

  -- What the loop keeps true, after `n` intents.
  record IsIntake (n : ℕ) (s : Normalizing N) : Type 0 where
    few : length s.valid ≤ 3
    counted : length s.valid + s.rejected ≡ n
    one_broadcast : length (broadcasts s.valid) ≤ 1
    broadcasts_counted : length (broadcasts s.valid) ≤ s.broadcast_count
    kept : All IsKept s.valid

  length-broadcasts-push :
      (is : List (CommunicationIntent (Value N))) (i : CommunicationIntent (Value N))
      → length (broadcasts (is ++ i ∷ []))
        ≡ length (broadcasts is) + (if is_broadcast i.audience then 1 else 0)
  length-broadcasts-push [] i = ground arith
  length-broadcasts-push (j ∷ is) i = ground (arith, length-broadcasts-push is i)

  reject-IsIntake : (n : ℕ) (s : Normalizing N) → IsIntake n s → IsIntake (suc n) (reject s)
  unfolding reject
  reject-IsIntake n s h = record {
    few = h.few;
    counted = omega (arith, h.counted);
    one_broadcast = h.one_broadcast;
    broadcasts_counted = h.broadcasts_counted;
    kept = h.kept;
  }

  count_broadcast-IsIntake :
      (n : ℕ) (s : Normalizing N) → IsIntake n s → IsIntake n (count_broadcast s)
  unfolding count_broadcast
  count_broadcast-IsIntake n s h = record {
    few = h.few;
    counted = h.counted;
    one_broadcast = h.one_broadcast;
    broadcasts_counted = omega (arith, h.broadcasts_counted);
    kept = h.kept;
  }

  -- A broadcast is pushed once the count has gone up from nothing.
  push_valid-IsIntake :
      (n : ℕ) (i : CommunicationIntent (Value N)) (s : Normalizing N)
      → length s.valid < 3
      → is_sound i ≡ true
      → (is_broadcast i.audience ≡ true → length (broadcasts s.valid) ≡ 0)
      → (is_broadcast i.audience ≡ true → 0 < s.broadcast_count)
      → IsIntake n s
      → IsIntake (suc n) (push_valid (stamp candidate_id iteration i) s)
  unfolding push_valid stamp
  push_valid-IsIntake n i s few sound none_yet counted h =
      let longer = length-append s.valid (stamp candidate_id iteration i ∷ []) in
      let more = length-broadcasts-push s.valid (stamp candidate_id iteration i) in
      record {
        few = omega arith;
        counted = omega (arith, h.counted);
        one_broadcast = ground (arith, h.one_broadcast);
        broadcasts_counted = ground (arith, h.broadcasts_counted);
        kept =
            All-append IsKept s.valid (stamp candidate_id iteration i ∷ []) h.kept
              ((sound, refl, refl), tt);
      }

  normalize_one-IsIntake :
      (n : ℕ) (i : CommunicationIntent (Value N)) (s : Normalizing N)
      → IsIntake n s
      → IsIntake (suc n) (normalize_one candidate_id iteration i s)
  unfolding normalize_one
  normalize_one-IsIntake n i s h = ground (
    arith,
    reject-IsIntake n s h,
    reject-IsIntake n (count_broadcast s) (count_broadcast-IsIntake n s h),
    push_valid-IsIntake n i s,
    push_valid-IsIntake n i (count_broadcast s),
    count_broadcast-IsIntake n s h,
    h.broadcasts_counted,
  )

  normalize_all-IsIntake :
      (n : ℕ) (is : List (CommunicationIntent (Value N))) (s : Normalizing N)
      → IsIntake n s
      → IsIntake (length is + n) (normalize_all candidate_id iteration is s)
  unfolding normalize_all
  normalize_all-IsIntake n [] s h =
      let same : n ≡ 0 + n = omega arith in subst (λ m. IsIntake m s) same h
  normalize_all-IsIntake n (i ∷ is) s h =
      let same : length is + suc n ≡ suc (length is) + n = omega arith in
      subst (λ m. IsIntake m (normalize_all candidate_id iteration (i ∷ is) s)) same
        (normalize_all-IsIntake (suc n) is (normalize_one candidate_id iteration i s)
          (normalize_one-IsIntake n i s h))

  -- Of any intents, at most three are kept and at most one of them is a broadcast; each one kept is
  -- sound and marked as this candidate's and this iteration's; and each intent is kept or counted as
  -- rejected.
  pub normalize_intents_lem :
      (is : List (CommunicationIntent (Value N)))
      → (length (normalize_intents candidate_id iteration is).0 ≤ 3)
        × (length (broadcasts (normalize_intents candidate_id iteration is).0) ≤ 1)
        × All IsKept (normalize_intents candidate_id iteration is).0
        × (length (normalize_intents candidate_id iteration is).0
              + (normalize_intents candidate_id iteration is).1
            ≡ length is)
  unfolding normalize_intents
  normalize_intents_lem is =
      let h =
        normalize_all-IsIntake 0 is (record { valid = []; rejected = 0; broadcast_count = 0 })
          (record {
            few = omega arith;
            counted = refl;
            one_broadcast = omega arith;
            broadcasts_counted = omega arith;
            kept = tt;
          }) in
      (h.few, h.one_broadcast, h.kept, omega (arith, h.counted))

  -- Where the intents are sound and the limits are not met, one more is pushed.
  normalize_one-pushes :
      (i : CommunicationIntent (Value N)) (s : Normalizing N)
      → length s.valid < 3
      → is_sound i ≡ true
      → (is_broadcast i.audience ≡ true → s.broadcast_count ≡ 0)
      → ((normalize_one candidate_id iteration i s).valid
          ≡ s.valid ++ stamp candidate_id iteration i ∷ [])
        × ((normalize_one candidate_id iteration i s).rejected ≡ s.rejected)
        × ((normalize_one candidate_id iteration i s).broadcast_count
            ≡ s.broadcast_count + (if is_broadcast i.audience then 1 else 0))
  unfolding normalize_one reject push_valid count_broadcast
  normalize_one-pushes i s few sound none_yet = ground arith

  normalize_all-keeps :
      (is : List (CommunicationIntent (Value N))) (s : Normalizing N)
      → length s.valid + length is ≤ 3
      → s.broadcast_count + length (broadcasts is) ≤ 1
      → All (λ i. is_sound i ≡ true) is
      → ((normalize_all candidate_id iteration is s).valid
          ≡ s.valid ++ map (stamp candidate_id iteration) is)
        × ((normalize_all candidate_id iteration is s).rejected ≡ s.rejected)
  unfolding normalize_all
  normalize_all-keeps [] s few one sound = (sym (append-nil s.valid), refl)
  normalize_all-keeps (i ∷ is) s few one sound =
      let (v, r, b) = normalize_one-pushes i s (omega arith) sound.0 (λ e. ground arith) in
      let longer = length-append s.valid (stamp candidate_id iteration i ∷ []) in
      let (v', r') =
        normalize_all-keeps is (normalize_one candidate_id iteration i s)
          (omega (arith, ap length v)) (ground arith) sound.1 in
      (
        v'
            ∙ ap (λ l. l ++ map (stamp candidate_id iteration) is) v
            ∙ append_assoc s.valid (stamp candidate_id iteration i ∷ [])
                (map (stamp candidate_id iteration) is),
        r' ∙ r,
      )

  -- At most three sound intents, at most one of them a broadcast, are all kept in their order, and
  -- none is rejected.
  pub normalize_intents_keeps :
      (is : List (CommunicationIntent (Value N)))
      → length is ≤ 3
      → length (broadcasts is) ≤ 1
      → All (λ i. is_sound i ≡ true) is
      → normalize_intents candidate_id iteration is ≡ (map (stamp candidate_id iteration) is, 0)
  unfolding normalize_intents
  normalize_intents_keeps is few one sound =
      let (v, r) =
        normalize_all-keeps is (record { valid = []; rejected = 0; broadcast_count = 0 })
          (omega arith) (omega arith) sound in
      ground arith
