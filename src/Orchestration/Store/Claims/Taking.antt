-- ===== src/Orchestration/Store/Claims/Taking.antt =====
-- src/orchestration/store/fs.rs: how a worker claims an execution, on a disk that does not
-- fail.
use void_control.Base.{
  ◌≡◌, refl, ◌∙◌, ℕ, suc, Bool, true, false, Option, none, some, String, ltb, Bool-cases, inl, inr,
  saturating_sub,
}
use void_control.Orchestration.Store.{IoResult}
use void_control.Orchestration.Store.Files.{Files}
use void_control.Orchestration.Store.Claims.{
  ExecutionClaim, serialize_claim, parse_claim, claim_ttl_ms, claim_is_stale, execution_dir,
  claim_path, load_claim_record, claim_execution, opened, claim_in_dir, on_existing, on_stale,
  removed, claim_written, claim_record, is_already_exists,
}
use void_control.Orchestration.Store.Files.Working.{IsWorking}

module _ {D P H : Type 0} (files : Files D P H) (text_at : P → D → Option String)
    (works : IsWorking files text_at) where
  pub load_claim_record-found :
      (id : String) (d : D) (t : String)
      → text_at (claim_path files id) d ≡ some t
      → load_claim_record files id d ≡ IoResult.ok (parse_claim t)
  unfolding load_claim_record claim_record
  load_claim_record-found id d t h = rw (works.found (claim_path files id) d t h) refl

  -- Where nobody has claimed the execution, the worker claims it: the answer is yes, and the file holds the claim.
  pub claim_execution-free :
      (fuel : ℕ) (id worker : String) (d : D)
      → text_at (claim_path files id) d ≡ none
      → (now : ℕ) × (d' : D) × (claim_execution files (suc fuel) id worker d
          ≡ some (IoResult.ok true, d'))
        × (text_at (claim_path files id) d'
            ≡ some (serialize_claim (record { worker_id = worker; claimed_at_ms = now })))
  unfolding claim_execution claim_in_dir opened claim_written
  claim_execution-free fuel id worker d h =
      let (d1, made_dir, same) = works.dir_made (execution_dir files id) d in
      let now : ℕ = (files.now_ms d1).0 in
      let free : text_at (claim_path files id) (files.now_ms d1).1 ≡ none =
        works.clock_keeps (claim_path files id) d1 ∙ same (claim_path files id) ∙ h in
      let (file, d2, created, empty, writes) =
        works.made (claim_path files id) (files.now_ms d1).1 free in
      let (d3, wrote, holds) =
        writes (serialize_claim (record { worker_id = worker; claimed_at_ms = now })) in
      (now, d3, rw (made_dir, created, wrote) refl, holds)

  -- Where the file is there, what it holds decides.
  pub claim_execution-taken :
      (fuel : ℕ) (id worker : String) (d : D) (t : String)
      → text_at (claim_path files id) d ≡ some t
      → (d' : D) × (claim_execution files (suc fuel) id worker d
          ≡ on_existing files id
              (claim_execution files fuel id worker)
              (IoResult.ok (parse_claim t))
              d')
        × (text_at (claim_path files id) d' ≡ some t)
  unfolding claim_execution claim_in_dir opened is_already_exists
  claim_execution-taken fuel id worker d t h =
      let (d1, made_dir, same) = works.dir_made (execution_dir files id) d in
      let there : text_at (claim_path files id) (files.now_ms d1).1 ≡ some t =
        works.clock_keeps (claim_path files id) d1 ∙ same (claim_path files id) ∙ h in
      let (e, refused, exists) = works.not_made (claim_path files id) (files.now_ms d1).1 t there in
      (
        (files.now_ms d1).1,
        rw (made_dir, refused, exists, load_claim_record-found id (files.now_ms d1).1 t there) refl,
        there,
      )

  -- A claim that is given up is replaced by the worker's own.
  pub removed-claimed :
      (fuel : ℕ) (id worker : String) (d : D) (t : String)
      → text_at (claim_path files id) d ≡ some t
      → (now : ℕ) × (d' : D) × (removed files
            (claim_execution files (suc fuel) id worker)
            (files.remove_file (claim_path files id) d)
          ≡ some (IoResult.ok true, d'))
        × (text_at (claim_path files id) d'
            ≡ some (serialize_claim (record { worker_id = worker; claimed_at_ms = now })))
  removed-claimed fuel id worker d t h =
      let (d1, gone, none_left) = works.taken_away (claim_path files id) d t h in
      let (now, d2, claimed, holds) = claim_execution-free fuel id worker d1 none_left in
      (now, d2, unfold removed in (rw gone claimed), holds)

  -- What `claim_execution` left behind, by its answer.
  abbrev pub Claimed : String → String → D → Bool → D → Type 0
  Claimed id worker d true d' =
      (now : ℕ) × (text_at (claim_path files id) d'
        ≡ some (serialize_claim (record { worker_id = worker; claimed_at_ms = now })))
  Claimed id worker d false d' =
      (t : String) × (claim : ExecutionClaim) × (seen : D) × (text_at (claim_path files id) d
        ≡ some t)
      × (parse_claim t ≡ some claim)
      × ((claim_is_stale files claim seen).0 ≡ false)
      × (text_at (claim_path files id) d' ≡ some t)

  claim_execution-readable :
      (fuel : ℕ) (id worker : String) (d d1 : D) (t : String) (claim : ExecutionClaim)
      → text_at (claim_path files id) d ≡ some t
      → text_at (claim_path files id) d1 ≡ some t
      → parse_claim t ≡ some claim
      → (b : Bool) × (d' : D) × (on_existing files id
            (claim_execution files (suc fuel) id worker)
            (IoResult.ok (some claim))
            d1
          ≡ some (IoResult.ok b, d'))
        × Claimed id worker d b d'
  unfolding on_existing on_stale claim_is_stale
  claim_execution-readable fuel id worker d d1 t claim h h1 p =
      let after : D = (files.now_ms d1).1 in
      let there : text_at (claim_path files id) after ≡ some t =
        works.clock_keeps (claim_path files id) d1 ∙ h1 in
      elim (Bool-cases
        (ltb (claim_ttl_ms files) (saturating_sub (files.now_ms d1).0 claim.claimed_at_ms))) [
          | inl stale ↦
              let (now, d2, claimed, holds) = removed-claimed fuel id worker after t there in
              (true, d2, rw stale claimed, (now, holds))
          | inr live ↦ (false, after, rw live refl, (t, claim, d1, h, p, live, there))
        ]

  claim_execution-at :
      (fuel : ℕ) (id worker : String) (d : D) (t : String)
      → text_at (claim_path files id) d ≡ some t
      → (o : Option ExecutionClaim) → parse_claim t ≡ o
      → (b : Bool) × (d' : D) × (claim_execution files (suc (suc fuel)) id worker d
          ≡ some (IoResult.ok b, d'))
        × Claimed id worker d b d'
  claim_execution-at fuel id worker d t h none p =
      let (d1, seen, there) = claim_execution-taken (suc fuel) id worker d t h in
      let (now, d2, claimed, holds) = removed-claimed fuel id worker d1 t there in
      (true, d2, seen ∙ (unfold on_existing in (rw p claimed)), (now, holds))
  claim_execution-at fuel id worker d t h (some claim) p =
      let (d1, seen, there) = claim_execution-taken (suc fuel) id worker d t h in
      let (b, d2, answer, left) = claim_execution-readable fuel id worker d d1 t claim h there p in
      (b, d2, seen ∙ rw p answer, left)

  -- Two rounds are always enough: on a disk that does not fail, and that nobody else changes meanwhile,
  -- `claim_execution` ends with an answer. Where it is yes, the file holds the worker's own claim; where it is
  -- no, the file held and still holds a readable claim that was not stale when the clock was read.
  pub claim_execution_total :
      (fuel : ℕ) (id worker : String) (d : D)
      → (b : Bool) × (d' : D) × (claim_execution files (suc (suc fuel)) id worker d
          ≡ some (IoResult.ok b, d'))
        × Claimed id worker d b d'
  claim_execution_total fuel id worker d = by_file (text_at (claim_path files id) d) refl
    where
      by_file :
          (o : Option String)
          → text_at (claim_path files id) d ≡ o
          → (b : Bool) × (d' : D) × (claim_execution files (suc (suc fuel)) id worker d
              ≡ some (IoResult.ok b, d'))
            × Claimed id worker d b d'
      by_file none h =
          let (now, d1, claimed, holds) = claim_execution-free (suc fuel) id worker d h in
          (true, d1, claimed, (now, holds))
      by_file (some t) h = claim_execution-at fuel id worker d t h (parse_claim t) refl
