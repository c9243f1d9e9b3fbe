-- ===== src/Orchestration/Store/Claims.antt =====
-- src/orchestration/store/fs.rs: the claim of an execution by a worker, one file beside its records.
pub mod Text
pub mod Taking
pub mod Race
pub mod Refreshing
use void_control.Base.{
  ℕ, zero, suc, Bool, true, false, Option, none, some, String, ◌&◌, str_eq, ltb, if◌then◌else◌,
  decimal, parse_number, u64_max, saturating_sub, split_once, trim, is_empty_text,
}
use void_control.Orchestration.Store.{IoResult, Io, ErrorKind, IoError, fail, is_not_found}
use void_control.Orchestration.Store.Files.{Files, Act, then_act, ◌>>=◌, ◌>>◌, give}

pub record ExecutionClaim : Type 0 where
  pub worker_id : String
  pub claimed_at_ms : ℕ

unfoldable pub serialize_claim : ExecutionClaim → String
serialize_claim claim = claim.worker_id & "|" & decimal claim.claimed_at_ms

claimed_at : String → Option ℕ → Option ExecutionClaim
claimed_at worker_id none = none
claimed_at worker_id (some n) = some (record { worker_id = worker_id; claimed_at_ms = n })

-- What `parse_claim` makes of the two parts.
claim_of : Option (String × String) → Option ExecutionClaim
unfolding claimed_at
claim_of none = none
claim_of (some (worker_id, claimed_at_ms)) =
    claimed_at worker_id (parse_number u64_max claimed_at_ms)

unfoldable pub parse_claim : String → Option ExecutionClaim
unfolding claim_of
parse_claim contents =
    if is_empty_text (trim contents) then none else claim_of (split_once "|" (trim contents))

is_already_exists : ErrorKind → Bool
is_already_exists ErrorKind.already_exists = true
is_already_exists _ = false

-- `CLAIM_TTL_MS`
abbrev pub default_ttl_ms : ℕ
default_ttl_ms = 30000

-- `.and_then(parse).filter(> 0).unwrap_or(CLAIM_TTL_MS)`
ttl_of : Option ℕ → ℕ
ttl_of none = default_ttl_ms
ttl_of (some n) = if ltb 0 n then n else default_ttl_ms

parsed_var : Option String → Option ℕ
parsed_var none = none
parsed_var (some value) = parse_number u64_max value

module _ {D P H : Type 0} (files : Files D P H) where
  unfoldable pub claim_ttl_ms : ℕ
  unfolding ttl_of parsed_var
  claim_ttl_ms = ttl_of (parsed_var (files.var "VOID_CONTROL_CLAIM_TTL_MS"))

  -- `now_ms() - claimed_at_ms > claim_ttl_ms()`, with a subtraction that stops at 0.
  unfoldable pub claim_is_stale : ExecutionClaim → D → Bool × D
  claim_is_stale claim d =
      let (now, after) = files.now_ms d in
      (ltb claim_ttl_ms (saturating_sub now claim.claimed_at_ms), after)

  unfoldable pub execution_dir : String → P
  execution_dir execution_id = files.join files.root execution_id

  unfoldable pub claim_path : String → P
  claim_path execution_id = files.join (execution_dir execution_id) "claim.txt"

  claim_record : Io String → Io (Option ExecutionClaim)
  claim_record (IoResult.ok contents) = IoResult.ok (parse_claim contents)
  claim_record (IoResult.err e) = if is_not_found e.kind then IoResult.ok none else IoResult.err e

  unfoldable pub load_claim_record : String → D → Io (Option ExecutionClaim)
  unfolding claim_record
  load_claim_record execution_id d = claim_record (files.read_to_string (claim_path execution_id) d)

  abbrev worker_of : Io (Option ExecutionClaim) → Io (Option String)
  worker_of (IoResult.err e) = IoResult.err e
  worker_of (IoResult.ok none) = IoResult.ok none
  worker_of (IoResult.ok (some claim)) = IoResult.ok (some claim.worker_id)

  unfoldable pub load_claim : String → D → Io (Option String)
  load_claim execution_id d = worker_of (load_claim_record execution_id d)

  release_result : Io (Unit {0}) → Io (Unit {0})
  release_result (IoResult.ok _) = IoResult.ok tt
  release_result (IoResult.err e) = if is_not_found e.kind then IoResult.ok tt else IoResult.err e

  unfoldable pub release_claim : String → Act D (Unit {0})
  unfolding release_result
  release_claim execution_id d =
      let (r, after) = files.remove_file (claim_path execution_id) d in (release_result r, after)

  unfoldable pub atomic_replace_file : P → String → Act D (Unit {0})
  atomic_replace_file path contents d =
      let (now, after) = files.now_ms d in
      let temp_path = files.with_extension path ("tmp-" & decimal now) in
      (files.write temp_path contents >> files.rename temp_path path) after

  -- The claim is claim_written anew, with the time of a clock that is read once more.
  refreshed : String → String → Act D (Unit {0})
  refreshed execution_id worker_id d =
      let (now, after) = files.now_ms d in
      let claim : ExecutionClaim = record { worker_id = worker_id; claimed_at_ms = now } in
      atomic_replace_file (claim_path execution_id) (serialize_claim claim) after

  refresh_found : String → String → Option ExecutionClaim → Act D (Unit {0})
  unfolding refreshed
  refresh_found execution_id worker_id none d = (fail ErrorKind.not_found "claim not found", d)
  refresh_found execution_id worker_id (some existing) d =
      if str_eq existing.worker_id worker_id
      then refreshed execution_id worker_id d
      else (fail ErrorKind.permission_denied "claim owned by another worker", d)

  unfoldable pub refresh_claim : String → String → Act D (Unit {0})
  unfolding refresh_found
  refresh_claim execution_id worker_id d =
      then_act (load_claim_record execution_id d, d) (refresh_found execution_id worker_id)

  -- The rounds of `claim_execution`; `none` means that the fuel ran out. `retry` is the call of itself.
  abbrev pub Round : Type 0
  Round = D → Option (Io Bool × D)

  claim_written : Io (Unit {0}) × D → Io Bool × D
  claim_written (IoResult.ok _, d) = (IoResult.ok true, d)
  claim_written (IoResult.err e, d) = (IoResult.err e, d)

  pub removed : Round → Io (Unit {0}) × D → Option (Io Bool × D)
  removed retry (IoResult.ok _, d) = retry d
  removed retry (IoResult.err e, d) = some (IoResult.err e, d)

  on_stale : String → Round → Bool × D → Option (Io Bool × D)
  unfolding removed
  on_stale execution_id retry (true, d) =
      removed retry (files.remove_file (claim_path execution_id) d)
  on_stale execution_id retry (false, d) = some (IoResult.ok false, d)

  pub on_existing : String → Round → Io (Option ExecutionClaim) → Round
  unfolding on_stale removed
  on_existing execution_id retry (IoResult.err e) d = some (IoResult.err e, d)
  on_existing execution_id retry (IoResult.ok none) d =
      removed retry (files.remove_file (claim_path execution_id) d)
  on_existing execution_id retry (IoResult.ok (some existing)) d =
      on_stale execution_id retry (claim_is_stale existing d)

  -- What follows the attempt to make the file: its maker writes the claim.
  unfoldable pub opened : String → ExecutionClaim → Round → Io H × D → Option (Io Bool × D)
  unfolding claim_written on_existing is_already_exists
  opened execution_id claim retry (IoResult.ok file, d) =
      some (claim_written (files.write_all file (serialize_claim claim) d))
  opened execution_id claim retry (IoResult.err e, d) =
      if is_already_exists e.kind
      then on_existing execution_id retry (load_claim_record execution_id d) d
      else some (IoResult.err e, d)

  claim_in_dir : String → String → Round → Io (Unit {0}) × D → Option (Io Bool × D)
  claim_in_dir execution_id worker_id retry (IoResult.err e, d) = some (IoResult.err e, d)
  claim_in_dir execution_id worker_id retry (IoResult.ok _, d) =
      let (now, after) = files.now_ms d in
      opened execution_id (record { worker_id = worker_id; claimed_at_ms = now }) retry
        (files.create_new (claim_path execution_id) after)

  unfoldable pub claim_execution : ℕ → String → String → Round
  unfolding claim_in_dir
  claim_execution zero execution_id worker_id d = none
  claim_execution (suc fuel) execution_id worker_id d =
      claim_in_dir execution_id worker_id (claim_execution fuel execution_id worker_id)
        (files.create_dir_all (execution_dir execution_id) d)
