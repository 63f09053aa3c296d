-- ===== src/Retries/Parts.antt =====
-- The fields of executions, their retries and shards as sets of numbers, and the status of a group
-- of attempts (src/hate/p1a_internal/retry_aggregation.py).
use harness_auto_test_eviden.Prelude.{
  ℕ, ◌+◌, String, Bool, true, false, not, ◌||◌, Option, none, some, List, [], ◌∷◌, map, ◌==◌, ltb,
  leb, member, any, all, select, length, get_or, if◌then◌else◌,
}

pub record Texts : Type 0 where
  pub lower : String → String
  pub precedes : String → String → Bool

-- The fields of an execution node's data that the aggregation reads; none is a missing key.
pub record Execution : Type 0 where
  pub id : String
  pub status : Option String
  pub would_run : Bool
  pub flaky : Bool
  pub retry_index : Option ℕ
  pub attempt_index : Option ℕ
  pub retry_count : ℕ
  pub shard_index : Option ℕ
  pub shard_total : Option ℕ
  pub shard_count : Option ℕ

pub data Issue : Type 0 where
  missing_execution_evidence conflicting_shard_totals unknown_shard_total : Issue
  retry_sequence_gap declared_flaky_without_mixed_history flaky_execution : Issue
  reported_retry_history_missing : (retry_count : ℕ) → Issue
  duplicate_retry_shard missing_shard_index : (retry : ℕ) → Issue
  shard_index_out_of_range incomplete_execution_status : (retry : ℕ) → Issue
  missing_shards : (retry missing_count : ℕ) → Issue
  test_not_executed : (retry : ℕ) → List String → Issue

pub data Status : Type 0 where
  inconclusive passed failed stable_passed flaky_passed flaky_failed : Status

pub record Attempt : Type 0 where
  pub retry : ℕ
  pub status : Status
  pub missing_shard : Bool
  pub execution_node_ids : List String

pub record Aggregate : Type 0 where
  pub aggregate_status : Status
  pub issues : List Issue
  pub attempt_results : List Attempt
  pub declared_flaky : Bool
  pub declared_retry_count : ℕ
  pub expected_count : ℕ

-- The first int of the sort key: data.get("retry_index", data.get("attempt_index", 0)).
unfoldable pub retry_of : Execution → ℕ
retry_of e = get_or e.retry_index (get_or e.attempt_index 0)

abbrev pub first_of : Option ℕ → Option ℕ → Option ℕ
first_of none o = o
first_of (some n) o = some n

-- data.get("shard_total", data.get("shard_count"))
abbrev pub total_of : Execution → Option ℕ
total_of e = first_of e.shard_total e.shard_count

-- The members of a set of numbers, in ascending order.
unfoldable pub add_sorted : ℕ → List ℕ → List ℕ
add_sorted n [] = n ∷ []
add_sorted n (m ∷ ms) =
    let rest = add_sorted n ms in
    if ltb n m then n ∷ m ∷ ms else if n == m then m ∷ ms else m ∷ rest

unfoldable pub sorted_set : List ℕ → List ℕ
sorted_set [] = []
sorted_set (n ∷ ns) = add_sorted n (sorted_set ns)

abbrev pub present : List (Option ℕ) → List ℕ
present [] = []
present (none ∷ os) = present os
present (some n ∷ os) = n ∷ present os

abbrev pub last_or : ℕ → List ℕ → ℕ
last_or d [] = d
last_or d (n ∷ ns) = last_or n ns

abbrev pub maximum : List ℕ → ℕ
maximum [] = 0
maximum (n ∷ ns) = let m = maximum ns in if ltb m n then n else m

abbrev pub when : Bool → Issue → List Issue
when b i = if b then i ∷ [] else []

-- indices and (indices[0] != 0 or len(indices) != indices[-1] + 1)
unfoldable pub has_gap : List ℕ → Bool
has_gap [] = false
has_gap (n ∷ ns) = not (n == 0) || not (length (n ∷ ns) == last_or n ns + 1)

unfoldable pub shard_totals : List Execution → List ℕ
shard_totals executions = sorted_set (present (map total_of executions))

abbrev pub only_or_zero : List ℕ → ℕ
only_or_zero (n ∷ []) = n
only_or_zero _ = 0

unfoldable pub shard_total : List Execution → ℕ
shard_total executions = only_or_zero (shard_totals executions)

abbrev pub same_shard : Option ℕ → Option ℕ → Bool
same_shard none none = true
same_shard (some a) (some b) = a == b
same_shard _ _ = false

-- len(set(shards)) != len(shards)
abbrev pub has_duplicate : List (Option ℕ) → Bool
has_duplicate [] = false
has_duplicate (s ∷ ss) = any (same_shard s) ss || has_duplicate ss

abbrev pub out_of_range : ℕ → Option ℕ → Bool
out_of_range total none = false
out_of_range total (some i) = leb total i

unfoldable pub valid_shards : ℕ → List (Option ℕ) → List ℕ
valid_shards total shards = sorted_set (select (λ i. ltb i total) (present shards))

abbrev pub is_passed : Status → Bool
is_passed passed = true
is_passed _ = false

abbrev pub is_failed : Status → Bool
is_failed failed = true
is_failed _ = false

-- status.startswith("flaky")
abbrev pub is_flaky : Status → Bool
is_flaky flaky_passed = true
is_flaky flaky_failed = true
is_flaky _ = false

abbrev pub last_status : Status → List Status → Status
last_status s [] = s
last_status s (t ∷ ts) = last_status t ts

-- _aggregate_status, on the statuses that attempts have.
unfoldable pub aggregate_status : List Status → Status
aggregate_status [] = inconclusive
aggregate_status (s ∷ ss) =
    if any (λ x. not (is_passed x || is_failed x)) (s ∷ ss)
    then inconclusive
    else if all is_passed (s ∷ ss)
    then stable_passed
    else if all is_failed (s ∷ ss)
    then failed
    else if is_passed (last_status s ss)
    then flaky_passed
    else flaky_failed

abbrev pub is_result : String → Bool
is_result s = member s ("passed" ∷ "failed" ∷ "error" ∷ [])

abbrev pub is_failure : String → Bool
is_failure s = member s ("failed" ∷ "error" ∷ [])
