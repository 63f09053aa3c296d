-- ===== src/Retries/Soundness.antt =====
-- What a group's status stable_passed means (retry_aggregation.py).
use harness_auto_test_eviden.Prelude.{
  ℕ, suc, is_empty, ◌≤◌, Bool, false, not, some, List, [], ◌∷◌, ◌++◌, ◌≡◌, refl, sym, ap, ◌∙◌,
  subst, map, ◌==◌, ==_iff, any, if◌then◌else◌, All, Occurs, All→Occurs, Occurs→All, select-Occurs,
  Occurs-select, map-Occurs, Occurs-map, any→All, arith,
}
use harness_auto_test_eviden.Retries.{
  Texts, Execution, Issue, maximum, inconclusive, stable_passed, Attempt, retry_of, sorted_set,
  has_gap, effective_status, sorted_executions, of_retry, group_issues, attempts_of,
  attempts_issues, statuses_of, aggregate_group, aggregate_status, shard_total, is_sharded,
}
use harness_auto_test_eviden.Retries.Sets.{
  IsAscending, Occurs-last, sorted_set-IsAscending, sorted_set-Occurs, Occurs-sorted_set,
  full-Occurs,
}
use harness_auto_test_eviden.Retries.Attempts.{IsPassing, append_empty}
use harness_auto_test_eviden.Retries.Groups.{
  sorted-Occurs, Occurs-sorted, sorted-inhabited, attempts-IsPassing, aggregate-passed,
  passes_if_empty, conclude-passed, no_gap, group_checks,
}

module _ (texts : Texts) (group : List Execution) where
  abbrev executions : List Execution
  executions = sorted_executions texts group

  abbrev indices : List ℕ
  indices = sorted_set (map retry_of executions)

  -- What the aggregation promises of a group with the status stable_passed.
  pub record IsStable : Type 0 where
    pub some_execution : is_empty group ≡ false
    pub not_declared : All (λ (e : Execution). e.flaky ≡ false) group
    pub passes :
        (e : Execution)
        → Occurs e group
        → (effective_status texts e ≡ "passed") × (e.would_run ≡ false)
    pub every_retry :
        (e : Execution) (r : ℕ)
        → Occurs e group
        → r ≤ retry_of e
        → (e' : Execution) × Occurs e' group × (retry_of e' ≡ r)
    pub every_shard :
        (e : Execution) (s : ℕ)
        → Occurs e group
        → suc s ≤ shard_total executions
        → (e' : Execution) × Occurs e' group
          × (retry_of e' ≡ retry_of e)
          × (e'.shard_index ≡ some s)

  abbrev total : ℕ
  total = shard_total executions

  abbrev sharded : Bool
  sharded = is_sharded executions

  abbrev results : List (Attempt × List Issue)
  results = attempts_of texts indices executions total sharded

  -- The attempt that an execution belongs to.
  retry-Occurs : (e : Execution) → Occurs e group → Occurs (retry_of e) indices
  retry-Occurs e o =
      sorted_set-Occurs (retry_of e) (map retry_of executions)
        (map-Occurs retry_of e executions (sorted-Occurs texts e group o))

  own-Occurs : (e : Execution) → Occurs e group → Occurs e (of_retry (retry_of e) executions)
  own-Occurs e o =
      select-Occurs (λ x. retry_of x == retry_of e) e executions (sorted-Occurs texts e group o)
        ((==_iff (retry_of e) (retry_of e)).1 refl)

  module _ (passing : All (λ r. IsPassing texts total sharded (of_retry r executions)) indices)
      (gapless : has_gap indices ≡ false) where
    own-IsPassing :
        (e : Execution)
        → Occurs e group
        → IsPassing texts total sharded (of_retry (retry_of e) executions)
    own-IsPassing e o =
        All→Occurs (λ r. IsPassing texts total sharded (of_retry r executions)) indices passing
          (retry_of e) (retry-Occurs e o)

    own_passes :
        (e : Execution)
        → Occurs e group
        → (effective_status texts e ≡ "passed") × (e.would_run ≡ false)
    own_passes e o =
        let h = own-IsPassing e o in
        (
          All→Occurs (λ x. effective_status texts x ≡ "passed") _ h.statuses e (own-Occurs e o),
          All→Occurs (λ (x : Execution). x.would_run ≡ false) _ h.executed e (own-Occurs e o),
        )

    -- A shard of the attempt of e, as an execution of the group.
    own_shard :
        (e : Execution) (s : ℕ)
        → Occurs e group
        → suc s ≤ total
        → (e' : Execution) × Occurs e' group
          × (retry_of e' ≡ retry_of e)
          × (e'.shard_index ≡ some s)
    own_shard e s o u =
        let (e', o', q) =
          Occurs-map (λ (x : Execution). x.shard_index) (some s) (of_retry (retry_of e) executions)
            ((own-IsPassing e o).covered s u) in
        let (o'', t) = Occurs-select (λ x. retry_of x == retry_of e) e' executions o' in
        (e', Occurs-sorted texts e' group o'', (==_iff (retry_of e') (retry_of e)).0 t, sym q)

    indices_full : (ns : List ℕ) → indices ≡ ns → (r t : ℕ) → Occurs t ns → r ≤ t → Occurs r ns
    indices_full [] q r t o u = absurd o
    indices_full (n ∷ ns) q r t o u =
        let (zero, full) = no_gap n ns (ap has_gap (sym q) ∙ gapless) in
        let ascending =
          subst (IsAscending 0) q (sorted_set-IsAscending (map retry_of executions)) in
        full-Occurs 0 n ns ascending (omega (arith, full)) r (omega arith)
          (omega (arith, u, Occurs-last 0 n ns ascending t o))

    earlier_retry :
        (e : Execution) (r : ℕ)
        → Occurs e group
        → r ≤ retry_of e
        → (e' : Execution) × Occurs e' group × (retry_of e' ≡ r)
    earlier_retry e r o u =
        let o' =
          Occurs-sorted_set r (map retry_of executions)
            (indices_full indices refl r (retry_of e) (retry-Occurs e o) u) in
        let (e', o'', q) = Occurs-map retry_of r executions o' in
        (e', Occurs-sorted texts e' group o'', sym q)

  -- A group with the status stable_passed holds an execution, none of them declared flaky; every
  -- execution ran and passed; below the retry of each execution every retry is there; and for each
  -- of them every shard below the declared total is there in the same retry.
  pub stable_passed-IsStable :
      (aggregate_group texts group).aggregate_status ≡ stable_passed → IsStable
  unfolding aggregate_group
  stable_passed-IsStable h =
      let declared = maximum (map (λ (e : Execution). e.retry_count) executions) in
      let issues = group_issues executions indices declared ++ attempts_issues results in
      let (unflaky, status) =
        conclude-passed (any (λ (e : Execution). e.flaky) executions)
          (if not (is_empty issues) then inconclusive else aggregate_status (statuses_of results))
          issues h in
      let (clean, stable) = passes_if_empty (is_empty issues) _ status in
      let (checked, tried) =
        append_empty (group_issues executions indices declared) (attempts_issues results) clean in
      let (inhabited, gapless) = group_checks executions indices declared checked in
      let passing =
        attempts-IsPassing texts indices executions total sharded tried
          (aggregate-passed (statuses_of results) stable).0 in
      record {
        some_execution = sorted-inhabited texts group inhabited;
        not_declared =
            Occurs→All (λ (e : Execution). e.flaky ≡ false) group
              (λ e o.
                All→Occurs (λ (e : Execution). e.flaky ≡ false) executions
                  (any→All (λ (e : Execution). e.flaky) executions unflaky) e
                  (sorted-Occurs texts e group o));
        passes = own_passes passing gapless;
        every_retry = earlier_retry passing gapless;
        every_shard = own_shard passing gapless;
      }
