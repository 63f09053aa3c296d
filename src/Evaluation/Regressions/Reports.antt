-- ===== src/Evaluation/Regressions/Reports.antt =====
-- A run without a reported regression is no worse than its baseline.
use harness_auto_test_eviden.Prelude.{
  ℕ, zero, suc, ◌≤◌, String, Bool, true, false, not, ◌&&◌, ◌||◌, Option, none, some, List, [], ◌∷◌,
  ◌++◌, ◌≡◌, refl, sym, ap, ◌∙◌, ◌↔◌, ltb, ◌==◌, ◌===◌, eq_iff, or_text, if◌then◌else◌, arith,
}
use harness_auto_test_eviden.Evaluation.Regressions.{
  RunEvaluation, Ratios, Regression, external_hold_detected, status_regression,
  record_count_collapse, runtime_drift, failure_kind_new, decision_order, decision_downgraded,
  at_least_one, record_count_collapsed, runtime_drifted, external_hold, when_found, current_failure,
  has_baseline, is_external, compare_with_baseline, classify_regressions,
}

-- Only an external repository without any baseline is not compared.
abbrev pub is_compared : RunEvaluation → Bool
is_compared d = not (is_external d && not (has_baseline d))

few : (m n k : ℕ) → (not (m == 0) && ltb n (at_least_one k)) ≡ false → 1 ≤ m → (1 ≤ n) × (k ≤ n)
few m n k h u = ground arith

enough :
    (m n k : ℕ) → (1 ≤ m → (1 ≤ n) × (k ≤ n)) → (not (m == 0) && ltb n (at_least_one k)) ≡ false
enough zero n k h = refl
enough (suc m) n k h = let (a, b) = h (omega arith) in ground arith

slow : (m n k : ℕ) → (not (m == 0) && ltb k n) ≡ false → 1 ≤ m → n ≤ k
slow m n k h u = ground arith

quick : (m n k : ℕ) → (1 ≤ m → n ≤ k) → (not (m == 0) && ltb k n) ≡ false
quick zero n k h = refl
quick (suc m) n k h = let a = h (omega arith) in ground arith

number : (m n : ℕ) → some m ≡ some n → m ≡ n
number m n e = cc

module _ (ratios : Ratios) where
  -- What it means that a run is no worse than its baseline.
  pub record IsNoWorse (d : RunEvaluation) : Type 0 where
    pub decisions :
        (or_text d.baseline_decision "" === "") ≡ false
        → (or_text d.current_decision "" === "") ≡ false
        → decision_order (or_text d.baseline_decision "")
          ≤ decision_order (or_text d.current_decision "")
    pub counts :
        (b c : ℕ)
        → d.baseline_record_count ≡ some b
        → d.current_record_count ≡ some c
        → 1 ≤ b
        → (1 ≤ c) × (ratios.dropped b ≤ c)
    pub runtimes :
        (b c : ℕ)
        → d.baseline_runtime_ms ≡ some b
        → d.runtime_ms ≡ some c
        → 1 ≤ b
        → c ≤ ratios.drifted b
    pub failures :
        (current_failure d === "") ≡ false → current_failure d ≡ or_text d.baseline_failure_kind ""

  pub record IsClean (d : RunEvaluation) : Type 0 where
    pub no_hold :
        is_external d ≡ true
        → external_hold
            (or_text d.current_decision "")
            d.command_exit_code
            (d.timeout_recorded || d.timed_out)
            (current_failure d)
          ≡ false
    pub no_worse : is_compared d ≡ true → IsNoWorse d

  decisions_iff :
      (b c : String)
      → (decision_downgraded b c ≡ false)
        ↔ ((b === "") ≡ false → (c === "") ≡ false → decision_order b ≤ decision_order c)
  unfolding decision_downgraded
  decisions_iff b c = by_tests (b === "") (c === "") (decision_order b) (decision_order c)
    where
      by_tests :
          (x y : Bool) (m n : ℕ)
          → ((if x || y then false else ltb n m) ≡ false) ↔ (x ≡ false → y ≡ false → m ≤ n)
      by_tests true y m n = (λ h q r. absurd (cc (q)), λ h. refl)
      by_tests false true m n = (λ h q r. absurd (cc (r)), λ h. refl)
      by_tests false false m n = (λ h q r. above m n h, λ h. below m n (h refl refl))
        where
          above : (m n : ℕ) → ltb n m ≡ false → m ≤ n
          above m n h = ground arith

          below : (m n : ℕ) → m ≤ n → ltb n m ≡ false
          below m n h = ground arith

  counts_iff :
      (o q : Option ℕ)
      → (record_count_collapsed ratios o q ≡ false)
        ↔ ((b c : ℕ) → o ≡ some b → q ≡ some c → 1 ≤ b → (1 ≤ c) × (ratios.dropped b ≤ c))
  unfolding record_count_collapsed
  counts_iff none q = (λ h b c e f u. absurd (cc (e)), λ h. refl)
  counts_iff (some m) none = (λ h b c e f u. absurd (cc (f)), λ h. refl)
  counts_iff (some m) (some n) = (
    λ h b c e f u.
        few b c (ratios.dropped b)
          (ap (λ v. not (v == 0) && ltb c (at_least_one (ratios.dropped v))) (sym (number m b e))
            ∙ ap (λ v. not (m == 0) && ltb v (at_least_one (ratios.dropped m))) (sym (number n c f))
            ∙ h)
          u,
    λ h. enough m n (ratios.dropped m) (h m n refl refl),
  )

  runtimes_iff :
      (o q : Option ℕ)
      → (runtime_drifted ratios o q ≡ false)
        ↔ ((b c : ℕ) → o ≡ some b → q ≡ some c → 1 ≤ b → c ≤ ratios.drifted b)
  unfolding runtime_drifted
  runtimes_iff none q = (λ h b c e f u. absurd (cc (e)), λ h. refl)
  runtimes_iff (some m) none = (λ h b c e f u. absurd (cc (f)), λ h. refl)
  runtimes_iff (some m) (some n) = (
    λ h b c e f u.
        slow b c (ratios.drifted b)
          (ap (λ v. not (v == 0) && ltb (ratios.drifted v) c) (sym (number m b e))
            ∙ ap (λ v. not (m == 0) && ltb (ratios.drifted m) v) (sym (number n c f))
            ∙ h)
          u,
    λ h. quick m n (ratios.drifted m) (h m n refl refl),
  )

  failures_iff :
      (s t : String) → ((not (s === "") && not (s === t)) ≡ false) ↔ ((s === "") ≡ false → s ≡ t)
  failures_iff s t = by_tests (s === "") (s === t) (eq_iff s t)
    where
      by_tests :
          (x y : Bool) → (y ≡ true) ↔ (s ≡ t) → ((not x && not y) ≡ false) ↔ (x ≡ false → s ≡ t)
      by_tests true y e = (λ h q. absurd (cc (q)), λ h. refl)
      by_tests false true e = (λ h q. e.0 refl, λ h. refl)
      by_tests false false e = (λ h q. absurd (cc (h)), λ h. sym (e.1 (h refl)))

  compare_iff :
      (a b c e : Bool)
      → ((when_found a status_regression
            ++ (when_found b record_count_collapse
                ++ (when_found c runtime_drift ++ when_found e failure_kind_new)))
          ≡ [])
        ↔ ((a ≡ false) × (b ≡ false) × (c ≡ false) × (e ≡ false))
  compare_iff true b c e = ground arith
  compare_iff false true c e = ground arith
  compare_iff false false c e = ground arith

  IsNoWorse-iff : (d : RunEvaluation) → (compare_with_baseline ratios d ≡ []) ↔ IsNoWorse d
  unfolding compare_with_baseline
  IsNoWorse-iff d =
      let decisions =
        decisions_iff (or_text d.baseline_decision "") (or_text d.current_decision "") in
      let counts = counts_iff d.baseline_record_count d.current_record_count in
      let runtimes = runtimes_iff d.baseline_runtime_ms d.runtime_ms in
      let failures = failures_iff (current_failure d) (or_text d.baseline_failure_kind "") in
      (
        λ h.
            let (a, b, c, e) = (compare_iff _ _ _ _).0 h in
            record {
              decisions = decisions.0 a;
              counts = counts.0 b;
              runtimes = runtimes.0 c;
              failures = failures.0 e;
            },
        λ w. (compare_iff _ _ _ _).1 (
          decisions.1 w.decisions,
          counts.1 w.counts,
          runtimes.1 w.runtimes,
          failures.1 w.failures,
        ),
      )

  -- The list of regressions is empty exactly where an external repository is not on hold and, unless
  -- it is external without any baseline, the run is no worse than the baseline: its decision does
  -- not rank below, its count is positive and not below the drop limit and its runtime within the
  -- drift limit wherever both sides give one and the baseline's is positive, and a failure kind that
  -- it gives is that of the baseline.
  pub IsClean-iff : (d : RunEvaluation) → (classify_regressions ratios d ≡ []) ↔ IsClean d
  unfolding classify_regressions
  IsClean-iff d =
      let tests =
        by_tests (is_external d) (has_baseline d)
          (external_hold (or_text d.current_decision "") d.command_exit_code
            (d.timeout_recorded || d.timed_out) (current_failure d))
          (compare_with_baseline ratios d) (IsNoWorse-iff d) in
      (
        λ h. let (hold, worse) = tests.0 h in record { no_hold = hold; no_worse = worse },
        λ c. tests.1 (c.no_hold, c.no_worse),
      )
    where
      by_tests :
          (x b w : Bool) (compared : List Regression)
          → (compared ≡ []) ↔ IsNoWorse d
          → ((if x && not b
                then when_found (x && w) external_hold_detected
                else when_found (x && w) external_hold_detected ++ compared)
              ≡ [])
            ↔ ((x ≡ true → w ≡ false) × (not (x && not b) ≡ true → IsNoWorse d))
      by_tests false b w compared e =
          (λ h. (λ q. absurd (cc (q)), λ q. e.0 h), λ (hold, worse). e.1 (worse refl))
      by_tests true b true compared e =
          (λ h. absurd (holds b compared h), λ (hold, worse). absurd (cc (hold refl)))
        where
          holds :
              (b : Bool) (compared : List Regression)
              → ◌≡◌ {A = List Regression}
                  (if not b then external_hold_detected ∷ [] else external_hold_detected ∷ compared)
                  []
              → ⊥
          holds true compared h = cc (h)
          holds false compared h = cc (h)
      by_tests true false false compared e = (λ h. (λ q. refl, λ q. absurd (cc (q))), λ c. refl)
      by_tests true true false compared e =
          (λ h. (λ q. refl, λ q. e.0 h), λ (hold, worse). e.1 (worse refl))
