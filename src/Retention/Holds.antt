-- ===== src/Retention/Holds.antt =====
-- When evidence may be purged, and what a legal hold stops (legal_hold.py, retention.py).
use harness_auto_test_eviden.Prelude.{
  ℕ, ◌≤◌, String, Bool, true, false, not, ◌&&◌, Option, none, some, List, [], ◌∷◌, ◌≡◌, refl, sym,
  ap, ◌∙◌, subst, leb, ◌===◌, member, is_empty, by_test, and_true, arith,
}
use harness_auto_test_eviden.Retention.{
  LegalHold, Resource, Policy, Evaluation, Clock, Effect, hard_dq, soft_gap, is_active, hold_active,
  missing_fields, mutating_operations, policy_of, kind_of, by_expiry, evaluation, evaluate_at,
  evaluate_now, evaluate_retention_policy, now_of, instant, expiry, finish, valid_policy,
  is_hard_dq, lost_hold, legal_hold_blocks_operation, judge_hold, evaluate_legal_hold, hold_result,
}

module _ (clock : Clock) (r : Resource) (policy : Policy) where
  -- An expiry that has passed, on a resource with no active hold.
  pub record IsExpired (now : Option String) (e : Evaluation) : Type 0 where
    pub no_hold : hold_active r.legal_hold ≡ false
    pub at : ℕ
    pub current : ℕ
    pub read : instant clock (expiry clock r policy) ≡ some (some at)
    pub read_now : now_of clock now ≡ some current
    pub passed : at ≤ current
    pub action : e.action ≡ "metadata_purge_eligible"
    pub effect : e.readiness_effect ≡ soft_gap

  abbrev Expires : ℕ → Option (Option ℕ) → Evaluation → Type 0
  Expires now o e =
      (hold_active r.legal_hold ≡ false)
      × ((at : ℕ) × (o ≡ some (some at)) × (at ≤ now))
      × (e.action ≡ "metadata_purge_eligible")
      × (e.readiness_effect ≡ soft_gap)

  expiry_purges :
      (now : ℕ) (at : Option ℕ)
      → (by_expiry clock r policy now at).purge_eligible_metadata_only ≡ true
      → Expires now (some at) (by_expiry clock r policy now at)
  unfolding by_expiry valid_policy evaluation
  expiry_purges now none h = absurd (cc (h))
  expiry_purges now (some at) h =
      by_test (λ e. e.purge_eligible_metadata_only ≡ true → Expires now (some (some at)) e)
        (not (leb at now)) _ _ (λ _ g. absurd (cc (g)))
        (λ p.
          by_test (λ e. e.purge_eligible_metadata_only ≡ true → Expires now (some (some at)) e)
            (hold_active r.legal_hold) _ _ (λ _ g. absurd (cc (g)))
            (λ n g. (n, (at, refl, reached at now p), refl, refl)))
        h
    where
      reached : (m n : ℕ) → not (leb m n) ≡ false → m ≤ n
      reached m n f = ground arith

  abbrev Purges : ℕ → Option Evaluation → Type 0
  Purges now o =
      (e : Evaluation)
      → o ≡ some e
      → e.purge_eligible_metadata_only ≡ true
      → Expires now (instant clock (expiry clock r policy)) e

  finish_purges :
      (now : ℕ) (o : Option (Option ℕ)) (e : Evaluation)
      → finish clock r policy now o ≡ some e
      → e.purge_eligible_metadata_only ≡ true
      → Expires now o e
  finish_purges now none e h g = absurd (cc (h))
  finish_purges now (some at) e h g =
      let q : by_expiry clock r policy now at ≡ e = cc (h) in
      subst (Expires now (some at)) q
        (expiry_purges now at (ap (λ (x : Evaluation). x.purge_eligible_metadata_only) q ∙ g))

  no_purge :
      (now : ℕ) (x : Evaluation) → x.purge_eligible_metadata_only ≡ false → Purges now (some x)
  no_purge now x f e h g =
      let q : x ≡ e = cc (h) in
      absurd (cc (f, ap (λ (y : Evaluation). y.purge_eligible_metadata_only) q ∙ g))

  evaluate-Purges :
      (profile operation : String) (now : ℕ)
      → Purges now (evaluate_at clock r policy profile now operation)
  unfolding evaluate_at evaluation
  evaluate-Purges profile operation now =
      by_test (Purges now)
        (member (kind_of r) ("bundle" ∷ "canonical_bundle" ∷ []) && (policy_of r policy === "")) _ _
        (λ _. no_purge now _ refl)
        (λ _.
          by_test (Purges now)
            (is_hard_dq (evaluate_legal_hold r operation profile).readiness_effect) _ _
            (λ _. no_purge now _ refl)
            (λ _.
              by_test (Purges now) (lost_hold r.migration) _ _ (λ _. no_purge now _ refl)
                (λ _ e h g. finish_purges now _ e h g)))

-- Only a resource with no active legal hold, whose expiry can be read and has passed, is eligible
-- for the purge of its metadata, and then with the action and the effect of such a purge.
pub purge-IsExpired :
    (clock : Clock) (r : Resource) (policy : Policy) (profile : String) (now : Option String)
    (operation : String) (e : Evaluation)
    → evaluate_retention_policy clock r policy profile now operation ≡ some e
    → e.purge_eligible_metadata_only ≡ true
    → IsExpired clock r policy now e
unfolding evaluate_retention_policy
purge-IsExpired clock r policy profile now operation e h g = at_now (now_of clock now) refl h
  where
    at_now :
        (o : Option ℕ)
        → now_of clock now ≡ o
        → evaluate_now clock o r policy profile operation ≡ some e
        → IsExpired clock r policy now e
    at_now none q h = absurd (cc (h))
    at_now (some n) q h =
        let (none_active, (at, read, passed), action, effect) =
          evaluate-Purges clock r policy profile operation n e h g in
        record {
          no_hold = none_active;
          at = at;
          current = n;
          read = read;
          read_now = q;
          passed = passed;
          action = action;
          effect = effect;
        }

abbrev Blocked : Option Evaluation → Type 0
Blocked o =
    (e : Evaluation) × (o ≡ some e)
    × (e.action ≡ "blocked_by_legal_hold")
    × (e.readiness_effect ≡ hard_dq)
    × (e.purge_eligible_metadata_only ≡ false)

judge_blocks :
    (h : LegalHold) (operation profile : String)
    → is_empty (missing_fields h) ≡ true
    → is_active h ≡ true
    → member operation mutating_operations ≡ true
    → (judge_hold (some h) operation profile).1.0 ≡ hard_dq
unfolding judge_hold legal_hold_blocks_operation
judge_blocks h operation profile hm ha ho =
    by_test (λ (j : String × (Effect × List String)). j.1.0 ≡ hard_dq)
      (not (is_empty (missing_fields h))) _ _ (λ n. absurd (cc (n, ap not hm)))
      (λ _.
        by_test (λ (j : String × (Effect × List String)). j.1.0 ≡ hard_dq)
          (is_active h && (is_active h && member operation mutating_operations)) _ _ (λ _. refl)
          (λ n. absurd (both _ _ ha ho n)))
  where
    both : (a b : Bool) → a ≡ true → b ≡ true → (a && (a && b)) ≡ false → ⊥
    both a b x y n = ground arith

evaluate_blocks :
    (clock : Clock) (r : Resource) (policy : Policy) (profile operation : String) (now : ℕ)
    → (policy_of r policy === "") ≡ false
    → (judge_hold r.legal_hold operation profile).1.0 ≡ hard_dq
    → Blocked (evaluate_at clock r policy profile now operation)
unfolding evaluate_at evaluation evaluate_legal_hold hold_result
evaluate_blocks clock r policy profile operation now q j =
    by_test Blocked
      (member (kind_of r) ("bundle" ∷ "canonical_bundle" ∷ []) && (policy_of r policy === "")) _ _
      (λ t.
        let u =
          and_true (member (kind_of r) ("bundle" ∷ "canonical_bundle" ∷ []))
            (policy_of r policy === "") t in
        absurd (cc (q, u.1)))
      (λ _.
        by_test Blocked (is_hard_dq (judge_hold r.legal_hold operation profile).1.0) _ _
          (λ _. (_, refl, refl, refl, refl)) (λ n. absurd (cc (n, ap is_hard_dq j))))

-- An active and complete legal hold stops every mutating operation on a resource with a retention
-- policy, whatever its expiry and the profile: the evaluation is blocked, disqualifies, and
-- nothing is eligible for a purge.
active_hold-blocks :
    (clock : Clock) (r : Resource) (policy : Policy) (profile : String) (now : Option String)
    (operation : String) (current : ℕ) (h : LegalHold)
    → now_of clock now ≡ some current
    → (policy_of r policy === "") ≡ false
    → r.legal_hold ≡ some h
    → is_empty (missing_fields h) ≡ true
    → is_active h ≡ true
    → member operation mutating_operations ≡ true
    → (e : Evaluation) × (evaluate_retention_policy clock r policy profile now operation ≡ some e)
      × (e.action ≡ "blocked_by_legal_hold")
      × (e.readiness_effect ≡ hard_dq)
      × (e.purge_eligible_metadata_only ≡ false)
unfolding evaluate_retention_policy
active_hold-blocks clock r policy profile now operation current h t q hh hm ha ho =
    subst (λ o. Blocked (evaluate_now clock o r policy profile operation)) (sym t)
      (evaluate_blocks clock r policy profile operation current q (
        subst (λ o. (judge_hold o operation profile).1.0 ≡ hard_dq) (sym hh)
          (judge_blocks h operation profile hm ha ho)))
