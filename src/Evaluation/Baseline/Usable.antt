-- ===== src/Evaluation/Baseline/Usable.antt =====
-- When a baseline serves for comparison, by what the list of its events holds.
use harness_auto_test_eviden.Prelude.{
  String, true, false, Option, none, some, List, ◌≡◌, refl, sym, ap, ◌∙◌, ◌⊎◌, inl, inr, ◌↔◌, ◌===◌,
  any, Bool-cases, subst,
}
use harness_auto_test_eviden.Evaluation.Baseline.{
  EventType, proposed, approved, frozen, expired, revoked, superseded, invalid, BaselineEvent,
  BaselineStatus, missing, is_approved, or_kept, status_after, no_projection, is_past,
  baseline_report,
}
use harness_auto_test_eviden.Evaluation.Baseline.Folds.{
  IsLast, fold_last, fold_cases, fold-Holds, any→IsLast, IsLast→any, last-IsLast, any_some,
}
use harness_auto_test_eviden.Evaluation.Baseline.Variables.{
  is_quiet, answer_iff, has_id, type_sets, sets_status, has_expiry, has_scope, is_freeze, from_not,
  keeps_text, sets_text, keeps_status, gives_status, approves, id_of_all, status_of_all,
  expiry_of_all, scope_of_all, last_of_all, frozen_of_all, final, report-answer,
}

-- What a list of events must hold for the baseline to serve on a day.
pub record IsUsable (events : List BaselineEvent) (today : String) : Type 0 where
  pub named : any has_id events ≡ true
  pub approval : (e : BaselineEvent) × IsLast sets_status events e × (e.event_type ≡ approved)
  pub unexpired :
      (e : BaselineEvent) → IsLast has_expiry events e → is_past e.expires_at today ≡ false
  pub owned :
      (e : BaselineEvent) → IsLast has_scope events e → (e.ownership_scope === "external") ≡ false
  pub settled :
      any is_freeze events ≡ true
      → (e : BaselineEvent) × IsLast (λ x. true) events e × (e.event_type ≡ frozen)

module _ (events : List BaselineEvent) (today : String) where
  id_iff : (((final events).baseline_id === "") ≡ false) ↔ (any has_id events ≡ true)
  id_iff = (
    λ h.
        elim (fold_cases (λ e s. or_kept e.baseline_id s) has_id (λ e. e.baseline_id)
          (λ e s. keeps_text e.baseline_id s) (λ e s. sets_text e.baseline_id s)
          (λ v. (v === "") ≡ false) events ""
          (subst (λ v. (v === "") ≡ false) (id_of_all events no_projection) h)) [
            | inl q ↦ absurd (cc (q))
            | inr (e, l, q) ↦ IsLast→any has_id events e l
          ],
    λ h.
        let (e, l) = any→IsLast has_id events h in
        subst (λ v. (v === "") ≡ false)
          (sym (
            id_of_all events no_projection
            ∙ fold_last (λ e s. or_kept e.baseline_id s) has_id (λ e. e.baseline_id)
                (λ e s. keeps_text e.baseline_id s) (λ e s. sets_text e.baseline_id s) events e ""
                l))
          (from_not (e.baseline_id === "") l.holds),
  )

  abbrev status_step : BaselineEvent → BaselineStatus → BaselineStatus
  status_step e s = status_after e.event_type s

  status_of_last :
      (e : BaselineEvent)
      → IsLast sets_status events e
      → (final events).status ≡ status_after e.event_type missing
  status_of_last e l =
      status_of_all events no_projection
      ∙ fold_last status_step sets_status (λ x. status_after x.event_type missing)
          (λ x s. keeps_status x.event_type s) (λ x s. gives_status x.event_type s) events e missing
          l

  status_iff :
      ((final events).status ≡ is_approved)
      ↔ ((e : BaselineEvent) × IsLast sets_status events e × (e.event_type ≡ approved))
  status_iff = (
    λ h.
        elim (fold_cases status_step sets_status (λ x. status_after x.event_type missing)
          (λ x s. keeps_status x.event_type s) (λ x s. gives_status x.event_type s)
          (λ s. s ≡ is_approved) events missing (sym (status_of_all events no_projection) ∙ h)) [
            | inl q ↦ absurd (cc (q))
            | inr (e, l, q) ↦ (e, l, approves e.event_type q)
          ],
    λ (e, l, q). status_of_last e l ∙ ap (λ t. status_after t missing) q,
  )

  expiry_iff :
      (is_past (final events).expires_at today ≡ false)
      ↔ ((e : BaselineEvent) → IsLast has_expiry events e → is_past e.expires_at today ≡ false)
  expiry_iff =
      let step = λ (e : BaselineEvent) (s : String). or_kept e.expires_at s in
      let at = λ (e : BaselineEvent). e.expires_at in
      let keeps = λ (e : BaselineEvent) (s : String). keeps_text e.expires_at s in
      let sets = λ (e : BaselineEvent) (s : String). sets_text e.expires_at s in
      (
        λ h e l.
            subst (λ v. is_past v today ≡ false)
              (expiry_of_all events no_projection
                ∙ fold_last step has_expiry at keeps sets events e "" l)
              h,
        λ h.
            subst (λ v. is_past v today ≡ false) (sym (expiry_of_all events no_projection))
              (fold-Holds step has_expiry at keeps sets (λ v. is_past v today ≡ false) events "" h
                refl),
      )

  scope_iff : (((final events).ownership_scope === "external") ≡ false) ↔ (
      (e : BaselineEvent) → IsLast has_scope events e → (e.ownership_scope === "external") ≡ false)
  scope_iff =
      let step = λ (e : BaselineEvent) (s : String). or_kept e.ownership_scope s in
      let at = λ (e : BaselineEvent). e.ownership_scope in
      let keeps = λ (e : BaselineEvent) (s : String). keeps_text e.ownership_scope s in
      let sets = λ (e : BaselineEvent) (s : String). sets_text e.ownership_scope s in
      (
        λ h e l.
            subst (λ v. (v === "external") ≡ false)
              (scope_of_all events no_projection
                ∙ fold_last step has_scope at keeps sets events e "owned" l)
              h,
        λ h.
            subst (λ v. (v === "external") ≡ false) (sym (scope_of_all events no_projection))
              (fold-Holds step has_scope at keeps sets (λ v. (v === "external") ≡ false) events
                "owned" h refl),
      )

  last_type :
      (e : BaselineEvent)
      → IsLast (λ x. true) events e
      → (final events).last_event_type ≡ some e.event_type
  last_type e l =
      last_of_all events no_projection
      ∙ fold_last (λ (x : BaselineEvent) (s : Option EventType). some x.event_type) (λ x. true)
          (λ x. some x.event_type) (λ x s h. absurd (cc (h))) (λ x s h. refl) events e none l

  is_frozen : (final events).frozen_ ≡ any is_freeze events
  is_frozen = frozen_of_all events no_projection

  abbrev IsSettled : Type 0
  IsSettled =
      any is_freeze events ≡ true
      → (e : BaselineEvent) × IsLast (λ x. true) events e × (e.event_type ≡ frozen)

  quiet→settled :
      (final events).status ≡ is_approved
      → is_quiet (final events).frozen_ (final events).last_event_type ≡ true
      → IsSettled
  quiet→settled s q f =
      let (e, l) = any→IsLast (λ x. true) events (any_some is_freeze events f) in
      (
        e,
        l,
        by_type e.event_type
            (sym (ap (is_quiet true) (last_type e l))
              ∙ ap (λ b. is_quiet b (final events).last_event_type) (sym (is_frozen ∙ f))
              ∙ q)
            (λ t. status_of_last e (last-IsLast sets_status events e l t)),
      )
    where
      by_type :
          (t : EventType)
          → is_quiet true (some t) ≡ true
          → (type_sets t ≡ true → (final events).status ≡ status_after t missing)
          → t ≡ frozen
      by_type frozen q g = refl
      by_type superseded q g = absurd (cc (s, g refl))
      by_type proposed q g = absurd (cc (q))
      by_type approved q g = absurd (cc (q))
      by_type expired q g = absurd (cc (q))
      by_type revoked q g = absurd (cc (q))
      by_type invalid q g = absurd (cc (q))

  settled→quiet : IsSettled → is_quiet (final events).frozen_ (final events).last_event_type ≡ true
  settled→quiet h = by_freeze (Bool-cases (any is_freeze events))
    where
      by_freeze :
          (any is_freeze events ≡ true) ⊎ (any is_freeze events ≡ false)
          → is_quiet (final events).frozen_ (final events).last_event_type ≡ true
      by_freeze (inl f) = let (e, l, q) = h f in rw (is_frozen ∙ f, last_type e l ∙ ap some q) refl
      by_freeze (inr f) = rw (is_frozen ∙ f) refl

-- By its normalized events, each of which has a scope, a baseline serves for comparison on a day
-- exactly where some event names it, the last event that changes its status approves it, the last expiry that an event gives is not past, the last scope
-- that an event gives is not external, and, if it was ever frozen, the very last event freezes it.
pub IsUsable-iff :
    (events : List BaselineEvent) (today : String)
    → ((baseline_report events today).can_use_for_regression ≡ true) ↔ IsUsable events today
IsUsable-iff events today = (
  λ h.
      let (named, status, past, scope, quiet) =
        (answer_iff _ _ _ _ _ _).0 (sym (report-answer events today) ∙ h) in
      record {
        named = (id_iff events today).0 named;
        approval = (status_iff events today).0 status;
        unexpired = (expiry_iff events today).0 past;
        owned = (scope_iff events today).0 scope;
        settled = quiet→settled events today status quiet;
      },
  λ u.
      report-answer events today
      ∙ (answer_iff _ _ _ _ _ _).1 (
        (id_iff events today).1 u.named,
        (status_iff events today).1 u.approval,
        (expiry_iff events today).1 u.unexpired,
        (scope_iff events today).1 u.owned,
        settled→quiet events today u.settled,
      ),
)
