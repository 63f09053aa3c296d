-- ===== src/Evaluation/Baseline/Variables.antt =====
-- What the loop over the events leaves in each of its variables, and the answer that the report draws
-- from them.
use harness_auto_test_eviden.Prelude.{
  String, Bool, true, false, not, ◌&&◌, ◌||◌, Option, some, List, [], ◌∷◌, ◌++◌, ◌≡◌, refl, ap, ◌∙◌,
  ◌↔◌, ◌===◌, any, is_empty, if◌then◌else◌, arith,
}
use harness_auto_test_eviden.Evaluation.Baseline.{
  EventType, proposed, approved, frozen, expired, revoked, superseded, invalid, BaselineEvent,
  BaselineStatus, missing, is_proposed, is_approved, is_expired, is_revoked, is_superseded,
  Projection, BaselineFinding, or_kept, status_after, frozen_after, pending_after, no_projection,
  absorb, absorb_all, has_status, settles, is_past, expire, suspend, reduce_events,
  baseline_finding_if, ends_approved, findings_for_projection, baseline_report,
}
use harness_auto_test_eviden.Evaluation.Baseline.Folds.{fold}

-- The report's answer, from the variables that the loop over the events leaves.
abbrev pub answer : Bool → BaselineStatus → Bool → Bool → Option EventType → Bool → Bool → Bool
answer unnamed status past frz last external pending =
    let s = if has_status is_approved status && past then is_expired else status in
    let waits = pending || (frz && (has_status is_approved s && not (settles last))) in
    let findings =
      baseline_finding_if (unnamed || has_status missing s) BaselineFinding.baseline_missing
      ++ (baseline_finding_if (has_status is_proposed s) BaselineFinding.baseline_unapproved
          ++ (baseline_finding_if (has_status is_expired s) BaselineFinding.baseline_expired
              ++ (baseline_finding_if (has_status is_revoked s) BaselineFinding.baseline_revoked
                  ++ (baseline_finding_if (has_status is_superseded s)
                        BaselineFinding.baseline_superseded
                      ++ (baseline_finding_if (frz && ends_approved last)
                            BaselineFinding.baseline_frozen_replacement_missing_supersede
                          ++ baseline_finding_if external
                              BaselineFinding.baseline_external_not_readiness_proof))))) in
    let can_use = is_empty findings && has_status is_approved s in
    if frz then can_use && not waits else can_use

-- A frozen baseline is quiet where its last event neither asks for a replacement nor approves one.
abbrev pub is_quiet : Bool → Option EventType → Bool
is_quiet false last = true
is_quiet true last = settles last && not (ends_approved last)

pub answer_iff :
    (unnamed past frz external : Bool) (status : BaselineStatus) (last : Option EventType)
    → (answer unnamed status past frz last external false ≡ true) ↔ (
        (unnamed ≡ false)
        × (status ≡ is_approved)
        × (past ≡ false)
        × (external ≡ false)
        × (is_quiet frz last ≡ true))
answer_iff unnamed past frz external is_approved last = ground arith
answer_iff unnamed past frz external missing last = ground arith
answer_iff unnamed past frz external is_proposed last = ground arith
answer_iff unnamed past frz external is_expired last = ground arith
answer_iff unnamed past frz external is_revoked last = ground arith
answer_iff unnamed past frz external is_superseded last = ground arith

abbrev pub has_id : BaselineEvent → Bool
has_id e = not (e.baseline_id === "")

abbrev pub type_sets : EventType → Bool
type_sets frozen = false
type_sets invalid = false
type_sets _ = true

abbrev pub sets_status : BaselineEvent → Bool
sets_status e = type_sets e.event_type

abbrev pub has_expiry : BaselineEvent → Bool
has_expiry e = not (e.expires_at === "")

abbrev pub has_scope : BaselineEvent → Bool
has_scope e = not (e.ownership_scope === "")

abbrev pub is_freeze : BaselineEvent → Bool
is_freeze e = frozen_after e.event_type false

pub from_not : (b : Bool) → not b ≡ true → b ≡ false
from_not b h = ground arith

pub keeps_text : (given kept : String) → not (given === "") ≡ false → or_kept given kept ≡ kept
keeps_text given kept h = ground (arith, h)

pub sets_text : (given kept : String) → not (given === "") ≡ true → or_kept given kept ≡ given
sets_text given kept h = ground (arith, h)

pub keeps_status : (t : EventType) (s : BaselineStatus) → type_sets t ≡ false → status_after t s ≡ s
keeps_status frozen s h = refl
keeps_status invalid s h = refl
keeps_status proposed s h = absurd (cc (h))
keeps_status approved s h = absurd (cc (h))
keeps_status expired s h = absurd (cc (h))
keeps_status revoked s h = absurd (cc (h))
keeps_status superseded s h = absurd (cc (h))

pub gives_status :
    (t : EventType) (s : BaselineStatus)
    → type_sets t ≡ true
    → status_after t s ≡ status_after t missing
gives_status frozen s h = absurd (cc (h))
gives_status invalid s h = absurd (cc (h))
gives_status proposed s h = refl
gives_status approved s h = refl
gives_status expired s h = refl
gives_status revoked s h = refl
gives_status superseded s h = refl

pub approves : (t : EventType) → status_after t missing ≡ is_approved → t ≡ approved
approves approved h = refl
approves proposed h = absurd (cc (h))
approves frozen h = absurd (cc (h))
approves expired h = absurd (cc (h))
approves revoked h = absurd (cc (h))
approves superseded h = absurd (cc (h))
approves invalid h = absurd (cc (h))

-- Each variable of the loop by itself.
pub id_of_all :
    (es : List BaselineEvent) (p : Projection)
    → (absorb_all es p).baseline_id ≡ fold (λ e s. or_kept e.baseline_id s) es p.baseline_id
unfolding absorb_all absorb
id_of_all [] p = refl
id_of_all (e ∷ es) p = id_of_all es (absorb e p)

pub status_of_all :
    (es : List BaselineEvent) (p : Projection)
    → (absorb_all es p).status ≡ fold (λ e s. status_after e.event_type s) es p.status
unfolding absorb_all absorb
status_of_all [] p = refl
status_of_all (e ∷ es) p = status_of_all es (absorb e p)

pub expiry_of_all :
    (es : List BaselineEvent) (p : Projection)
    → (absorb_all es p).expires_at ≡ fold (λ e s. or_kept e.expires_at s) es p.expires_at
unfolding absorb_all absorb
expiry_of_all [] p = refl
expiry_of_all (e ∷ es) p = expiry_of_all es (absorb e p)

pub scope_of_all :
    (es : List BaselineEvent) (p : Projection)
    → (absorb_all es p).ownership_scope
      ≡ fold (λ e s. or_kept e.ownership_scope s) es p.ownership_scope
unfolding absorb_all absorb
scope_of_all [] p = refl
scope_of_all (e ∷ es) p = scope_of_all es (absorb e p)

pub last_of_all :
    (es : List BaselineEvent) (p : Projection)
    → (absorb_all es p).last_event_type ≡ fold (λ e s. some e.event_type) es p.last_event_type
unfolding absorb_all absorb
last_of_all [] p = refl
last_of_all (e ∷ es) p = last_of_all es (absorb e p)

pub frozen_of_all :
    (es : List BaselineEvent) (p : Projection)
    → (absorb_all es p).frozen_ ≡ (p.frozen_ || any is_freeze es)
unfolding absorb_all absorb
frozen_of_all [] p = ground arith
frozen_of_all (e ∷ es) p = frozen_of_all es (absorb e p) ∙ by_type e.event_type p.frozen_
  where
    by_type :
        (t : EventType) (b : Bool)
        → (frozen_after t b || any is_freeze es) ≡ (b || (frozen_after t false || any is_freeze es))
    by_type frozen b = ground arith
    by_type proposed b = refl
    by_type approved b = refl
    by_type expired b = refl
    by_type revoked b = refl
    by_type superseded b = refl
    by_type invalid b = refl

-- No event makes a replacement pending.
pending_of_all :
    (es : List BaselineEvent) (p : Projection)
    → p.replacement_pending ≡ false
    → (absorb_all es p).replacement_pending ≡ false
unfolding absorb_all absorb
pending_of_all [] p h = h
pending_of_all (e ∷ es) p h =
    pending_of_all es (absorb e p) (by_type e.event_type p.replacement_pending h)
  where
    by_type : (t : EventType) (b : Bool) → b ≡ false → pending_after t b ≡ false
    by_type superseded b h = refl
    by_type proposed b h = h
    by_type approved b h = h
    by_type frozen b h = h
    by_type expired b h = h
    by_type revoked b h = h
    by_type invalid b h = h

abbrev pub final : List BaselineEvent → Projection
final events = absorb_all events no_projection

module _ (events : List BaselineEvent) (today : String) where
  pub report-answer :
      (baseline_report events today).can_use_for_regression
      ≡ answer
          ((final events).baseline_id === "")
          (final events).status
          (is_past (final events).expires_at today)
          (final events).frozen_
          (final events).last_event_type
          ((final events).ownership_scope === "external")
          false
  unfolding baseline_report reduce_events suspend expire findings_for_projection
  report-answer =
      ap
        (answer ((final events).baseline_id === "") (final events).status
          (is_past (final events).expires_at today) (final events).frozen_
          (final events).last_event_type ((final events).ownership_scope === "external"))
        (pending_of_all events no_projection refl)
