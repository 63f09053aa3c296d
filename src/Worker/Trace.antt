-- ===== src/Worker/Trace.antt =====
-- The worker's events as a path in the state machine of a job (runtime_worker.py).
use harness_auto_test_eviden.Prelude.{
  String, Bool, true, false, not, ◌||◌, List, [], ◌∷◌, ◌++◌, ◌≡◌, refl, sym, ap, ◌∙◌, subst, ◌⊎◌,
  inl, inr, ◌===◌, member, if◌then◌else◌, Bool-cases, by_test, arith, eq_iff,
}
use harness_auto_test_eviden.Worker.{
  Naming, JobState, allowed_events, add_artifact, take_lease, apply_worker_event,
  apply_worker_events,
}

-- The moves of a job, one for each pair of the table.
pub data Moves : String → String → Type 0 where
  lease : Moves "queued" "leased"
  drop_queued : Moves "queued" "cancelling"
  start : Moves "leased" "running"
  drop_leased : Moves "leased" "cancelling"
  succeed : Moves "running" "succeeded"
  wait : Moves "running" "retry_wait"
  fail : Moves "running" "failed"
  poison : Moves "running" "poison"
  drop_running : Moves "running" "cancelling"
  requeue : Moves "retry_wait" "queued"
  stop : Moves "cancelling" "cancelled"

-- A path from one status to another, by the statuses that it goes through.
pub data Passes : String → List String → String → Type 0 where
  stay : {s : String} → Passes s [] s
  go_on :
      {s t u : String} {events : List String}
      → Moves s t
      → Passes t events u
      → Passes s (t ∷ events) u

one_of_1 : (e a : String) → member e (a ∷ []) ≡ true → e ≡ a
one_of_1 e a h = ground (arith, eq_iff e a)

one_of_2 : (e a b : String) → member e (a ∷ b ∷ []) ≡ true → (e ≡ a) ⊎ (e ≡ b)
one_of_2 e a b h = elim (Bool-cases (e === a)) [
  | inl t ↦ inl ((eq_iff e a).0 t)
  | inr f ↦ inr (one_of_1 e b (rest (e === a) _ f h))
]
  where
    rest : (x y : Bool) → x ≡ false → (x || y) ≡ true → y ≡ true
    rest x y f h = ground arith

from_queued : (e : String) → member e ("leased" ∷ "cancelling" ∷ []) ≡ true → Moves "queued" e
from_queued e h = elim (one_of_2 e _ _ h) [
  | inl q ↦ subst (Moves "queued") (sym q) lease
  | inr q ↦ subst (Moves "queued") (sym q) drop_queued
]

from_leased : (e : String) → member e ("running" ∷ "cancelling" ∷ []) ≡ true → Moves "leased" e
from_leased e h = elim (one_of_2 e _ _ h) [
  | inl q ↦ subst (Moves "leased") (sym q) start
  | inr q ↦ subst (Moves "leased") (sym q) drop_leased
]

from_running :
    (e : String)
    → member e ("succeeded" ∷ "retry_wait" ∷ "failed" ∷ "poison" ∷ "cancelling" ∷ []) ≡ true
    → Moves "running" e
from_running e h =
    by_tests (e === "succeeded") (e === "retry_wait") (e === "failed")
      (λ t. (eq_iff e "succeeded").0 t) (λ t. (eq_iff e "retry_wait").0 t)
      (λ t. (eq_iff e "failed").0 t) h
  where
    by_tests :
        (a b c : Bool)
        → (a ≡ true → e ≡ "succeeded")
        → (b ≡ true → e ≡ "retry_wait")
        → (c ≡ true → e ≡ "failed")
        → (a || (b || (c || member e ("poison" ∷ "cancelling" ∷ [])))) ≡ true
        → Moves "running" e
    by_tests true b c p q r h = subst (Moves "running") (sym (p refl)) succeed
    by_tests false true c p q r h = subst (Moves "running") (sym (q refl)) wait
    by_tests false false true p q r h = subst (Moves "running") (sym (r refl)) fail
    by_tests false false false p q r h = elim (one_of_2 e _ _ h) [
      | inl q ↦ subst (Moves "running") (sym q) poison
      | inr q ↦ subst (Moves "running") (sym q) drop_running
    ]

-- What the table allows is a move.
allowed-Moves : (s e : String) → member e (allowed_events s) ≡ true → Moves s e
unfolding allowed_events
allowed-Moves s e h =
    by_status (s === "queued") (s === "leased") (s === "running") (s === "retry_wait")
      (s === "cancelling") (λ t. (eq_iff s "queued").0 t) (λ t. (eq_iff s "leased").0 t)
      (λ t. (eq_iff s "running").0 t) (λ t. (eq_iff s "retry_wait").0 t)
      (λ t. (eq_iff s "cancelling").0 t) h
  where
    by_status :
        (a b c d f : Bool)
        → (a ≡ true → s ≡ "queued")
        → (b ≡ true → s ≡ "leased")
        → (c ≡ true → s ≡ "running")
        → (d ≡ true → s ≡ "retry_wait")
        → (f ≡ true → s ≡ "cancelling")
        → member e (
            if a
            then "leased" ∷ "cancelling" ∷ []
            else if b
            then "running" ∷ "cancelling" ∷ []
            else if c
            then "succeeded" ∷ "retry_wait" ∷ "failed" ∷ "poison" ∷ "cancelling" ∷ []
            else if d
            then "queued" ∷ []
            else if f
            then "cancelled" ∷ []
            else [])
          ≡ true
        → Moves s e
    by_status true b c d f p q r u v h = subst (λ s. Moves s e) (sym (p refl)) (from_queued e h)
    by_status false true c d f p q r u v h = subst (λ s. Moves s e) (sym (q refl)) (from_leased e h)
    by_status false false true d f p q r u v h =
        subst (λ s. Moves s e) (sym (r refl)) (from_running e h)
    by_status false false false true f p q r u v h =
        subst (λ s. Moves s e) (sym (u refl))
          (subst (Moves "retry_wait") (sym (one_of_1 e _ h)) requeue)
    by_status false false false false true p q r u v h =
        subst (λ s. Moves s e) (sym (v refl))
          (subst (Moves "cancelling") (sym (one_of_1 e _ h)) stop)
    by_status false false false false false p q r u v h = absurd (cc)

append_nil : (xs : List String) → xs ++ [] ≡ xs
append_nil [] = refl
append_nil (x ∷ xs) = ap (λ ys. x ∷ ys) (append_nil xs)

append_assoc : (xs ys zs : List String) → (xs ++ ys) ++ zs ≡ xs ++ (ys ++ zs)
append_assoc [] ys zs = refl
append_assoc (x ∷ xs) ys zs = ap (λ ys. x ∷ ys) (append_assoc xs ys zs)

not_snoc : (xs : List String) (x : String) → xs ++ x ∷ [] ≡ [] → ⊥
not_snoc [] x h = absurd (cc)
not_snoc (y ∷ xs) x h = absurd (cc)

-- What an event and its side effects leave of the status, the findings and the events.
module _ (naming : Naming) where
  artifact_keeps :
      (b : Bool) (job : JobState) (s r : String)
      → ((add_artifact naming b job s r).status ≡ job.status)
        × ((add_artifact naming b job s r).findings ≡ job.findings)
        × ((add_artifact naming b job s r).worker_events ≡ job.worker_events)
  artifact_keeps true job s r = (refl, refl, refl)
  artifact_keeps false job s r = (refl, refl, refl)

  lease_keeps :
      (b : Bool) (job : JobState)
      → ((take_lease naming b job).status ≡ job.status)
        × ((take_lease naming b job).findings ≡ job.findings)
        × ((take_lease naming b job).worker_events ≡ job.worker_events)
  lease_keeps true job = (refl, refl, refl)
  lease_keeps false job = (refl, refl, refl)

  -- One event: a move that is recorded, or a new finding and the status poison.
  abbrev Takes : JobState → String → JobState → Type 0
  Takes job e after =
      (Moves job.status e
        × (after.status ≡ e)
        × (after.findings ≡ job.findings)
        × (after.worker_events ≡ job.worker_events ++ e ∷ []))
      ⊎ ((after.status ≡ "poison")
          × (after.findings ≡ job.findings ++ "worker_invalid_transition" ∷ [])
          × (after.worker_events ≡ job.worker_events))

  event-Takes : (job : JobState) (e : String) → Takes job e (apply_worker_event naming job e)
  unfolding apply_worker_event
  event-Takes job e =
      by_test (Takes job e) (not (member e (allowed_events job.status))) _ _
        (λ n. inr (refl, refl, refl))
        (λ y.
          let moved = record job { status = e; worker_events = job.worker_events ++ e ∷ [] } in
          let leased = take_lease naming (e === "leased") moved in
          let (a, b, c) = artifact_keeps (e === "succeeded") leased "safe" "standard" in
          let (a', b', c') = lease_keeps (e === "leased") moved in
          inl (allowed-Moves job.status e (true_of_not _ y), a ∙ a', b ∙ b', c ∙ c'))
    where
      true_of_not : (b : Bool) → not b ≡ false → b ≡ true
      true_of_not b h = ground arith

  -- Findings are never taken back.
  pub events_clean :
      (job : JobState) (events : List String)
      → (apply_worker_events naming job events).findings ≡ []
      → job.findings ≡ []
  unfolding apply_worker_events
  events_clean job [] h = h
  events_clean job (e ∷ es) h =
      let clean = events_clean (apply_worker_event naming job e) es h in
      elim (event-Takes job e) [
        | inl (_, _, kept, _) ↦ sym kept ∙ clean
        | inr (_, found, _) ↦ absurd (not_snoc job.findings _ (sym found ∙ clean))
      ]

  -- Where a run of events ends without a finding, it is a path of moves through all of them, from
  -- the status of the job to the status that it ends in, and all of them are recorded.
  pub events-Passes :
      (job : JobState) (events : List String)
      → (apply_worker_events naming job events).findings ≡ []
      → Passes job.status events (apply_worker_events naming job events).status
        × ((apply_worker_events naming job events).worker_events ≡ job.worker_events ++ events)
  unfolding apply_worker_events
  events-Passes job [] h = (stay, sym (append_nil job.worker_events))
  events-Passes job (e ∷ es) h =
      let (path, recorded) = events-Passes (apply_worker_event naming job e) es h in
      elim (event-Takes job e) [
        | inl (move, status, _, events) ↦ (
          go_on move (
              subst
                (λ s.
                  Passes s es
                    (apply_worker_events naming (apply_worker_event naming job e) es).status)
                status path),
          recorded ∙ ap (λ xs. xs ++ es) events ∙ append_assoc job.worker_events (e ∷ []) es,
        )
        | inr (_, found, _) ↦ absurd (
            not_snoc job.findings _
              (sym found ∙ events_clean (apply_worker_event naming job e) es h))
      ]
