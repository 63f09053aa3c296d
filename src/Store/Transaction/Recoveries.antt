-- ===== src/Store/Transaction/Recoveries.antt =====
-- Any number of recoveries of a broken-off transaction, each under its own schedule (transaction.py).
use harness_auto_test_eviden.Prelude.{String, Bool, true, false, List, [], ◌∷◌, ◌≡◌, refl}
use harness_auto_test_eviden.Store.Disk.{Disk, Event, Outcome, ok, raise, crashed, World}
use harness_auto_test_eviden.Store.Disk.Triples.{Post}
use harness_auto_test_eviden.Store.Transaction.{Platform, recover_pending_import}
use harness_auto_test_eviden.Store.Transaction.States.{
  IsRecoverable, IsRolledBack, rolled_back, StartsEmpty, IsDone,
}
use harness_auto_test_eviden.Store.Transaction.Recovery.{recover-Triple}
use harness_auto_test_eviden.Store.Transaction.Bundles.{Broken}
use harness_auto_test_eviden.Store.Transaction.Commit.{
  IsCommitted, Discarded, Retained, recover-Discarded,
}

-- A store with no pending transaction, ready for the import.
pub record IsIdle (index_only : Bool) (dir : String) (d : Disk) : Type 0 where
  pub supported : d.supported ≡ true
  pub unstaged : d.staged ≡ false
  pub empty : StartsEmpty index_only (d.runs dir)

-- One recovery for each schedule, whatever it comes to.
unfoldable pub recoveries : Platform → List (List Event) → World → World
recoveries p [] w = w
recoveries p (es ∷ rest) w =
    recoveries p rest (recover_pending_import p (record w { events = es })).1

-- The recovery that no event disturbs, after those of the schedules.
unfoldable pub recovered : Platform → List (List Event) → World → Outcome Bool × World
recovered p schedules w =
    recover_pending_import p (record (recoveries p schedules w) { events = [] })

abbrev pub IsReturned : Outcome Bool → Type 0
IsReturned (ok _) = Unit
IsReturned _ = ⊥

module _ (p : Platform) (index_only : Bool) (dir : String) (before after : Disk)
    (start : StartsEmpty index_only (before.runs dir)) where
  abbrev CanRecover : Disk → Type 0
  CanRecover d = IsRecoverable p index_only dir before d

  abbrev WasCommitted : Disk → Type 0
  WasCommitted d = IsCommitted p index_only dir before after false d

  rolled :
      (o : Outcome Bool) (w : World)
      → Post
          (λ _ w. IsRolledBack p index_only dir before w.disk)
          (Broken p index_only dir before false)
          (Broken p index_only dir before false)
          o
          w
      → CanRecover w.disk
  rolled (ok _) w h = rolled_back h
  rolled (raise e) w h = h.1
  rolled crashed w h = h.1

  recoveries-CanRecover :
      (schedules : List (List Event)) (w : World)
      → CanRecover w.disk
      → CanRecover (recoveries p schedules w).disk
  unfolding recoveries
  recoveries-CanRecover [] w h = h
  recoveries-CanRecover (es ∷ rest) w h = recoveries-CanRecover rest _ (
      rolled _ _
        ((recover-Triple p index_only dir before false start).at (record w { events = es })
          (λ t. absurd (cc)) h).1)

  returned :
      (o : Outcome Bool) (w : World)
      → Post
          (λ _ w. IsRolledBack p index_only dir before w.disk)
          (Broken p index_only dir before true)
          (Broken p index_only dir before true)
          o
          w
      → IsReturned o × IsRolledBack p index_only dir before w.disk
  returned (ok _) w h = (tt, h)
  returned (raise e) w h = absurd (cc (h.0))
  returned crashed w h = absurd (cc (h.0))

  pub recovered-RolledBack :
      (schedules : List (List Event)) (w : World)
      → CanRecover w.disk
      → (let (o, v) = recovered p schedules w in
          IsReturned o × IsRolledBack p index_only dir before v.disk)
  unfolding recovered
  recovered-RolledBack schedules w h =
      returned _ _
        ((recover-Triple p index_only dir before true start).at
          (record (recoveries p schedules w) { events = [] }) (λ _. refl)
          (recoveries-CanRecover schedules w h)).1

  kept :
      (o : Outcome Bool) (w : World)
      → Post
          (λ _. Discarded p index_only dir before after false)
          (Retained p index_only dir before after false)
          (Retained p index_only dir before after false)
          o
          w
      → WasCommitted w.disk
  kept (ok _) w h = h.0
  kept (raise e) w h = h.1
  kept crashed w h = h.1

  recoveries-WasCommitted :
      (schedules : List (List Event)) (w : World)
      → WasCommitted w.disk
      → WasCommitted (recoveries p schedules w).disk
  unfolding recoveries
  recoveries-WasCommitted [] w h = h
  recoveries-WasCommitted (es ∷ rest) w h = recoveries-WasCommitted rest _ (
      kept _ _
        ((recover-Discarded p index_only dir before after false).at (record w { events = es })
          (λ t. absurd (cc)) h).1)

  finished :
      (o : Outcome Bool) (w : World)
      → Post
          (λ _. Discarded p index_only dir before after true)
          (Retained p index_only dir before after true)
          (Retained p index_only dir before after true)
          o
          w
      → IsReturned o × IsDone after w.disk
  finished (ok _) w h = (tt, h.1 refl)
  finished (raise e) w h = absurd (cc (h.0))
  finished crashed w h = absurd (cc (h.0))

  pub recovered-Done :
      (schedules : List (List Event)) (w : World)
      → WasCommitted w.disk
      → (let (o, v) = recovered p schedules w in IsReturned o × IsDone after v.disk)
  unfolding recovered
  recovered-Done schedules w h =
      let c = recoveries-WasCommitted schedules w h in
      finished _ _
        ((recover-Discarded p index_only dir before after true).at
          (record (recoveries p schedules w) { events = [] }) (λ _. refl)
          (record { kept = c.kept; journal = c.journal })).1
