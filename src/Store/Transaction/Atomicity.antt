-- ===== src/Store/Transaction/Atomicity.antt =====
-- What a transaction promises (transaction.py), under every schedule of failures and deaths, and
-- through every number of recoveries that are broken off themselves.
use harness_auto_test_eviden.Prelude.{
  String, Bool, true, false, List, [], ◌≡◌, refl, ◌⊎◌, inl, inr, subst,
}
use harness_auto_test_eviden.Store.Disk.{Disk, Event, Outcome, ok, raise, crashed, World, Io}
use harness_auto_test_eviden.Store.Disk.Triples.{Post}
use harness_auto_test_eviden.Store.Transaction.{Platform, run, enter}
use harness_auto_test_eviden.Store.Transaction.States.{
  IsRecoverable, IsRolledBack, rolled_back, StartsEmpty, IsDone, Follows,
}
use harness_auto_test_eviden.Store.Transaction.Commit.{IsCommitted, Discarded}
use harness_auto_test_eviden.Store.Transaction.Block.{
  IsFramed, left_by, Died, Undone, run-Ends, whole-Follows,
}
use harness_auto_test_eviden.Store.Transaction.Recoveries.{
  IsIdle, recovered, IsReturned, recovered-RolledBack, recovered-Done,
}

-- From every state in which a pending transaction or its recovery can have been broken off, any
-- number of recoveries, each under any schedule of failures and deaths, followed by one that no
-- failure disturbs: the last one returns, no stage is left, and every index is as it was before the
-- transaction, and so is the bundle directory unless the transaction is on the indexes only.
pub recover-restores :
    (p : Platform) (index_only : Bool) (dir : String) (before : Disk)
    → StartsEmpty index_only (before.runs dir)
    → (schedules : List (List Event)) (w : World) → IsRecoverable p index_only dir before w.disk
    → (let (o, v) = recovered p schedules w in
        IsReturned o × IsRolledBack p index_only dir before v.disk)
recover-restores p index_only dir before start schedules w h =
    recovered-RolledBack p index_only dir before before start schedules w h

module _ (p : Platform) (index_only : Bool) (dir : String) (body : Io Unit) (framed : IsFramed body)
    (w : World) (idle : IsIdle index_only dir w.disk) where
  abbrev left : Disk
  left = left_by p index_only dir body w

  abbrev UndoneHere : World → Type 0
  UndoneHere =
      Undone p index_only dir w.disk false idle.empty idle.supported idle.unstaged body framed left

  abbrev Finishes : List (List Event) → World → Type 0
  Finishes schedules v =
      let (o, u) = recovered p schedules v in
      IsReturned o × (IsRolledBack p index_only dir w.disk u.disk ⊎ IsDone left u.disk)

  committed-Finishes :
      (schedules : List (List Event)) (v : World)
      → IsCommitted p index_only dir w.disk left false v.disk
      → Finishes schedules v
  committed-Finishes schedules v h =
      let (r, d) = recovered-Done p index_only dir w.disk left idle.empty schedules v h in
      (r, inr d)

  recoverable-Finishes :
      (schedules : List (List Event)) (v : World)
      → IsRecoverable p index_only dir w.disk v.disk
      → Finishes schedules v
  recoverable-Finishes schedules v h =
      let (r, d) = recovered-RolledBack p index_only dir w.disk left idle.empty schedules v h in
      (r, inl d)

  undone-Finishes :
      (schedules : List (List Event)) (v : World) → UndoneHere v → Finishes schedules v
  undone-Finishes schedules v (inl r) = recoverable-Finishes schedules v (rolled_back r)
  undone-Finishes schedules v (inr (f, inl r)) = recoverable-Finishes schedules v r
  undone-Finishes schedules v (inr (f, inr c)) = committed-Finishes schedules v c

  abbrev DiedHere : World → Type 0
  DiedHere =
      Died p index_only dir w.disk false idle.empty idle.supported idle.unstaged body framed left

  ended :
      (schedules : List (List Event)) (o : Outcome Unit) (v : World)
      → Post (λ _. Discarded p index_only dir w.disk left false) UndoneHere DiedHere o v
      → Finishes schedules v
  ended schedules (ok _) v h = committed-Finishes schedules v h.0
  ended schedules (raise e) v h = undone-Finishes schedules v h
  ended schedules crashed v h = undone-Finishes schedules v (inr h)

-- A transaction on an idle store, under any schedule of failures and deaths, then any number of
-- recoveries, each under any schedule, then one that no failure disturbs: the last recovery
-- returns with no stage left, and either every index, and the bundle directory unless the
-- transaction is on the indexes only, is as before the transaction, or all indexes and bundles are
-- as the body left them.
pub run-survives :
    (p : Platform) (index_only : Bool) (dir : String) (body : Io Unit)
    → IsFramed body
    → (w : World) → IsIdle index_only dir w.disk
    → (schedules : List (List Event))
    → (let (o, u) = recovered p schedules (run p index_only dir body w).1 in
        IsReturned o
        × (IsRolledBack p index_only dir w.disk u.disk
            ⊎ IsDone (left_by p index_only dir body w) u.disk))
run-survives p index_only dir body framed w idle schedules =
    ended p index_only dir body framed w idle schedules _ _
      (run-Ends p index_only dir w.disk false idle.empty idle.supported idle.unstaged body framed w
        (λ t. absurd (cc)) refl).1

-- Where the transaction statement returns without an error, whatever failed inside it, every later
-- sequence of recoveries keeps the indexes and bundles that the body left.
pub run-keeps :
    (p : Platform) (index_only : Bool) (dir : String) (body : Io Unit)
    → IsFramed body
    → (w : World) → IsIdle index_only dir w.disk
    → (run p index_only dir body w).0 ≡ ok tt
    → (schedules : List (List Event))
    → (let (o, u) = recovered p schedules (run p index_only dir body w).1 in
        IsReturned o × IsDone (left_by p index_only dir body w) u.disk)
run-keeps p index_only dir body framed w idle e schedules =
    recovered-Done p index_only dir w.disk (left_by p index_only dir body w) idle.empty schedules _
      (subst
        (λ o.
          Post (λ _. Discarded p index_only dir w.disk (left_by p index_only dir body w) false)
            (UndoneHere p index_only dir body framed w idle)
            (DiedHere p index_only dir body framed w idle) o (run p index_only dir body w).1)
        e
        (run-Ends p index_only dir w.disk false idle.empty idle.supported idle.unstaged body framed
          w (λ t. absurd (cc)) refl).1).0

-- Where no event fails, the transaction on an idle store returns if its body returns, with the
-- body's indexes and bundles and no stage; and if its body raises, it raises with no stage and
-- every index, and the bundle directory unless the transaction is on the indexes only, as before.
-- It never dies.
pub run-Follows :
    (p : Platform) (index_only : Bool) (dir : String) (body : Io Unit) (framed : IsFramed body)
    (w : World) (idle : IsIdle index_only dir w.disk)
    → w.events ≡ []
    → Follows p index_only dir w.disk
        (left_by p index_only dir body w)
        (body (record ((enter p index_only dir w).1) { committed = false })).0
        (run p index_only dir body w)
run-Follows p index_only dir body framed w idle e =
    whole-Follows p index_only dir w.disk true idle.empty idle.supported idle.unstaged body framed w
      refl e refl
