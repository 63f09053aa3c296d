-- ===== src/Store/Transaction/Tests.antt =====
-- Runs of the transaction on small stores.
use harness_auto_test_eviden.Prelude.{
  true, false, none, some, List, [], ◌∷◌, ◌≡◌, refl, ◌⊎◌, All-of, inr, update,
}
use harness_auto_test_eviden.Store.Disk.{
  readable, Journal, empty_staging, Disk, fail, crash, late_crash, recovery_required, Outcome, ok,
  raise, World, Io, write, ◌>>=◌, get_disk, pure, try_except, perform, perform_next, Event, go,
  late_fail,
}
use harness_auto_test_eviden.Store.Transaction.{
  Platform, recover_pending_import, run, enter, set_index, index_names, validate_store_version,
  make_stage, prepare, snapshots, snapshot, run_block, commit, set_committed, discard_committed,
  exit_normal,
}
use harness_auto_test_eviden.Store.Transaction.States.{
  journal_of, fresh, IsRolledBack, IsDone, Follows,
}
use harness_auto_test_eviden.Store.Transaction.Block.{IsFramed, left_by}
use harness_auto_test_eviden.Store.Transaction.Recoveries.{IsIdle, recovered, IsReturned}
use harness_auto_test_eviden.Store.Transaction.Atomicity.{
  recover-restores, run-survives, run-keeps, run-Follows,
}
use harness_auto_test_eviden.Store.Transaction.Refusals.{unknown_state, recover-refuses}

-- A digest that tells the empty file from the others, and an rmtree that removes everything first.
abbrev test_platform : Platform
test_platform = record {
  digest = λ c. elim c [ [] ↦ "empty" | (x ∷ xs) ↦ "full" ];
  torn = λ s. empty_staging;
  torn_journal = λ s. inr refl;
}

abbrev old_disk : Disk
old_disk = record {
  supported = true;
  indexes = update (λ _. none) "runs.jsonl" (some (1 ∷ []));
  runs = λ _. none;
  staged = false;
  staging = empty_staging;
  archived = [];
}

abbrev old_world : World
old_world = record { disk = old_disk; events = []; committed = false }

-- A body that writes one index.
abbrev add_run : Io Unit
add_run = write (set_index "runs.jsonl" (some (1 ∷ 2 ∷ [])))

abbrev add_bundle : Io Unit
add_bundle = write (λ d. record d { runs = update d.runs "run-1" (some (("a", 3 ∷ []) ∷ [])) })

module _ (f : Disk → Disk)
    (keeps : (d : Disk)
      → ((f d).supported ≡ d.supported)
        × ((f d).staged ≡ d.staged)
        × ((f d).staging ≡ d.staging)) where
  abbrev Unchanged : World → Outcome Unit × World → Type 0
  Unchanged w m =
      (m.1.disk.supported ≡ w.disk.supported)
      × (m.1.disk.staged ≡ w.disk.staged)
      × (m.1.disk.staging ≡ w.disk.staging)
      × (m.1.committed ≡ w.committed)

  Unchanged-at : (es : List Event) (w : World) → Unchanged w (perform_next es f f w)
  Unchanged-at [] w = let (a, b, c) = keeps w.disk in (a, b, c, refl)
  Unchanged-at (go ∷ es) w = let (a, b, c) = keeps w.disk in (a, b, c, refl)
  Unchanged-at (fail ∷ es) w = (refl, refl, refl, refl)
  Unchanged-at (crash ∷ es) w = (refl, refl, refl, refl)
  Unchanged-at (late_fail ∷ es) w = let (a, b, c) = keeps w.disk in (a, b, c, refl)
  Unchanged-at (late_crash ∷ es) w = let (a, b, c) = keeps w.disk in (a, b, c, refl)

  quiet_at :
      (es : List Event) (w : World)
      → es ≡ []
      → w.events ≡ []
      → ((perform_next es f f w).1.events ≡ []) × ((perform_next es f f w).0 ≡ ok tt)
  quiet_at [] w n e = (e, refl)
  quiet_at (x ∷ es) w n e = absurd (cc (n))

  write-IsFramed : IsFramed (write f)
  unfolding perform
  write-IsFramed = record {
    supported = λ w. (Unchanged-at w.events w).0;
    staged = λ w. (Unchanged-at w.events w).1;
    staging = λ w. (Unchanged-at w.events w).2;
    committed = λ w. (Unchanged-at w.events w).3;
    events = λ w e. (quiet_at w.events w e e).0;
    alive = λ w e c. absurd (cc (c, (quiet_at w.events w e e).1));
  }

add_run-IsFramed : IsFramed add_run
add_run-IsFramed = write-IsFramed _ (λ d. (refl, refl, refl))

add_bundle-IsFramed : IsFramed add_bundle
add_bundle-IsFramed = write-IsFramed _ (λ d. (refl, refl, refl))

old_disk-IsIdle : IsIdle false "run-1" old_disk
old_disk-IsIdle = record { supported = refl; unstaged = refl; empty = refl }

-- The process dies when the commit is just published, and a first recovery fails.
abbrev dying_world : World
dying_world = record {
  disk = old_disk;
  events = go ∷ go ∷ go ∷ go ∷ late_crash ∷ [];
  committed = false;
}

run-survives_example :
    (let (o, u) =
        recovered test_platform
          ((fail ∷ []) ∷ [])
          (run test_platform false "run-1" add_run dying_world).1 in
      IsReturned o
      × (IsRolledBack test_platform false "run-1" old_disk u.disk
          ⊎ IsDone (left_by test_platform false "run-1" add_run dying_world) u.disk))
run-survives_example =
    run-survives test_platform false "run-1" add_run add_run-IsFramed dying_world old_disk-IsIdle
      ((fail ∷ []) ∷ [])

add_bundle_returns : (run test_platform false "run-1" add_bundle old_world).0 ≡ ok tt
unfolding run enter ◌>>=◌ validate_store_version get_disk pure make_stage perform try_except prepare
    snapshots index_names snapshot run_block commit set_committed discard_committed exit_normal
add_bundle_returns = refl

run-keeps_example :
    (let (o, u) =
        recovered test_platform
          ((crash ∷ []) ∷ [])
          (run test_platform false "run-1" add_bundle old_world).1 in
      IsReturned o × IsDone (left_by test_platform false "run-1" add_bundle old_world) u.disk)
run-keeps_example =
    run-keeps test_platform false "run-1" add_bundle add_bundle-IsFramed old_world old_disk-IsIdle
      add_bundle_returns ((crash ∷ []) ∷ [])

run-Follows_example :
    Follows test_platform false "run-1" old_disk
      (left_by test_platform false "run-1" add_run old_world)
      (add_run (record ((enter test_platform false "run-1" old_world).1) { committed = false })).0
      (run test_platform false "run-1" add_run old_world)
run-Follows_example =
    run-Follows test_platform false "run-1" add_run add_run-IsFramed old_world old_disk-IsIdle refl

-- A stage whose journal was never published.
abbrev fresh_world : World
fresh_world = record { disk = record old_disk { staged = true }; events = []; committed = false }

recover-restores_example :
    (let (o, v) = recovered test_platform ((fail ∷ []) ∷ []) fresh_world in
      IsReturned o × IsRolledBack test_platform false "run-1" old_disk v.disk)
recover-restores_example =
    recover-restores test_platform false "run-1" old_disk refl ((fail ∷ []) ∷ []) fresh_world (
      fresh (record {
        staged = refl;
        journal = refl;
        untouched = record {
          supported = refl;
          indexes = All-of (λ n. refl) index_names;
          bundle = refl;
        };
      }))

-- A readable journal of all seven indexes whose state is neither pending nor committed.
abbrev torn_journal : Journal
torn_journal = record (journal_of test_platform false "run-1" old_disk false) { state = "torn" }

abbrev torn_world : World
torn_world = record fresh_world {
  disk = record (fresh_world.disk) {
    staging = record (old_disk.staging) { journal = some (readable torn_journal) };
  };
}

recover-refuses_example :
    recover_pending_import test_platform torn_world ≡ (raise recovery_required, torn_world)
recover-refuses_example =
    recover-refuses test_platform torn_world (readable torn_journal) refl refl refl
      (unknown_state refl refl)
