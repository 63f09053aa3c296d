-- ===== src/Store/Transaction/Recovery.antt =====
-- What a recovery (recover_pending_import) does from every state in which a transaction or an
-- earlier recovery can have been broken off.
use harness_auto_test_eviden.Prelude.{
  String, Bool, true, false, Option, List, ◌≡◌, refl, sym, subst,
}
use harness_auto_test_eviden.Store.Disk.{JournalFile, readable, Disk, Event, World}
use harness_auto_test_eviden.Store.Disk.Triples.{
  Triple, Triple-pure, Triple-throw, Triple-if, Triple-try, Triple-weaken, Triple-bind,
  Triple-pure-bind, Triple-get, Triple-perform,
}
use harness_auto_test_eviden.Store.Transaction.{
  Platform, index_names, validate_store_version, archive, read_journal, set_index, restore,
  recover_journal, recover_stage, recover_pending_import,
}
use harness_auto_test_eviden.Store.Transaction.Loops.{verify_all, restore-All, journal_of-valid}
use harness_auto_test_eviden.Store.Transaction.States.{
  journal_of, IsPending, IsUntouched, IsFresh, IsRolledBack, IsRecoverable, pending, fresh,
  rolled_back, StartsEmpty,
}
use harness_auto_test_eviden.Store.Transaction.Bundles.{
  Broken, Pending, broken, Moved, quarantine-Moved, restore_bundle-Back,
}

module _ (p : Platform) (index_only : Bool) (dir : String) (before : Disk) (quiet : Bool)
    (start : StartsEmpty index_only (before.runs dir)) where
  abbrev RolledBack : World → Type 0
  RolledBack w = IsRolledBack p index_only dir before w.disk

  archive-RolledBack :
      {P : World → Type 0}
      → ((w : World) → P w → IsUntouched p index_only dir before w.disk)
      → (quiet ≡ false → (w : World) → P w → IsRecoverable p index_only dir before w.disk)
      → Triple quiet P archive (λ _. RolledBack) (Broken p index_only dir before quiet)
  unfolding archive
  archive-RolledBack {P} back safe =
      Triple-bind _ _
        (Triple-perform quiet P RolledBack (Broken p index_only dir before quiet) _ _
          (λ w es h.
            let u = back w h in
            record {
              unstaged = refl;
              untouched = record {
                supported = u.supported;
                indexes = u.indexes;
                bundle = u.bundle;
              };
            })
          (λ f w es h. (f, safe f w h)) (λ f w es h. (f, safe f w h)))
        (λ _. Triple-pure true (λ w r. r))

  -- A pending transaction stays pending when a snapshot is put back.
  keep_index :
      (n : String) (w : World) (es : List Event)
      → Pending p index_only dir before quiet w
      → Pending p index_only dir before quiet
          (record w { disk = set_index n (before.indexes n) w.disk; events = es })
  keep_index n w es h = record {
    supported = h.supported;
    staged = h.staged;
    failed = h.failed;
    journal = h.journal;
    backups = h.backups;
    bundle = h.bundle;
  }

  restore-RolledBack :
      (failed : Bool)
      → Triple quiet
          (Pending p index_only dir before quiet)
          (restore p (journal_of p index_only dir before failed))
          (λ _. RolledBack)
          (Broken p index_only dir before quiet)
  unfolding restore
  restore-RolledBack failed =
      Triple-bind _ _ (verify_all p before.indexes quiet _ _ index_names (λ w h. h.backups)) (λ _.
        Triple-bind _ _ (quarantine-Moved p dir before quiet failed index_only) (λ _.
          Triple-bind _ _
            (restore-All p before.indexes quiet _ (Moved p index_only dir before quiet) index_names
              (λ n w es m. (keep_index n w es m.0, m.1))
              (λ f w es m. broken p index_only dir before quiet f w es m.0) (λ w m. m.0.backups))
            (λ _.
              Triple-bind _ _ (restore_bundle-Back p dir before quiet failed index_only start) (λ _.
                archive-RolledBack
                  (λ w h. record { supported = h.0.supported; indexes = h.1; bundle = h.2 })
                  (λ f w h. pending h.0)))))

  recover_journal-RolledBack :
      (failed : Bool)
      → Triple quiet
          (Pending p index_only dir before quiet)
          (recover_journal p (readable (journal_of p index_only dir before failed)))
          (λ _. RolledBack)
          (Broken p index_only dir before quiet)
  unfolding recover_journal read_journal
  recover_journal-RolledBack failed =
      rw (journal_of-valid p dir before "pending" refl index_only failed)
        (Triple-pure-bind _ _ (restore-RolledBack failed))

  abbrev Recovers : World → Option JournalFile → Type 0
  Recovers w o =
      Triple quiet (λ w'. w' ≡ w) (recover_stage p o) (λ _. RolledBack)
        (Broken p index_only dir before quiet)

  recover_pending :
      (w : World) → IsPending p index_only dir before w.disk → Recovers w w.disk.staging.journal
  unfolding recover_stage
  recover_pending w h = subst (Recovers w) (sym h.journal) (
      Triple-weaken _ (recover_journal-RolledBack h.failed) (λ w' e. rw e h) (λ _ w' r. r)
        (λ w' b. b) (λ w' b. b))

  recover_fresh :
      (w : World) → IsFresh p index_only dir before w.disk → Recovers w w.disk.staging.journal
  unfolding recover_stage
  recover_fresh w h =
      subst (Recovers w) (sym h.journal)
        (archive-RolledBack (λ w' e. rw e h.untouched) (λ f w' e. rw e (fresh h)))

  IsRecoverable-supported :
      (d : Disk) → IsRecoverable p index_only dir before d → d.supported ≡ true
  IsRecoverable-supported d (pending h) = h.supported
  IsRecoverable-supported d (fresh h) = h.untouched.supported
  IsRecoverable-supported d (rolled_back h) = h.untouched.supported

  recover_staged :
      (w : World)
      → w.disk.staged ≡ true
      → IsRecoverable p index_only dir before w.disk
      → Recovers w w.disk.staging.journal
  recover_staged w e (pending h) = recover_pending w h
  recover_staged w e (fresh h) = recover_fresh w h
  recover_staged w e (rolled_back h) = absurd (cc (h.unstaged))

  recover_unstaged :
      (w : World)
      → w.disk.staged ≡ false
      → IsRecoverable p index_only dir before w.disk
      → RolledBack w
  recover_unstaged w e (pending h) = absurd (cc (h.staged))
  recover_unstaged w e (fresh h) = absurd (cc (h.staged))
  recover_unstaged w e (rolled_back h) = h

  validate-Triple :
      Triple quiet
        (λ w. IsRecoverable p index_only dir before w.disk)
        validate_store_version
        (λ _ w. IsRecoverable p index_only dir before w.disk)
        (Broken p index_only dir before quiet)
  unfolding validate_store_version
  validate-Triple = Triple-get _ (λ w h.
      Triple-if w.disk.supported _ _ (λ t. Triple-pure tt (λ w' e. rw e h))
        (λ n. absurd (cc (IsRecoverable-supported w.disk h))))

  -- A recovery that returns has rolled back, and one that is broken off can be repeated.
  pub recover-Triple :
      Triple quiet
        (λ w. IsRecoverable p index_only dir before w.disk)
        (recover_pending_import p)
        (λ _. RolledBack)
        (Broken p index_only dir before quiet)
  unfolding recover_pending_import
  recover-Triple = Triple-bind _ _ validate-Triple (λ _. Triple-get _ (λ w h.
      Triple-if w.disk.staged _ _
        (λ t. Triple-try _ _ (recover_staged w t h) (λ e. Triple-throw _ (λ w b. b)))
        (λ n. Triple-pure false (λ w' e. rw e (recover_unstaged w n h)))))
