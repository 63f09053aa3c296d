-- ===== src/Store/Transaction/Atomic.antt =====
-- The commit and the error path of __exit__ (transaction.py), as triples from the state that the
-- body leaves.
use harness_auto_test_eviden.Prelude.{
  String, Bool, true, false, some, List, [], ◌∷◌, ◌≡◌, refl, ◌⊎◌, inl, inr, sym, subst,
}
use harness_auto_test_eviden.Store.Disk.{
  readable, Disk, Event, go, fail, crash, late_fail, late_crash, Error, version_error,
  invalid_journal, recovery_required, durability_uncertain, incomplete_bundle, not_committed,
  import_failed, io_error, World, ◌>>=◌, ◌>>◌, throw, try_except, perform,
}
use harness_auto_test_eviden.Store.Disk.Triples.{
  IsQuiet, Post, Hoare, Triple, Triple-pure, Triple-throw, Triple-if, Triple-try, Triple-weaken,
  Triple-bind, Triple-get, Triple-perform,
}
use harness_auto_test_eviden.Store.Transaction.{
  Platform, validate_store_version, recover_pending_import, commit_failed, failure_unsaved,
  write_journal, set_committed, commit, record_failure,
}
use harness_auto_test_eviden.Store.Transaction.States.{
  journal_of, IsPending, IsRecoverable, IsRolledBack, pending, StartsEmpty, IsKept,
}
use harness_auto_test_eviden.Store.Transaction.Recovery.{recover-Triple}
use harness_auto_test_eviden.Store.Transaction.Bundles.{Broken}
use harness_auto_test_eviden.Store.Transaction.Enter.{IsEntered, IsEntered-IsPending}
use harness_auto_test_eviden.Store.Transaction.Commit.{
  journal_done, IsCommitted, Discarded, discard_flagged,
}

module _ (p : Platform) (index_only : Bool) (dir : String) (before after : Disk) (quiet : Bool)
    (start : StartsEmpty index_only (before.runs dir)) (supported : before.supported ≡ true)
    (unstaged : before.staged ≡ false) where
  abbrev pub Recoverable : World → Type 0
  Recoverable w = IsRecoverable p index_only dir before w.disk

  abbrev pub Committed : World → Type 0
  Committed w = IsCommitted p index_only dir before after quiet w.disk

  -- The body is done, and nothing is committed yet.
  pub record IsReady (w : World) : Type 0 where
    pub entered : IsEntered p index_only dir before quiet start supported unstaged w.disk
    pub kept : IsKept after w.disk
    pub open_still : w.committed ≡ false

  pub Ready-Recoverable : (w : World) → IsReady w → Recoverable w
  Ready-Recoverable w h =
      pending (
        IsEntered-IsPending p index_only dir before quiet start supported unstaged w.disk h.entered)

  -- An error of the commit: either it was published and the flag says so, or the transaction is open.
  abbrev pub CommitRaised : World → Type 0
  CommitRaised w = (quiet ≡ false) × ((Committed w × (w.committed ≡ true)) ⊎ IsReady w)

  abbrev pub CommitDied : World → Type 0
  CommitDied w = (quiet ≡ false) × (Recoverable w ⊎ Committed w)

  published_disk :
      (w : World) (es : List Event)
      → IsReady w
      → Committed (record w {
        disk = record (w.disk) {
          staging = record (w.disk.staging) {
            journal = some (readable (journal_done p index_only dir before after quiet));
          };
        };
        events = es;
      })
  published_disk w es h = record {
    kept = record { supported = h.kept.supported; indexes = h.kept.indexes; runs = h.kept.runs };
    journal = inr (inr refl);
  }

  -- The write of the committed journal, at each event.
  publish_at :
      (b : Bool) (es : List Event) (w : World)
      → quiet ≡ b
      → w.events ≡ es
      → IsQuiet quiet w
      → IsReady w
      → (let m =
            try_except
              (write_journal (journal_done p index_only dir before after quiet))
              commit_failed in
          IsQuiet quiet (m w).1 × Post (λ _ w. Committed w) CommitRaised CommitDied (m w).0 (m w).1)
  unfolding try_except perform set_committed throw ◌>>=◌
  publish_at b [] w eb ee z h = rw ee ((λ _. refl), published_disk w [] h)
  publish_at true (e ∷ es) w eb ee z h = absurd (cc (z eb))
  publish_at false (go ∷ es) w eb ee z h = rw ee ((λ t. absurd (cc)), published_disk w es h)
  publish_at false (fail ∷ es) w eb ee z h = rw ee (
    (λ t. absurd (cc)),
    (eb, inr (record { entered = h.entered; kept = h.kept; open_still = h.open_still })),
  )
  publish_at false (crash ∷ es) w eb ee z h =
      rw ee ((λ t. absurd (cc)), (eb, inl (Ready-Recoverable w h)))
  publish_at false (late_fail ∷ es) w eb ee z h =
      rw ee ((λ t. absurd (cc)), (eb, inl (published_disk w es h, refl)))
  publish_at false (late_crash ∷ es) w eb ee z h =
      rw ee ((λ t. absurd (cc)), (eb, inr (published_disk w es h)))

  set_committed-Committed :
      Hoare quiet Committed set_committed
        (λ _ w. Committed w × (w.committed ≡ true))
        CommitRaised
        CommitDied
  unfolding set_committed
  set_committed-Committed = record { at = λ w z h. (z, (h, refl)) }

  pub commit-Hoare :
      Hoare quiet IsReady
        (commit p (journal_of p index_only dir before false))
        (λ _ w. Discarded p index_only dir before after quiet w × (w.committed ≡ true))
        CommitRaised
        CommitDied
  unfolding commit validate_store_version
  commit-Hoare =
      Triple-bind {Q = λ _. IsReady} _ _
        (Triple-get _ (λ w h.
          Triple-if w.disk.supported _ _ (λ t. Triple-pure tt (λ w' q. subst IsReady (sym q) h))
            (λ n. absurd (cc (h.kept.supported)))))
        (λ _.
          Triple-bind {Q = λ _. Committed} _ _
            (record { at = λ w z h. publish_at quiet w.events w refl refl z h })
            (λ _. Triple-bind _ _ set_committed-Committed (λ _.
              Triple-weaken _ (discard_flagged p index_only dir before after quiet true) (λ w h. h)
                (λ _ w h. h) (λ w h. (h.0.0, inl (h.0.1, h.1))) (λ w h. (h.0.0, inr h.0.1)))))

  -- An error before the commit, with the journal still pending.
  abbrev Unsaved : World → Type 0
  Unsaved w = (quiet ≡ false) × IsPending p index_only dir before w.disk

  abbrev Saved : World → Type 0
  Saved w = IsPending p index_only dir before w.disk

  Unsaved-Broken : (w : World) → Unsaved w → Broken p index_only dir before quiet w
  Unsaved-Broken w h = (h.0, pending h.1)

  failure_unsaved-Saved :
      (e : Error)
      → Triple quiet Unsaved (failure_unsaved e) (λ _. Saved) (Broken p index_only dir before quiet)
  failure_unsaved-Saved (io_error b) = Triple-pure tt (λ w h. h.1)
  failure_unsaved-Saved version_error = Triple-throw _ Unsaved-Broken
  failure_unsaved-Saved invalid_journal = Triple-throw _ Unsaved-Broken
  failure_unsaved-Saved recovery_required = Triple-throw _ Unsaved-Broken
  failure_unsaved-Saved durability_uncertain = Triple-throw _ Unsaved-Broken
  failure_unsaved-Saved incomplete_bundle = Triple-throw _ Unsaved-Broken
  failure_unsaved-Saved not_committed = Triple-throw _ Unsaved-Broken
  failure_unsaved-Saved import_failed = Triple-throw _ Unsaved-Broken

  failure-Saved :
      (w : World) (es : List Event)
      → IsReady w
      → Saved (record w {
        disk = record (w.disk) {
          staging = record (w.disk.staging) {
            journal = some (readable (journal_of p index_only dir before true));
          };
        };
        events = es;
      })
  failure-Saved w es h =
      let q =
        IsEntered-IsPending p index_only dir before quiet start supported unstaged w.disk
          h.entered in
      record {
        supported = q.supported;
        staged = q.staged;
        failed = true;
        journal = refl;
        backups = q.backups;
        bundle = q.bundle;
      }

  record_failure-Saved :
      Triple quiet IsReady
        (record_failure p (journal_of p index_only dir before false))
        (λ _. Saved)
        (Broken p index_only dir before quiet)
  unfolding record_failure
  record_failure-Saved =
      Triple-try {R = Unsaved} _ _
        (Triple-weaken _
          (Triple-perform quiet IsReady Saved Unsaved _ _ failure-Saved
            (λ f w es h. (
              f,
              IsEntered-IsPending p index_only dir before quiet start supported unstaged w.disk
                  h.entered,
            ))
            (λ f w es h. (f, failure-Saved w es h)))
          (λ w h. h) (λ _ w h. h) (λ w h. h) Unsaved-Broken)
        failure_unsaved-Saved

  -- __exit__ of an open transaction with an error: recorded, rolled back, raised again.
  pub exit_open :
      (e : Error)
      → Hoare quiet IsReady
          (do
            validate_store_version
            record_failure p (journal_of p index_only dir before false)
            recover_pending_import p
            throw {A = Unit} e)
          (λ _ _. ⊥)
          (λ w.
            IsRolledBack p index_only dir before w.disk ⊎ Broken p index_only dir before quiet w)
          (Broken p index_only dir before quiet)
  unfolding validate_store_version
  exit_open e =
      Triple-bind {Q = λ _. IsReady} _ _
        (Triple-get _ (λ w h.
          Triple-if w.disk.supported _ _ (λ t. Triple-pure tt (λ w' q. subst IsReady (sym q) h))
            (λ n. absurd (cc (h.kept.supported)))))
        (λ _.
          Triple-bind _ _
            (Triple-weaken _ record_failure-Saved (λ w h. h) (λ _ w h. h) (λ w b. inr b) (λ w b. b))
            (λ _.
              Triple-bind _ _
                (Triple-weaken _ (recover-Triple p index_only dir before quiet start)
                  (λ w h. pending h) (λ _ w h. h) (λ w b. inr b) (λ w b. b))
                (λ _. Triple-throw e (λ w r. inl r))))
