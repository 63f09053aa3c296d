-- ===== src/Store/Transaction/Commit.antt =====
-- The states after a published commit (transaction.py), and the removal and the recovery from them.
use harness_auto_test_eviden.Prelude.{
  String, Bool, true, false, Option, none, some, List, ◌≡◌, refl, ◌⊎◌, inl, inr, sym, subst, ◌∙◌,
}
use harness_auto_test_eviden.Store.Disk.{
  Journal, JournalFile, readable, Staging, empty_staging, Disk, World,
}
use harness_auto_test_eviden.Store.Disk.Triples.{
  Triple, Triple-pure, Triple-throw, Triple-if, Triple-try, Triple-weaken, Triple-bind, Triple-get,
  Triple-perform, Triple-pure-bind,
}
use harness_auto_test_eviden.Store.Transaction.{
  Platform, validate_store_version, read_journal, archive, discard_committed, recover_journal,
  recover_stage, recover_pending_import,
}
use harness_auto_test_eviden.Store.Transaction.Loops.{journal_of-valid}
use harness_auto_test_eviden.Store.Transaction.States.{journal_of, IsKept, IsDone}

-- The commit is published: the journal says so, or a broken-off removal has taken it away.
module _ (p : Platform) (index_only : Bool) (dir : String) (before after : Disk)
    (quiet : Bool) where
  abbrev pub journal_done : Journal
  journal_done = record (journal_of p index_only dir before false) { state = "committed" }

  pub record IsCommitted (d : Disk) : Type 0 where
    pub kept : IsKept after d
    pub journal :
        (d.staged ≡ false)
        ⊎ ((d.staging.journal ≡ none) ⊎ (d.staging.journal ≡ some (readable journal_done)))

  -- The end of a removal that may fail with a warning.
  abbrev pub Discarded : World → Type 0
  Discarded w = IsCommitted w.disk × (quiet ≡ true → IsDone after w.disk)

  abbrev pub Retained : World → Type 0
  Retained w = (quiet ≡ false) × IsCommitted w.disk

  abbrev Ends : World → Option JournalFile → Type 0
  Ends w o = Triple quiet (λ w'. w' ≡ w) (recover_stage p o) (λ _. Discarded) Retained

  torn-IsCommitted :
      (d : Disk) → IsCommitted d → IsCommitted (record d { staging = p.torn d.staging })
  torn-IsCommitted d h = record {
    kept = kept_still;
    journal = elim h.journal [
      | inl u ↦ inl u
      | inr (inl n) ↦ elim (p.torn_journal d.staging) [
        | inl same ↦ inr (inl (same ∙ n))
        | inr gone ↦ inr (inl gone)
      ]
      | inr (inr c) ↦ elim (p.torn_journal d.staging) [
        | inl same ↦ inr (inr (same ∙ c))
        | inr gone ↦ inr (inl gone)
      ]
    ];
  }
    where
      kept_still : IsKept after (record d { staging = p.torn d.staging })
      kept_still = record {
        supported = h.kept.supported;
        indexes = h.kept.indexes;
        runs = h.kept.runs;
      }

  unstaged-IsDone :
      (d : Disk) (archived : List Staging)
      → IsKept after d
      → IsDone after (record d { staged = false; staging = empty_staging; archived = archived })
  unstaged-IsDone d archived h = record {
    kept = record { supported = h.supported; indexes = h.indexes; runs = h.runs };
    unstaged = refl;
  }

  IsDone-IsCommitted : (d : Disk) → IsDone after d → IsCommitted d
  IsDone-IsCommitted d h = record { kept = h.kept; journal = inl h.unstaged }

  IsDone-Discarded : (d : Disk) → IsDone after d → IsCommitted d × (quiet ≡ true → IsDone after d)
  IsDone-Discarded d h = (IsDone-IsCommitted d h, (λ _. h))

  Retained-Discarded : (w : World) → Retained w → Discarded w
  Retained-Discarded w h = (h.1, (λ t. absurd (cc (h.0))))

  -- The flag `committed` stays as it is.
  pub discard_flagged :
      (flag : Bool)
      → Triple quiet
          (λ w. IsCommitted w.disk × (w.committed ≡ flag))
          (discard_committed p)
          (λ _ w. Discarded w × (w.committed ≡ flag))
          (λ w. Retained w × (w.committed ≡ flag))
  unfolding discard_committed
  discard_flagged flag =
      Triple-try {R = λ w. Retained w × (w.committed ≡ flag)} _ _
        (Triple-perform quiet (λ w. IsCommitted w.disk × (w.committed ≡ flag))
          (λ w. Discarded w × (w.committed ≡ flag)) _ _ _
          (λ w es h. (IsDone-Discarded _ (unstaged-IsDone w.disk w.disk.archived h.0.kept), h.1))
          (λ f w es h. ((f, h.0), h.1)) (λ f w es h. ((f, torn-IsCommitted w.disk h.0), h.1)))
        (λ e. Triple-pure tt (λ w h. (Retained-Discarded w h.0, h.1)))

  discard-Discarded :
      Triple quiet (λ w. IsCommitted w.disk) (discard_committed p) (λ _. Discarded) Retained
  unfolding discard_committed
  discard-Discarded =
      Triple-try {R = Retained} _ _
        (Triple-perform quiet (λ w. IsCommitted w.disk) Discarded Retained _ _
          (λ w es h. IsDone-Discarded _ (unstaged-IsDone w.disk w.disk.archived h.kept))
          (λ f w es h. (f, h)) (λ f w es h. (f, torn-IsCommitted w.disk h)))
        (λ e. Triple-pure tt (λ w h. Retained-Discarded w h))

  archive-Discarded : Triple quiet (λ w. IsCommitted w.disk) archive (λ _. Discarded) Retained
  unfolding archive
  archive-Discarded =
      Triple-bind _ _
        (Triple-perform quiet (λ w. IsCommitted w.disk) Discarded Retained _ _
          (λ w es h. IsDone-Discarded _ (unstaged-IsDone w.disk _ h.kept)) (λ f w es h. (f, h))
          (λ f w es h. (f, h)))
        (λ _. Triple-pure true (λ w h. h))

  recover_journal-Discarded :
      Triple quiet
        (λ w. IsCommitted w.disk)
        (recover_journal p (readable journal_done))
        (λ _. Discarded)
        Retained
  unfolding recover_journal read_journal
  recover_journal-Discarded =
      rw (journal_of-valid p dir before "committed" refl index_only false) (
        Triple-pure-bind _ _
          (Triple-bind _ _ discard-Discarded (λ _. Triple-pure false (λ w h. h))))

  recover_stage-Discarded :
      (w : World)
      → w.disk.staged ≡ true
      → IsCommitted w.disk
      → Triple quiet
          (λ w'. w' ≡ w)
          (recover_stage p w.disk.staging.journal)
          (λ _. Discarded)
          Retained
  unfolding recover_stage
  recover_stage-Discarded w staged h = elim h.journal [
    | inl u ↦ absurd (cc)
    | inr (inl n) ↦
        subst (Ends w) (sym n)
          (Triple-weaken _ archive-Discarded (λ w' q. rw q h) (λ _ w' b. b) (λ w' b. b) (λ w' b. b))
    | inr (inr c) ↦ subst (Ends w) (sym c) (
        Triple-weaken _ recover_journal-Discarded (λ w' q. rw q h) (λ _ w' b. b) (λ w' b. b)
          (λ w' b. b))
  ]

  -- A recovery after the commit keeps what was committed.
  pub recover-Discarded :
      Triple quiet (λ w. IsCommitted w.disk) (recover_pending_import p) (λ _. Discarded) Retained
  unfolding recover_pending_import validate_store_version
  recover-Discarded =
      Triple-bind {Q = λ _ w. IsCommitted w.disk} _ _
        (Triple-get _ (λ w h.
          Triple-if w.disk.supported _ _ (λ t. Triple-pure tt (λ w' q. rw q h))
            (λ n. absurd (cc (h.kept.supported)))))
        (λ _. Triple-get _ (λ w h.
          Triple-if w.disk.staged _ _
            (λ t.
              Triple-try {R = Retained} _ _ (recover_stage-Discarded w t h)
                (λ e. Triple-throw _ (λ w b. b)))
            (λ n.
              Triple-pure false
                (λ w' q. rw q (IsDone-Discarded w.disk (record { kept = h.kept; unstaged = n }))))))
