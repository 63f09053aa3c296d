-- ===== src/Store/Transaction/Bundles.antt =====
-- The steps of a recovery on the bundle directory (transaction.py): moving it away, and putting an
-- empty one back.
use harness_auto_test_eviden.Prelude.{
  String, Bool, true, false, Option, none, some, List, [], ◌∷◌, ◌≡◌, refl, ◌⊎◌, inl, inr, sym,
  subst, ◌∙◌, All, update, update_self, is_some,
}
use harness_auto_test_eviden.Store.Disk.{Dir, Disk, Event, World, pure}
use harness_auto_test_eviden.Store.Disk.Triples.{
  Triple, Triple-pure, Triple-if, Triple-weaken, Triple-get, Triple-perform,
}
use harness_auto_test_eviden.Store.Transaction.{
  Platform, index_names, is_nonempty, quarantine_found, quarantine_bundle, make_dir, restore_bundle,
}
use harness_auto_test_eviden.Store.Transaction.States.{
  journal_of, BundleBack, IndexBack, IsPending, IsRecoverable, pending, StartsEmpty,
}

-- An empty start: no directory, or an empty one.
empty_cases : (o : Option Dir) → is_nonempty o ≡ false → (o ≡ none) ⊎ (o ≡ some [])
empty_cases none h = inl refl
empty_cases (some []) h = inr refl
empty_cases (some (f ∷ fs)) h = absurd (cc)

module _ (p : Platform) (index_only : Bool) (dir : String) (before : Disk) (quiet : Bool) where
  -- After a failure the store can still be recovered; and with no failing event there is none.
  abbrev pub Broken : World → Type 0
  Broken w = (quiet ≡ false) × IsRecoverable p index_only dir before w.disk

  abbrev pub Pending : World → Type 0
  Pending w = IsPending p index_only dir before w.disk

  pub broken :
      quiet ≡ false → (w : World) (es : List Event) → Pending w → Broken (record w { events = es })
  broken f w es h = (f, pending h)

  -- The bundle directory after it was moved away.
  abbrev pub BundleMoved : Bool → Option Dir → Type 0
  BundleMoved true here = Unit
  BundleMoved false here = (here ≡ none) ⊎ ((before.runs dir ≡ some []) × (here ≡ some []))

  abbrev pub Moved : World → Type 0
  Moved w = Pending w × BundleMoved index_only (w.disk.runs dir)

-- The steps on the bundle directory, for an import (a transaction that is not index_only).
module _ (p : Platform) (dir : String) (before : Disk) (quiet : Bool) (failed : Bool) where
  quarantine_found-Moved :
      (w : World) (o moved : Option Dir)
      → Pending p false dir before quiet w
      → w.disk.runs dir ≡ o
      → w.disk.staging.failed_bundle ≡ moved
      → Triple quiet
          (λ w'. w' ≡ w)
          (quarantine_found (journal_of p false dir before failed) o moved)
          (λ _. Moved p false dir before quiet)
          (Broken p false dir before quiet)
  unfolding quarantine_found
  quarantine_found-Moved w none moved h eo em =
      Triple-pure tt (λ w' e. subst (Moved p false dir before quiet) (sym e) (h, inl eo))
  quarantine_found-Moved w (some files) none h eo em =
      Triple-perform quiet (λ w'. w' ≡ w) (Moved p false dir before quiet) _ _ _
        (λ w' es e.
          let h' : Pending p false dir before quiet w' = rw e h in
          (
            record {
              supported = h'.supported;
              staged = h'.staged;
              failed = h'.failed;
              journal = h'.journal;
              backups = h'.backups;
              bundle = inr (inl (update_self w'.disk.runs dir none));
            },
            inl (update_self w'.disk.runs dir none),
          ))
        (λ f w' es e. broken p false dir before quiet f w' es (rw e h))
        (λ f w' es e. broken p false dir before quiet f w' es (rw e h))
  quarantine_found-Moved w (some files) (some old) h eo em = elim h.bundle [
    | inl a ↦ absurd (cc)
    | inr (inl a) ↦ absurd (cc)
    | inr (inr (b, a)) ↦
        let same : files ≡ [] = cc in
        rw (same, b)
          (Triple-pure tt (λ w' e. subst (Moved p false dir before quiet) (sym e) (h, inr (b, a))))
  ]

  made_dir : (o : Option Dir) → (o ≡ none) ⊎ (o ≡ some []) → make_dir o ≡ some []
  made_dir none h = refl
  made_dir (some []) h = refl
  made_dir (some (f ∷ fs)) (inl e) = cc
  made_dir (some (f ∷ fs)) (inr e) = cc

  absent :
      before.runs dir ≡ none
      → (w : World) → Moved p false dir before quiet w
      → w.disk.runs dir ≡ none
  absent e w (h, inl a) = a
  absent e w (h, inr (b, a)) = absurd (cc)

  shapes :
      (w : World)
      → Moved p false dir before quiet w
      → (w.disk.runs dir ≡ none) ⊎ (w.disk.runs dir ≡ some [])
  shapes w (h, inl a) = inl a
  shapes w (h, inr (b, a)) = inr a

  abbrev Restored : World → Type 0
  Restored w = Moved p false dir before quiet w × All (IndexBack before w.disk.indexes) index_names

  -- The directory is made again, and the transaction is still pending.
  put_back :
      before.runs dir ≡ some []
      → (w : World) (es : List Event) → Restored w
      → (let w' : World = record w {
        disk = record (w.disk) { runs = update w.disk.runs dir (make_dir (w.disk.runs dir)) };
        events = es;
      } in
          Restored w' × (w'.disk.runs dir ≡ before.runs dir))
  put_back e w es s =
      let h : Pending p false dir before quiet w = s.0.0 in
      let made : update w.disk.runs dir (make_dir (w.disk.runs dir)) dir ≡ some [] =
        update_self w.disk.runs dir _ ∙ made_dir (w.disk.runs dir) (shapes w s.0) in
      (
        (
          (
            record {
              supported = h.supported;
              staged = h.staged;
              failed = h.failed;
              journal = h.journal;
              backups = h.backups;
              bundle = inr (inr (e, made));
            },
            inr (e, made),
          ),
          s.1,
        ),
        made ∙ sym e,
      )

  restore_import :
      is_nonempty (before.runs dir) ≡ false
      → Triple quiet Restored
          (restore_bundle (journal_of p false dir before failed))
          (λ _ w. Restored w × (w.disk.runs dir ≡ before.runs dir))
          (Broken p false dir before quiet)
  unfolding restore_bundle
  restore_import start =
      Triple-if (is_some (before.runs dir)) _ _
        (λ t.
          Triple-perform quiet Restored (λ w. Restored w × (w.disk.runs dir ≡ before.runs dir))
            (Broken p false dir before quiet) _ _ (λ w es s. put_back (existed t) w es s)
            (λ f w es s. broken p false dir before quiet f w es s.0.0)
            (λ f w es s. broken p false dir before quiet f w es s.0.0))
        (λ n. Triple-pure tt (λ w s. (s, absent (missing n) w s.0 ∙ sym (missing n))))
    where
      existed : is_some (before.runs dir) ≡ true → before.runs dir ≡ some []
      existed t = elim (empty_cases (before.runs dir) start) [ inl e ↦ absurd (cc) | inr e ↦ e ]

      missing : is_some (before.runs dir) ≡ false → before.runs dir ≡ none
      missing n = elim (empty_cases (before.runs dir) start) [ inl e ↦ e | inr e ↦ absurd (cc) ]

-- The same steps for both kinds of transaction.
module _ (p : Platform) (dir : String) (before : Disk) (quiet : Bool) (failed : Bool) where
  pub quarantine-Moved :
      (index_only : Bool)
      → Triple quiet
          (Pending p index_only dir before quiet)
          (quarantine_bundle (journal_of p index_only dir before failed))
          (λ _. Moved p index_only dir before quiet)
          (Broken p index_only dir before quiet)
  unfolding quarantine_bundle
  quarantine-Moved true = Triple-get _ (λ w h. Triple-pure tt (λ w' e. rw e (h, tt)))
  quarantine-Moved false = Triple-get _ (λ w h.
      quarantine_found-Moved p dir before quiet failed w (w.disk.runs dir)
        w.disk.staging.failed_bundle h refl refl)

  pub restore_bundle-Back :
      (index_only : Bool)
      → StartsEmpty index_only (before.runs dir)
      → Triple quiet
          (λ w.
            Moved p index_only dir before quiet w
            × All (IndexBack before w.disk.indexes) index_names)
          (restore_bundle (journal_of p index_only dir before failed))
          (λ _ w.
            Pending p index_only dir before quiet w
            × All (IndexBack before w.disk.indexes) index_names
            × BundleBack dir before index_only (w.disk.runs dir))
          (Broken p index_only dir before quiet)
  unfolding restore_bundle pure
  restore_bundle-Back true start = Triple-pure tt (λ w s. (s.0.0, s.1, tt))
  restore_bundle-Back false start =
      Triple-weaken _ (restore_import p dir before quiet failed start) (λ w s. s)
        (λ _ w s. (s.0.0.0, s.0.1, s.1)) (λ w b. b) (λ w b. b)
