-- ===== src/Store/Transaction/Enter.antt =====
-- What __enter__ leaves: the snapshots, the published journal, and the store otherwise as it was.
use harness_auto_test_eviden.Prelude.{
  String, Bool, true, false, not, ◌&&◌, Option, none, some, List, ◌≡◌, refl, sym, ap, inl, ◌∙◌, All,
  All-of, is_some,
}
use mathlib.Core.Path.{ap₂}
use harness_auto_test_eviden.Store.Disk.{
  Bytes, Dir, Snapshot, Journal, readable, Disk, Event, Error, World, ◌>>◌, throw,
}
use harness_auto_test_eviden.Store.Disk.Triples.{
  Triple, Triple-pure, Triple-throw, Triple-if, Triple-fact, Triple-try, Triple-weaken, Triple-bind,
  Triple-get, Triple-perform,
}
use harness_auto_test_eviden.Store.Transaction.{
  Platform, index_names, validate_store_version, is_nonempty, new_journal, make_stage, prepare,
  enter, recover_pending_import,
}
use harness_auto_test_eviden.Store.Transaction.Snapshots.{snapshot-All}
use harness_auto_test_eviden.Store.Transaction.Recovery.{recover-Triple}
use harness_auto_test_eviden.Store.Transaction.Bundles.{Broken}
use harness_auto_test_eviden.Store.Transaction.States.{
  HasContent, journal_of, BundleStage, BundleBack, IsPending, IsUntouched, IsRecoverable, pending,
  fresh, rolled_back, StartsEmpty,
}

not_nonempty : (b : Bool) (o : Option Dir) → StartsEmpty b o → (not b && is_nonempty o) ≡ true → ⊥
not_nonempty true o start t = cc
not_nonempty false o start t = cc

-- The steps of __enter__ from a store with no pending transaction.
module _ (p : Platform) (index_only : Bool) (dir : String) (before : Disk) (quiet : Bool)
    (start : StartsEmpty index_only (before.runs dir)) (supported : before.supported ≡ true)
    (unstaged : before.staged ≡ false) where
  -- The stage is made; the indexes and the bundles are as before.
  pub record IsStarting (d : Disk) : Type 0 where
    supported_still : d.supported ≡ true
    staged : d.staged ≡ true
    journal : d.staging.journal ≡ none
    moved : d.staging.failed_bundle ≡ none
    indexes : d.indexes ≡ before.indexes
    runs : d.runs ≡ before.runs

  -- The journal is published; the indexes and the bundles are as before.
  pub record IsEntered (d : Disk) : Type 0 where
    pub supported_still : d.supported ≡ true
    pub staged : d.staged ≡ true
    pub journal : d.staging.journal ≡ some (readable (journal_of p index_only dir before false))
    pub backups : All (HasContent before.indexes d.staging.before) index_names
    pub moved : d.staging.failed_bundle ≡ none

  untouched :
      (d : Disk)
      → d.supported ≡ true
      → d.indexes ≡ before.indexes
      → d.runs ≡ before.runs
      → IsUntouched p index_only dir before d
  untouched d s i r = record {
    supported = s;
    indexes = All-of (λ n. ap (λ (f : String → Option Bytes). f n) i) index_names;
    bundle = back index_only;
  }
    where
      back : (b : Bool) → BundleBack dir before b (d.runs dir)
      back true = tt
      back false = ap (λ (f : String → Option Dir). f dir) r

  IsStarting-IsRecoverable : (d : Disk) → IsStarting d → IsRecoverable p index_only dir before d
  IsStarting-IsRecoverable d h = fresh (record {
    staged = h.staged;
    journal = h.journal;
    untouched = untouched d h.supported_still h.indexes h.runs;
  })

  pub IsEntered-IsPending : (d : Disk) → IsEntered d → IsPending p index_only dir before d
  IsEntered-IsPending d h = record {
    supported = h.supported_still;
    staged = h.staged;
    failed = false;
    journal = h.journal;
    backups = h.backups;
    bundle = stage index_only;
  }
    where
      stage : (b : Bool) → BundleStage dir before b (d.runs dir) d.staging.failed_bundle
      stage true = tt
      stage false = inl h.moved

  abbrev pub Entered : Journal → World → Type 0
  Entered j w =
      (j ≡ journal_of p index_only dir before false)
      × IsEntered w.disk
      × (w.disk.indexes ≡ before.indexes)
      × (w.disk.runs ≡ before.runs)

  published :
      {j : Journal}
      → j ≡ journal_of p index_only dir before false
      → (w : World) (es : List Event) → IsStarting w.disk
      → All (HasContent before.indexes w.disk.staging.before) index_names
      → Entered j (record w {
        disk = record (w.disk) {
          staging = record (w.disk.staging) { journal = some (readable j) };
        };
        events = es;
      })
  published named w es h saved = (
    named,
    record {
      supported_still = h.supported_still;
      staged = h.staged;
      journal = ap (λ j. some (readable j)) named;
      backups = saved;
      moved = h.moved;
    },
    h.indexes,
    h.runs,
  )

  prepare-Entered :
      Triple quiet
        (λ w. IsStarting w.disk)
        (prepare p index_only dir)
        Entered
        (Broken p index_only dir before quiet)
  unfolding prepare
  prepare-Entered =
      Triple-bind _ _
        (snapshot-All p before.indexes quiet _ (λ w. IsStarting w.disk)
          (λ n c w es e h. record {
            supported_still = h.supported_still;
            staged = h.staged;
            journal = h.journal;
            moved = h.moved;
            indexes = h.indexes;
            runs = h.runs;
          })
          (λ f w es h. (f, IsStarting-IsRecoverable w.disk h)) (λ w h. h.indexes) index_names)
        (λ items. Triple-get _ (λ w h.
          let j = new_journal index_only dir (is_some (w.disk.runs dir)) items in
          let named : j ≡ journal_of p index_only dir before false =
            ap₂
              (λ (r : String → Option Dir) (xs : List Snapshot).
                new_journal index_only dir (is_some (r dir)) xs)
              h.1.runs h.0 in
          Triple-bind _ _
            (Triple-perform quiet (λ w'. w' ≡ w) (Entered j) (Broken p index_only dir before quiet)
              _ _ (λ w' es q. published named w' es (rw q h.1) (rw q h.2))
              (λ f w' es q. (f, IsStarting-IsRecoverable w'.disk (rw q h.1)))
              (λ f w' es q.
                let e = published named w' es (rw q h.1) (rw q h.2) in
                (f, pending (IsEntered-IsPending _ e.1))))
            (λ _. Triple-pure j (λ w' b. b))))

  abbrev pub Clean : World → Type 0
  Clean w = w.disk ≡ before

  pub Clean-IsRecoverable : (w : World) → Clean w → IsRecoverable p index_only dir before w.disk
  Clean-IsRecoverable w e = rw e (
      rolled_back
        (record { unstaged = unstaged; untouched = untouched before supported refl refl }))

  make_stage-IsStarting :
      Triple quiet Clean make_stage
        (λ _ w. IsStarting w.disk)
        (Broken p index_only dir before quiet)
  unfolding make_stage
  make_stage-IsStarting = Triple-get _ (λ w c.
      Triple-if w.disk.staged _ _ (λ t. absurd (cc (unstaged, ap (λ (d : Disk). d.staged) c)))
        (λ n.
          Triple-perform quiet (λ w'. w' ≡ w) (λ w'. IsStarting w'.disk)
            (Broken p index_only dir before quiet) _ _
            (λ w' es q.
              let d : w'.disk ≡ before = ap (λ (v : World). v.disk) q ∙ c in
              record {
                supported_still = ap (λ (d : Disk). d.supported) d ∙ supported;
                staged = refl;
                journal = refl;
                moved = refl;
                indexes = ap (λ (d : Disk). d.indexes) d;
                runs = ap (λ (d : Disk). d.runs) d;
              })
            (λ f w' es q. (f, Clean-IsRecoverable w' (ap (λ (v : World). v.disk) q ∙ c)))
            (λ f w' es q. (f, Clean-IsRecoverable w' (ap (λ (v : World). v.disk) q ∙ c)))))

  -- The recovery that an error in the middle starts, before the error goes on.
  rollback-Broken :
      (e : Error)
      → Triple quiet
          (Broken p index_only dir before quiet)
          (recover_pending_import p >> throw e)
          Entered
          (Broken p index_only dir before quiet)
  rollback-Broken e = Triple-fact _ (λ f.
      Triple-bind _ _ (recover-Triple p index_only dir before quiet start)
        (λ _. Triple-throw e (λ w r. (f, rolled_back r))))

  pub enter-Entered :
      Triple quiet Clean (enter p index_only dir) Entered (Broken p index_only dir before quiet)
  unfolding enter validate_store_version
  enter-Entered =
      Triple-bind {Q = λ _. Clean} _ _
        (Triple-get _ (λ w c.
          Triple-if w.disk.supported _ _ (λ t. Triple-pure tt (λ w' q. rw q c))
            (λ n. absurd (cc (supported, ap (λ (d : Disk). d.supported) c)))))
        (λ _. Triple-get _ (λ w c.
          Triple-if (not index_only && is_nonempty (w.disk.runs dir)) _ _
            (λ t. absurd (
              not_nonempty index_only (before.runs dir) start
                (ap (λ (d : Disk). not index_only && is_nonempty (d.runs dir)) (sym c) ∙ t)))
            (λ n.
              Triple-weaken _
                (Triple-bind _ _ make_stage-IsStarting
                  (λ _. Triple-try _ _ prepare-Entered rollback-Broken))
                (λ w' q. rw q c) (λ _ w' b. b) (λ w' b. b) (λ w' b. b))))
