-- ===== src/Store/Transaction/States.antt =====
-- The states of a store in which a transaction (transaction.py) or a recovery can be broken off.
use harness_auto_test_eviden.Prelude.{
  String, Bool, true, false, Option, none, some, [], ◌≡◌, ◌⊎◌, map, All, is_some,
}
use harness_auto_test_eviden.Store.Disk.{
  Bytes, Dir, Snapshot, Journal, readable, Disk, Outcome, ok, raise, crashed, Error, World,
}
use harness_auto_test_eviden.Store.Transaction.{Platform, index_names, is_nonempty, new_journal}

abbrev pub digest_of : Platform → Option Bytes → String
digest_of p none = ""
digest_of p (some c) = p.digest c

-- The line of the journal that stands for an index with this content.
abbrev pub snapshot_with : Platform → String → Option Bytes → Snapshot
snapshot_with p n o = record { name = n; exists = is_some o; digest = digest_of p o }

abbrev pub snapshot_of : Platform → (String → Option Bytes) → String → Snapshot
snapshot_of p indexes n = snapshot_with p n (indexes n)

abbrev pub HasContent : (String → Option Bytes) → (String → Option Bytes) → String → Type 0
HasContent from to n = (c : Bytes) → from n ≡ some c → to n ≡ some c

-- An import starts with an empty bundle directory or none.
abbrev pub StartsEmpty : Bool → Option Dir → Type 0
StartsEmpty true o = Unit
StartsEmpty false o = is_nonempty o ≡ false

-- `before` is the disk at the start of the transaction of the bundle directory `dir`.
module _ (dir : String) (before : Disk) where
  -- The bundle directory in a pending transaction: not yet moved away, moved away, or put back.
  abbrev pub BundleStage : Bool → Option Dir → Option Dir → Type 0
  BundleStage true here moved = Unit
  BundleStage false here moved =
      (moved ≡ none) ⊎ ((here ≡ none) ⊎ ((before.runs dir ≡ some []) × (here ≡ some [])))

  abbrev pub BundleBack : Bool → Option Dir → Type 0
  BundleBack true here = Unit
  BundleBack false here = here ≡ before.runs dir

abbrev pub IndexBack : Disk → (String → Option Bytes) → String → Type 0
IndexBack before indexes n = indexes n ≡ before.indexes n

module _ (p : Platform) (index_only : Bool) (dir : String) (before : Disk) where
  abbrev pub journal_of : Bool → Journal
  journal_of failed =
      record (new_journal index_only dir (is_some (before.runs dir))
        (map (snapshot_of p before.indexes) index_names)) { failed = failed }

  -- The journal is published and not committed, and every backup is there.
  pub record IsPending (d : Disk) : Type 0 where
    pub supported : d.supported ≡ true
    pub staged : d.staged ≡ true
    pub failed : Bool
    pub journal : d.staging.journal ≡ some (readable (journal_of failed))
    pub backups : All (HasContent before.indexes d.staging.before) index_names
    pub bundle : BundleStage dir before index_only (d.runs dir) d.staging.failed_bundle

  -- The indexes and the bundle directory are as before the transaction.
  pub record IsUntouched (d : Disk) : Type 0 where
    pub supported : d.supported ≡ true
    pub indexes : All (IndexBack before d.indexes) index_names
    pub bundle : BundleBack dir before index_only (d.runs dir)

  -- The stage is made, and its journal is not published.
  pub record IsFresh (d : Disk) : Type 0 where
    pub staged : d.staged ≡ true
    pub journal : d.staging.journal ≡ none
    pub untouched : IsUntouched d

  pub record IsRolledBack (d : Disk) : Type 0 where
    pub unstaged : d.staged ≡ false
    pub untouched : IsUntouched d

  -- The states from which a recovery leads back to `before`.
  pub data IsRecoverable (d : Disk) : Type 0 where
    pending : IsPending d → IsRecoverable d
    fresh : IsFresh d → IsRecoverable d
    rolled_back : IsRolledBack d → IsRecoverable d

-- The indexes and the bundles are those of `after`.
module _ (after : Disk) where
  pub record IsKept (d : Disk) : Type 0 where
    pub supported : d.supported ≡ true
    pub indexes : d.indexes ≡ after.indexes
    pub runs : d.runs ≡ after.runs

  pub record IsDone (d : Disk) : Type 0 where
    pub kept : IsKept d
    pub unstaged : d.staged ≡ false

-- What a block comes to that no failure disturbs, by the outcome of its body.
abbrev pub Follows :
    Platform → Bool → String → Disk → Disk → Outcome Unit → Outcome Unit × World → Type 0
Follows p index_only dir before after (ok _) m = (m.0 ≡ ok tt) × IsDone after m.1.disk
Follows p index_only dir before after (raise e) m =
    ((e' : Error) × (m.0 ≡ raise e')) × IsRolledBack p index_only dir before m.1.disk
Follows p index_only dir before after crashed m = ⊥
