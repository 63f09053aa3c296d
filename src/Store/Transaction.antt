-- ===== src/Store/Transaction.antt =====
-- The recoverable import transaction (src/hate/store/transaction.py): snapshots of the indexes
-- beside a journal, the commit that replaces the journal, and the recovery that puts the
-- snapshots back. The digests of SHA-256 and what a broken-off rmtree leaves are parameters.
pub mod States
pub mod Loops
pub mod Bundles
pub mod Recovery
pub mod Snapshots
pub mod Enter
pub mod Commit
pub mod Atomic
pub mod Block
pub mod Recoveries
pub mod Atomicity
pub mod Refusals
mod Tests
use harness_auto_test_eviden.Prelude.{
  String, Bool, true, false, not, ◌&&◌, ◌||◌, Option, none, some, List, [], ◌∷◌, ◌≡◌, ◌⊎◌, ◌==◌,
  ◌===◌, member, all, length, map, update, is_some, if◌then◌else◌,
}
use harness_auto_test_eviden.Store.Disk.{
  Bytes, Dir, Snapshot, Journal, JournalFile, unreadable, readable, Staging, Disk, empty_staging,
  Error, version_error, invalid_journal, recovery_required, durability_uncertain, incomplete_bundle,
  not_committed, io_error, Outcome, ok, raise, crashed, Io, ◌>>=◌, ◌>>◌, pure, throw, try_except,
  get_disk, write, change, perform,
}

-- What the module calls and does not implement: the file digest (hashlib), and the directory
-- that shutil.rmtree leaves when it breaks off. It removes files; it writes none.
pub record Platform : Type 0 where
  pub digest : Bytes → String
  pub torn : Staging → Staging
  pub torn_journal : (s : Staging) → ((torn s).journal ≡ s.journal) ⊎ ((torn s).journal ≡ none)

-- MultiIndexManager._all_indexes, by the names of their files.
unfoldable pub index_names : List String
index_names =
    "runs.jsonl" ∷ "bundles.jsonl" ∷ "evidence.jsonl" ∷ "risks.jsonl" ∷ "artifacts.jsonl"
    ∷ "requirements.jsonl" ∷ "source-refs.jsonl" ∷ []

-- validate_store_version raises StoreVersionError.
unfoldable pub validate_store_version : Io Unit
validate_store_version = do d ← get_disk; if d.supported then pure tt else throw version_error

-- _archive: os.replace of the stage to quarantine/import-<uuid>.
unfoldable pub archive : Io Bool
archive = do
  change
      (λ d. record d { staged = false; staging = empty_staging; archived = d.staging ∷ d.archived })
  pure true

abbrev pub snapshot_names : List Snapshot → List String
snapshot_names items = map (λ (s : Snapshot). s.name) items

-- {item["name"] for item in records} == expected, for lists of the same length.
abbrev pub same_names : List Snapshot → List String → Bool
same_names items names =
    all (λ s. member s names) (snapshot_names items)
    && all (λ n. member n (snapshot_names items)) names

abbrev pub is_indexes : Option String → Bool
is_indexes none = false
is_indexes (some s) = s === "indexes"

-- data.get("state") in {"pending", "committed"}
abbrev pub is_journal_state : String → Bool
is_journal_state s = s === "pending" || s === "committed"

-- The checks of _read_journal but those of the bundle's path and of the JSON types.
unfoldable pub valid_journal : Journal → Bool
valid_journal j =
    (j.version == 1 || j.version == 2)
    && is_journal_state j.state
    && (not (j.version == 2) || is_indexes j.operation)
    && (length j.indexes == length index_names)
    && same_names j.indexes index_names

unfoldable pub read_journal : JournalFile → Io Journal
read_journal unreadable = throw invalid_journal
read_journal (readable j) = if valid_journal j then pure j else throw invalid_journal

abbrev pub is_nonempty : Option Dir → Bool
is_nonempty (some (f ∷ fs)) = true
is_nonempty _ = false

-- A bundle directory that was written after the journal goes into the stage. One that is there
-- although the stage holds one can only be the empty directory that a recovery put back.
unfoldable pub quarantine_found : Journal → Option Dir → Option Dir → Io Unit
quarantine_found j none moved = pure tt
quarantine_found j (some files) none = change (λ d. record d {
  runs = update d.runs j.bundle_dir none;
  staging = record (d.staging) { failed_bundle = some files };
})
quarantine_found j (some files) (some _) =
    if not j.bundle_existed || is_nonempty (some files) then throw invalid_journal else pure tt

unfoldable pub quarantine_bundle : Journal → Io Unit
unfolding quarantine_found
quarantine_bundle j = do
  d ← get_disk
  if j.version == 1
      then quarantine_found j (d.runs j.bundle_dir) d.staging.failed_bundle
      else pure tt

-- bundle.mkdir(exist_ok=True)
abbrev pub make_dir : Option Dir → Option Dir
make_dir none = some []
make_dir (some files) = some files

unfoldable pub restore_bundle : Journal → Io Unit
restore_bundle j =
    if (j.version == 1) && j.bundle_existed
    then change
        (λ d. record d { runs = update d.runs j.bundle_dir (make_dir (d.runs j.bundle_dir)) })
    else pure tt

abbrev pub set_index : String → Option Bytes → Disk → Disk
set_index n c d = record d { indexes = update d.indexes n c }

-- target.unlink, or the write of the backup's bytes; a missing backup cannot be read.
unfoldable pub restore_index : Snapshot → Io Unit
restore_index s = do
  d ← get_disk
  if s.exists
      then elim (d.staging.before s.name) [
        | none ↦ throw (io_error false)
        | some c ↦ write (set_index s.name (some c))
      ]
      else change (set_index s.name none)

unfoldable pub restore_indexes : List Snapshot → Io Unit
restore_indexes [] = pure tt
restore_indexes (s ∷ items) = restore_index s >> restore_indexes items

module _ (p : Platform) where
  -- _discard_committed: an OSError is only a warning.
  unfoldable pub discard_committed : Io Unit
  discard_committed =
      try_except
        (perform (λ d. record d { staged = false; staging = empty_staging })
          (λ d. record d { staging = p.torn d.staging }))
        (λ e. pure tt)

  unfoldable pub verify_backup : Snapshot → Io Unit
  verify_backup s = do
    d ← get_disk
    if s.exists
        then elim (d.staging.before s.name) [
          | none ↦ throw (io_error false)
          | some c ↦ if p.digest c === s.digest then pure tt else throw invalid_journal
        ]
        else pure tt

  unfoldable pub verify_backups : List Snapshot → Io Unit
  verify_backups [] = pure tt
  verify_backups (s ∷ items) = verify_backup s >> verify_backups items

  unfoldable pub restore : Journal → Io Bool
  restore j = do
    verify_backups j.indexes
    quarantine_bundle j
    restore_indexes j.indexes
    restore_bundle j
    archive

  unfoldable pub recover_journal : JournalFile → Io Bool
  recover_journal file = do
    j ← read_journal file
    if j.state === "committed" then (do discard_committed; pure false) else restore j

  unfoldable pub recover_stage : Option JournalFile → Io Bool
  recover_stage none = archive
  recover_stage (some file) = recover_journal file

  -- Every error inside is reported as StoreRecoveryError. True: the stage was archived.
  unfoldable pub recover_pending_import : Io Bool
  recover_pending_import = do
    validate_store_version
    d ← get_disk
    if d.staged
        then try_except (recover_stage d.staging.journal) (λ e. throw recovery_required)
        else pure false

  -- One index of __enter__: the backup, and its line of the journal.
  unfoldable pub snapshot_found : String → Option Bytes → Io Snapshot
  snapshot_found n none = pure (record { name = n; exists = false; digest = "" })
  snapshot_found n (some c) = do
    write (λ d. record d {
      staging = record (d.staging) { before = update d.staging.before n (some c) };
    })
    pure (record { name = n; exists = true; digest = p.digest c })

  unfoldable pub snapshot : String → Io Snapshot
  unfolding snapshot_found
  snapshot n = do d ← get_disk; snapshot_found n (d.indexes n)

  unfoldable pub snapshots : List String → Io (List Snapshot)
  snapshots [] = pure []
  snapshots (n ∷ names) = do s ← snapshot n; rest ← snapshots names; pure (s ∷ rest)

-- atomic_write_json(self.stage / "journal.json", …)
abbrev pub write_journal : Journal → Io Unit
write_journal j =
    write (λ d. record d { staging = record (d.staging) { journal = some (readable j) } })

abbrev pub new_journal : Bool → String → Bool → List Snapshot → Journal
new_journal index_only dir existed items = record {
  version = if index_only then 2 else 1;
  state = "pending";
  operation = if index_only then some "indexes" else none;
  bundle_dir = dir;
  bundle_existed = existed;
  indexes = items;
  failed = false;
}

-- self.stage.mkdir(parents=True)
unfoldable pub make_stage : Io Unit
make_stage = do
  d ← get_disk
  if d.staged
      then throw (io_error false)
      else change (λ d. record d { staged = true; staging = empty_staging })

unfoldable pub set_committed : Io Unit
set_committed w = (ok tt, record w { committed = true })

module _ (p : Platform) (index_only : Bool) (dir : String) where
  unfoldable pub prepare : Io Journal
  prepare = do
    items ← snapshots p index_names
    d ← get_disk
    let j = new_journal index_only dir (is_some (d.runs dir)) items
    write_journal j
    pure j

  -- ImportTransaction.__enter__
  unfoldable pub enter : Io Journal
  enter = do
    validate_store_version
    d ← get_disk
    if not index_only && is_nonempty (d.runs dir)
        then throw incomplete_bundle
        else do make_stage; try_except prepare (λ e. recover_pending_import p >> throw e)

-- A published journal is the commit, whatever the directory sync says.
abbrev pub commit_failed : Error → Io Unit
commit_failed (io_error true) = do set_committed; throw durability_uncertain
commit_failed e = throw e

abbrev pub failure_unsaved : Error → Io Unit
failure_unsaved (io_error b) = pure tt
failure_unsaved e = throw e

module _ (p : Platform) where
  -- ImportTransaction.commit
  unfoldable pub commit : Journal → Io Unit
  commit j = do
    validate_store_version
    try_except (write_journal (record j { state = "committed" })) commit_failed
    set_committed
    discard_committed p

  -- What the journal records of the exception; that it cannot be saved is only a warning.
  unfoldable pub record_failure : Journal → Io Unit
  record_failure j = try_except (write_journal (record j { failed = true })) failure_unsaved

  -- ImportTransaction.__exit__ without and with an exception.
  unfoldable pub exit_normal : Io Unit
  exit_normal w =
      if w.committed
      then (ok tt, w)
      else (do validate_store_version; recover_pending_import p; throw not_committed) w

  unfoldable pub exit_error : Journal → Error → Io Unit
  exit_error j e w =
      if w.committed
      then (raise e, w)
      else (do validate_store_version; record_failure j; recover_pending_import p; throw e) w

  abbrev pub exit : Journal → Outcome Unit → Io Unit
  exit j (ok _) w = exit_normal w
  exit j (raise e) w = exit_error j e w
  exit j crashed w = (crashed, w)

  -- The statement `with transaction: body(); transaction.commit()`. The flag is False from the
  -- constructor on, and nothing reads it before __exit__.
  unfoldable pub run_block : Journal → Io Unit → Io Unit
  run_block j body w =
      let (r, w') = (body >> commit j) (record w { committed = false }) in exit j r w'

  unfoldable pub run : Bool → String → Io Unit → Io Unit
  run index_only dir body = do j ← enter p index_only dir; run_block j body
