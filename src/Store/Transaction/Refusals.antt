-- ===== src/Store/Transaction/Refusals.antt =====
-- Where the recovery refuses, and leaves the store as it found it (transaction.py).
use harness_auto_test_eviden.Prelude.{
  String, Bool, true, false, arith, ◌||◌, ◌==◌, length, member, all, all→All, Occurs, All→Occurs,
  Option, some, List, [], ◌∷◌, ◌≡◌, refl, sym, subst, ◌===◌, if◌then◌else◌, Option-cases,
  Bool-cases, ◌⊎◌, inl, inr,
}
use harness_auto_test_eviden.Store.Disk.{
  Bytes, Snapshot, Journal, JournalFile, unreadable, readable, Error, invalid_journal,
  recovery_required, io_error, ok, raise, World, Io, ◌>>=◌, pure, throw, try_except, get_disk,
}
use harness_auto_test_eviden.Store.Transaction.{
  Platform, validate_store_version, is_indexes, snapshot_names, index_names, is_journal_state,
  valid_journal, read_journal, verify_backup, verify_backups, restore, recover_journal,
  recover_stage, recover_pending_import,
}

-- The backup of one index cannot be trusted: it is missing, or it has another digest.
abbrev pub IsSpoilt : Platform → (String → Option Bytes) → Snapshot → Type 0
IsSpoilt p before s =
    (s.exists ≡ true) × ((c : Bytes) → before s.name ≡ some c → (p.digest c === s.digest) ≡ false)

-- Some backup of the list cannot be trusted.
abbrev pub HasSpoilt : Platform → (String → Option Bytes) → List Snapshot → Type 0
HasSpoilt p before [] = ⊥
HasSpoilt p before (s ∷ items) = IsSpoilt p before s ⊎ HasSpoilt p before items

-- What the recovery finds in the stage that it cannot use.
pub data IsUnusable (p : Platform) (before : String → Option Bytes) : JournalFile → Type 0 where
  broken_text : IsUnusable p before unreadable
  unknown_version :
      {j : Journal}
      → (j.version == 1) ≡ false
      → (j.version == 2) ≡ false
      → IsUnusable p before (readable j)
  unknown_state :
      {j : Journal}
      → (j.state === "pending") ≡ false
      → (j.state === "committed") ≡ false
      → IsUnusable p before (readable j)
  other_operation :
      {j : Journal}
      → (j.version == 2) ≡ true
      → is_indexes j.operation ≡ false
      → IsUnusable p before (readable j)
  wrong_count : {j : Journal} → (length j.indexes == 7) ≡ false → IsUnusable p before (readable j)
  unknown_index :
      {j : Journal} (n : String)
      → Occurs n (snapshot_names j.indexes)
      → member n index_names ≡ false
      → IsUnusable p before (readable j)
  missing_index :
      {j : Journal} (n : String)
      → Occurs n index_names
      → member n (snapshot_names j.indexes) ≡ false
      → IsUnusable p before (readable j)
  spoilt_backup :
      {j : Journal}
      → (j.state === "committed") ≡ false
      → HasSpoilt p before j.indexes
      → IsUnusable p before (readable j)

not_all :
    (f : String → Bool) (names : List String) (n : String)
    → Occurs n names
    → f n ≡ false
    → all f names ≡ false
not_all f names n o h = elim (Bool-cases (all f names)) [
  | inl t ↦ absurd (cc (h, All→Occurs (λ x. f x ≡ true) names (all→All f names t) n o))
  | inr g ↦ g
]

-- One check of _read_journal that fails is enough.
module _ (j : Journal) where
  by_version : (j.version == 1 || j.version == 2) ≡ false → valid_journal j ≡ false
  unfolding valid_journal
  by_version h = ground arith

  by_state : is_journal_state j.state ≡ false → valid_journal j ≡ false
  unfolding valid_journal
  by_state h = rw h (ground arith)

  by_operation : (j.version == 2) ≡ true → is_indexes j.operation ≡ false → valid_journal j ≡ false
  unfolding valid_journal
  by_operation g h = rw (g, h) (ground arith)

  by_count : (length j.indexes == 7) ≡ false → valid_journal j ≡ false
  unfolding valid_journal index_names
  by_count h = rw h (ground arith)

  by_unknown :
      all (λ s. member s index_names) (snapshot_names j.indexes) ≡ false → valid_journal j ≡ false
  unfolding valid_journal
  by_unknown h = rw h (ground arith)

  by_missing :
      all (λ n. member n (snapshot_names j.indexes)) index_names ≡ false → valid_journal j ≡ false
  unfolding valid_journal
  by_missing h = rw h (ground arith)

neither : (a b : Bool) → a ≡ false → b ≡ false → (a || b) ≡ false
neither a b h g = ground arith

-- An action raised at this world and left it as it is.
abbrev RaisesAt : {A : Type 0} → Io A → World → Type 0
RaisesAt m w = (e : Error) × (m w ≡ (raise e, w))

verify_spoilt :
    (p : Platform) (s : Snapshot) (w : World)
    → IsSpoilt p w.disk.staging.before s
    → RaisesAt (verify_backup p s) w
unfolding verify_backup ◌>>=◌ get_disk throw pure
verify_spoilt p s w (e, h) = elim (Option-cases (w.disk.staging.before s.name)) [
  | inl n ↦ (io_error false, rw (e, n) refl)
  | inr (c, q) ↦ (invalid_journal, rw (e, q, h c q) refl)
]

-- The check of a backup changes nothing.
verify_reads :
    (p : Platform) (s : Snapshot) (w : World)
    → (verify_backup p s w ≡ (ok tt, w)) ⊎ RaisesAt (verify_backup p s) w
unfolding verify_backup ◌>>=◌ get_disk throw pure
verify_reads p s w = elim (Bool-cases s.exists) [
  | inl e ↦ elim (Option-cases (w.disk.staging.before s.name)) [
    | inl n ↦ inr (io_error false, rw (e, n) refl)
    | inr (c, q) ↦ elim (Bool-cases (p.digest c === s.digest)) [
      | inl g ↦ inl (rw (e, q, g) refl)
      | inr b ↦ inr (invalid_journal, rw (e, q, b) refl)
    ]
  ]
  | inr n ↦ inl (rw n refl)
]

bind_raises :
    {A B : Type 0} (m : Io A) (f : A → Io B) (w : World) → RaisesAt m w → RaisesAt (m >>= f) w
unfolding ◌>>=◌
bind_raises m f w (e, q) = (e, rw q refl)

bind_at :
    {A B : Type 0} (m : Io A) (f : A → Io B) (w : World) (a : A)
    → m w ≡ (ok a, w)
    → RaisesAt (f a) w
    → RaisesAt (m >>= f) w
unfolding ◌>>=◌
bind_at m f w a q (e, r) = (e, rw q r)

throw_raises : {A : Type 0} (e : Error) (w : World) → RaisesAt (throw {A = A} e) w
unfolding throw
throw_raises e w = (e, refl)

pure_returns : {A : Type 0} (a : A) (w : World) → pure a w ≡ (ok a, w)
unfolding pure
pure_returns a w = refl

verify_all_spoilt :
    (p : Platform) (items : List Snapshot) (w : World)
    → HasSpoilt p w.disk.staging.before items
    → RaisesAt (verify_backups p items) w
unfolding verify_backups
verify_all_spoilt p [] w h = absurd h
verify_all_spoilt p (s ∷ items) w (inl h) = bind_raises _ _ w (verify_spoilt p s w h)
verify_all_spoilt p (s ∷ items) w (inr h) = elim (verify_reads p s w) [
  | inl q ↦
      bind_at (verify_backup p s) (λ _. verify_backups p items) w tt q
        (verify_all_spoilt p items w h)
  | inr r ↦ bind_raises _ _ w r
]

-- A journal that fails a check.
stage_invalid :
    (p : Platform) (w : World) (j : Journal)
    → valid_journal j ≡ false
    → RaisesAt (recover_stage p (some (readable j))) w
unfolding recover_stage recover_journal read_journal
stage_invalid p w j h = rw h (bind_raises _ _ w (throw_raises {A = Journal} invalid_journal w))

stage_spoilt :
    (p : Platform) (w : World) (j : Journal)
    → valid_journal j ≡ true
    → (j.state === "committed") ≡ false
    → HasSpoilt p w.disk.staging.before j.indexes
    → RaisesAt (recover_stage p (some (readable j))) w
unfolding recover_stage recover_journal read_journal restore
stage_spoilt p w j v c h = rw v (
    bind_at _ _ w j (pure_returns j w)
      (rw c (bind_raises _ _ w (verify_all_spoilt p j.indexes w h))))

stage_unusable :
    (p : Platform) (w : World) (file : JournalFile)
    → IsUnusable p w.disk.staging.before file
    → RaisesAt (recover_stage p (some file)) w
unfolding recover_stage recover_journal read_journal
stage_unusable p w unreadable broken_text = bind_raises _ _ w (throw_raises invalid_journal w)
stage_unusable p w (readable j) (unknown_version a b) =
    stage_invalid p w j (by_version j (neither _ _ a b))
stage_unusable p w (readable j) (unknown_state a b) =
    stage_invalid p w j (by_state j (neither _ _ a b))
stage_unusable p w (readable j) (other_operation a b) = stage_invalid p w j (by_operation j a b)
stage_unusable p w (readable j) (wrong_count a) = stage_invalid p w j (by_count j a)
stage_unusable p w (readable j) (unknown_index n o h) =
    stage_invalid p w j
      (by_unknown j (not_all (λ s. member s index_names) (snapshot_names j.indexes) n o h))
stage_unusable p w (readable j) (missing_index n o h) =
    stage_invalid p w j
      (by_missing j (not_all (λ s. member s (snapshot_names j.indexes)) index_names n o h))
stage_unusable p w (readable j) (spoilt_backup c h) = elim (Bool-cases (valid_journal j)) [
  | inl v ↦ stage_spoilt p w j v c h
  | inr i ↦ stage_invalid p w j i
]

validate_returns : (w : World) → w.disk.supported ≡ true → validate_store_version w ≡ (ok tt, w)
unfolding validate_store_version ◌>>=◌ get_disk pure
validate_returns w s = rw s refl

try_raises :
    (m : Io Bool) (w : World)
    → RaisesAt m w
    → try_except m (λ e. throw recovery_required) w ≡ (raise recovery_required, w)
unfolding try_except throw
try_raises m w (e, q) = rw q refl

-- A recovery in a store of a supported version, with a stage that has a journal, raises
-- StoreRecoveryError and leaves the disk, the stage included, as it is where the journal cannot be
-- read, has another version than 1 and 2 or another state than pending and committed, is of version
-- 2 without the operation indexes, does not list seven indexes, lists an unknown one or lacks a
-- known one, or is not committed and has a backup that is missing or has another digest.
pub recover-refuses :
    (p : Platform) (w : World) (file : JournalFile)
    → w.disk.supported ≡ true
    → w.disk.staged ≡ true
    → w.disk.staging.journal ≡ some file
    → IsUnusable p w.disk.staging.before file
    → recover_pending_import p w ≡ (raise recovery_required, w)
unfolding recover_pending_import ◌>>=◌ get_disk
recover-refuses p w file s t j h =
    let handler : Error → Io Bool = λ e. throw recovery_required in
    rw (validate_returns w s) (
      subst
        (λ b.
          (if b then try_except (recover_stage p w.disk.staging.journal) handler else pure false) w
          ≡ (raise recovery_required, w))
        (sym t)
        (subst (λ o. try_except (recover_stage p o) handler w ≡ (raise recovery_required, w))
          (sym j) (try_raises _ w (stage_unusable p w file h))))
