-- ===== src/Store/Disk.antt =====
-- The files of a store that an import touches, and the operations of the file system on them.
-- Each operation consumes one event of a schedule, which says whether it succeeds, fails, or is
-- where the process dies; a `late` event leaves the effect on the disk before the failure
-- (atomic_write.py: the replacement is published and the directory sync fails).
pub mod Triples
use harness_auto_test_eviden.Prelude.{
  ℕ, String, Bool, true, false, Option, none, some, List, [], ◌∷◌,
}

abbrev pub Bytes : Type 0
Bytes = List ℕ

-- The files of one bundle directory, by name.
abbrev pub Dir : Type 0
Dir = List (String × Bytes)

-- One entry of the journal's "indexes".
pub record Snapshot : Type 0 where
  pub name : String
  pub exists : Bool
  pub digest : String

pub record Journal : Type 0 where
  pub version : ℕ
  pub state : String
  pub operation : Option String
  pub bundle_dir : String
  pub bundle_existed : Bool
  pub indexes : List Snapshot
  pub failed : Bool

-- journal.json; `unreadable` stands for every text that is no journal of the right types.
pub data JournalFile : Type 0 where
  unreadable : JournalFile
  readable : Journal → JournalFile

-- What lies in migrations/pending-import.
pub record Staging : Type 0 where
  pub journal : Option JournalFile
  pub before : String → Option Bytes
  pub failed_bundle : Option Dir

pub record Disk : Type 0 where
  pub supported : Bool
  pub indexes : String → Option Bytes
  pub runs : String → Option Dir
  pub staged : Bool
  pub staging : Staging
  pub archived : List Staging

abbrev pub empty_staging : Staging
empty_staging = record { journal = none; before = λ _. none; failed_bundle = none }

pub data Event : Type 0 where
  go fail crash late_fail late_crash : Event

pub data Error : Type 0 where
  version_error invalid_journal recovery_required durability_uncertain : Error
  incomplete_bundle not_committed import_failed : Error
  io_error : (published : Bool) → Error

pub data Outcome (A : Type 0) : Type 0 where
  ok : A → Outcome A
  raise : Error → Outcome A
  crashed : Outcome A

-- The disk, the events to come, and the transaction object's flag `committed`.
pub record World : Type 0 where
  pub disk : Disk
  pub events : List Event
  pub committed : Bool

abbrev pub Io : Type 0 → Type 0
Io A = World → Outcome A × World

module _ {A B : Type 0} where
  abbrev pub continue : Outcome A → (A → Io B) → Io B
  continue (ok a) f w = f a w
  continue (raise e) f w = (raise e, w)
  continue crashed f w = (crashed, w)

  infixl 10 ◌>>=◌ ◌>>◌
  unfoldable pub ◌>>=◌ : Io A → (A → Io B) → Io B
  ◌>>=◌ m f w = let (r, w') = m w in continue r f w'

  abbrev pub ◌>>◌ : Io A → Io B → Io B
  m >> n = m >>= λ _. n

module _ {A : Type 0} where
  unfoldable pub pure : A → Io A
  pure a w = (ok a, w)

  unfoldable pub throw : Error → Io A
  throw e w = (raise e, w)

  abbrev pub handled : Outcome A → (Error → Io A) → Io A
  handled (raise e) h w = h e w
  handled r h w = (r, w)

  -- try: m / except: h. A crash runs no handler.
  unfoldable pub try_except : Io A → (Error → Io A) → Io A
  try_except m h w = let (r, w') = m w in handled r h w'

unfoldable pub get_disk : Io Disk
get_disk w = (ok w.disk, w)

abbrev pub at_event : Event → (Disk → Disk) → (Disk → Disk) → Io Unit
at_event go whole part w = (ok tt, record w { disk = whole w.disk })
at_event fail whole part w = (raise (io_error false), w)
at_event crash whole part w = (crashed, w)
at_event late_fail whole part w = (raise (io_error true), record w { disk = part w.disk })
at_event late_crash whole part w = (crashed, record w { disk = part w.disk })

abbrev pub perform_next : List Event → (Disk → Disk) → (Disk → Disk) → Io Unit
perform_next [] whole part w = at_event go whole part w
perform_next (e ∷ es) whole part w = at_event e whole part (record w { events = es })

-- One operation on the disk: its whole effect, and what a late failure leaves. With no event
-- left every operation succeeds.
unfoldable pub perform : (Disk → Disk) → (Disk → Disk) → Io Unit
perform whole part w = perform_next w.events whole part w

-- atomic_write_bytes: what is published is the whole content.
abbrev pub write : (Disk → Disk) → Io Unit
write f = perform f f

-- mkdir, unlink, os.replace: a failed call leaves the disk as it was.
abbrev pub change : (Disk → Disk) → Io Unit
change f = perform f (λ d. d)
