-- ===== src/Store/AtomicWrites/Tests.antt =====
-- A file of one byte that is replaced by three, in two writes, with a failing sync at the end.
use harness_auto_test_eviden.Prelude.{ℕ, true, false, Option, none, some, List, [], ◌∷◌, ◌≡◌, refl}
use harness_auto_test_eviden.Store.Disk.{Disk, Event, World, write, empty_staging}
use harness_auto_test_eviden.Store.AtomicWrites.{
  succeeds, fails, took, Calls, Place, write_error, write_all, clean_up, sync_and_return, publish,
  sync_temp, after_writes, atomic_write_bytes,
}
use harness_auto_test_eviden.Store.AtomicWrites.Phases.{
  Tells, outcome, atomic_write_bytes-Tells, atomic_write_bytes-refines,
}

abbrev calls : Calls
calls = record {
  mkdir = succeeds;
  mkstemp = succeeds;
  writes = took 2 ∷ took 1 ∷ [];
  fsync = succeeds;
  close = succeeds;
  replace = succeeds;
  sync_parent = fails;
  unlink = succeeds;
}

abbrev one_byte : Place
one_byte = record { target = some (1 ∷ []); temp = none }

-- The write is published, and says so.
published :
    atomic_write_bytes calls (5 ∷ 6 ∷ 7 ∷ []) true one_byte
    ≡ (record { target = some (5 ∷ 6 ∷ 7 ∷ []); temp = none }, write_error "fsync" true)
unfolding atomic_write_bytes after_writes sync_temp publish sync_and_return write_all
published = refl

-- A write that takes nothing is an error, and the temporary file is removed.
stuck :
    atomic_write_bytes (record calls { writes = took 0 ∷ [] }) (5 ∷ []) true one_byte
    ≡ (one_byte, write_error "write" false)
unfolding atomic_write_bytes after_writes clean_up write_all
stuck = refl

atomic_write_bytes-Tells_example :
    Tells (some (1 ∷ [])) (5 ∷ 6 ∷ 7 ∷ []) (atomic_write_bytes calls (5 ∷ 6 ∷ 7 ∷ []) true one_byte)
atomic_write_bytes-Tells_example =
    atomic_write_bytes-Tells (some (1 ∷ [])) (5 ∷ 6 ∷ 7 ∷ []) calls true one_byte refl

-- A disk whose index files are all one file
abbrev disk : Disk
disk = record {
  supported = true;
  indexes = λ _. some (1 ∷ []);
  runs = λ _. none;
  staged = false;
  staging = empty_staging;
  archived = [];
}

abbrev set_indexes : Option (List ℕ) → Disk → Disk
set_indexes t d = record d { indexes = λ _. t }

abbrev world : World
world = record { disk = disk; events = []; committed = false }

atomic_write_bytes-refines_example :
    (e : Event) × (write (set_indexes (some (5 ∷ 6 ∷ 7 ∷ []))) (record world { events = e ∷ [] })
      ≡ (
        outcome (atomic_write_bytes calls (5 ∷ 6 ∷ 7 ∷ []) true one_byte).1,
        record world {
          disk =
              set_indexes (atomic_write_bytes calls (5 ∷ 6 ∷ 7 ∷ []) true one_byte).0.target disk;
        },
      ))
atomic_write_bytes-refines_example =
    atomic_write_bytes-refines set_indexes world calls (5 ∷ 6 ∷ 7 ∷ []) true one_byte refl
