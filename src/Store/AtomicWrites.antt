-- ===== src/Store/AtomicWrites.antt =====
-- atomic_write_bytes call by call (src/hate/store/atomic_write.py): the temporary file, the loop of
-- os.write, the syncs, the replacement and the clean-up. Each call of the operating system has an
-- answer, which says that it succeeds, that it fails, or that the process dies before or after its
-- effect.
pub mod Phases
mod Tests
use harness_auto_test_eviden.Prelude.{
  ℕ, String, Bool, true, false, Option, none, some, List, [], ◌∷◌, ◌++◌, ◌==◌, take, drop,
  if◌then◌else◌,
}
use harness_auto_test_eviden.Store.Disk.{Bytes}

pub data Answer : Type 0 where
  succeeds fails dies_before dies_after : Answer

-- os.write: how many bytes it took (at most those that are left), or how it broke off
pub data Write : Type 0 where
  took : ℕ → Write
  write_fails write_dies : Write

-- The answers to the calls in their order. A loop of writes that outlasts `writes` has its last
-- call take all that is left.
pub record Calls : Type 0 where
  pub mkdir : Answer
  pub mkstemp : Answer
  pub writes : List Write
  pub fsync : Answer
  pub close : Answer
  pub replace : Answer
  pub sync_parent : Answer
  pub unlink : Answer

-- The target file and the temporary file beside it
pub record Place : Type 0 where
  pub target : Option Bytes
  pub temp : Option Bytes

pub data Result : Type 0 where
  returned : Result
  write_error : (phase : String) (published : Bool) → Result
  died : Result

-- What the loop of writes leaves in the temporary file
pub data Written : Type 0 where
  all_written : Bytes → Written
  broke_off : Bytes → Written
  died_writing : Bytes → Written

-- while remaining: …
unfoldable pub write_all : List Write → (remaining temp : Bytes) → Written
write_all ws [] temp = all_written temp
write_all [] (b ∷ bs) temp = all_written (temp ++ (b ∷ bs))
write_all (write_fails ∷ ws) (b ∷ bs) temp = broke_off temp
write_all (write_dies ∷ ws) (b ∷ bs) temp = died_writing temp
write_all (took n ∷ ws) (b ∷ bs) temp =
    let rest = write_all ws (drop n (b ∷ bs)) (temp ++ take n (b ∷ bs)) in
    if n == 0 then broke_off temp else rest

-- A call with what it does to the files, and what follows it where it succeeds or fails
abbrev pub call :
    Answer
    → (Place → Place)
    → (Place → Place × Result)
    → (Place → Place × Result)
    → Place
    → Place × Result
call succeeds effect next failed p = next (effect p)
call fails effect next failed p = failed p
call dies_before effect next failed p = (p, died)
call dies_after effect next failed p = (effect p, died)

abbrev pub set_temp : Option Bytes → Place → Place
set_temp t p = record p { temp = t }

module _ (c : Calls) (content : Bytes) where
  -- except and finally, with a temporary file: it is unlinked, or kept with a warning.
  unfoldable pub clean_up : String → Place → Place × Result
  clean_up phase p =
      call c.unlink (set_temp none) (λ q. (q, write_error phase false))
        (λ q. (q, write_error phase false)) p

  unfoldable pub sync_and_return : Place → Place × Result
  sync_and_return p =
      call c.sync_parent (λ q. q) (λ q. (q, returned)) (λ q. (q, write_error "fsync" true)) p

  -- os.replace: the target becomes the temporary file, which is there no more.
  unfoldable pub publish : Place → Place × Result
  publish p =
      call c.replace (λ q. record { target = q.temp; temp = none }) sync_and_return
        (clean_up "rename") p

  unfoldable pub sync_temp : Place → Place × Result
  sync_temp p =
      call c.fsync (λ q. q) (call c.close (λ q. q) publish (clean_up "fsync")) (clean_up "fsync") p

  unfoldable pub after_writes : Written → Place → Place × Result
  after_writes (all_written t) p = sync_temp (set_temp (some t) p)
  after_writes (broke_off t) p = clean_up "write" (set_temp (some t) p)
  after_writes (died_writing t) p = (set_temp (some t) p, died)

  -- `within` says that _validate_path_within_store raises nothing.
  unfoldable pub atomic_write_bytes : (within : Bool) → Place → Place × Result
  atomic_write_bytes within p =
      if within
      then call c.mkdir (λ q. q)
          (call c.mkstemp (set_temp (some [])) (after_writes (write_all c.writes content []))
            (λ q. (q, write_error "write" false)))
          (λ q. (q, write_error "write" false)) p
      else (p, write_error "write" false)
