-- ===== src/Store/Locking.antt =====
-- The lock and the sessions of one store (src/hate/store/locking.py). A thread's frames are the
-- with statements that it is in, the innermost first; the operating system's file lock is the
-- owner. Whether the store version is supported and the recovery succeeds are arguments.
pub mod Invariant
pub mod Exclusion
mod Tests
use harness_auto_test_eviden.Prelude.{
  ℕ, Bool, true, false, ◌≡◌, Option, none, some, List, [], ◌∷◌, ◌==◌, if◌then◌else◌,
}

-- What a with statement did on entry: store_lock yields True for the owned lock, False for a nested
-- one; a session is nested where the thread has one.
pub data Frame : Type 0 where
  nested_lock owned_lock nested_session own_session : Frame

-- The thread-local `held` and `sessions`, and the frames.
pub record Thread : Type 0 where
  pub held : Bool
  pub in_session : Bool
  pub frames : List Frame

pub record Locks : Type 0 where
  pub owner : Option ℕ
  pub threads : ℕ → Thread

abbrev pub put : Locks → ℕ → Thread → ℕ → Thread
put s t th u = if u == t then th else s.threads u

-- store_lock on entry, by the owner of the file lock; none: LocalStoreError, the store is busy.
abbrev pub acquire : ℕ → Locks → Option ℕ → Option Locks
acquire t s none =
    let th = s.threads t in
    some (record {
      owner = some t;
      threads = put s t (record th { held = true; frames = owned_lock ∷ th.frames });
    })
acquire t s (some u) = none

unfoldable pub enter_lock : ℕ → Locks → Option Locks
enter_lock t s =
    let th = s.threads t in
    if th.held
    then some (record s { threads = put s t (record th { frames = nested_lock ∷ th.frames }) })
    else acquire t s s.owner

-- The end of the innermost with statement.
abbrev pub leave_frame : ℕ → Locks → List Frame → Locks
leave_frame t s [] = s
leave_frame t s (nested_lock ∷ rest) = record s {
  threads = put s t (record (s.threads t) { frames = rest });
}
leave_frame t s (owned_lock ∷ rest) = record {
  owner = none;
  threads = put s t (record (s.threads t) { held = false; frames = rest });
}
leave_frame t s (nested_session ∷ rest) = record s {
  threads = put s t (record (s.threads t) { frames = rest });
}
leave_frame t s (own_session ∷ rest) = record s {
  threads = put s t (record (s.threads t) { in_session = false; frames = rest });
}

unfoldable pub leave : ℕ → Locks → Locks
leave t s = leave_frame t s (s.threads t).frames

abbrev pub open_session : ℕ → Locks → Locks
open_session t s =
    let th = s.threads t in
    record s {
      threads = put s t (record th { in_session = true; frames = own_session ∷ th.frames });
    }

-- store_session once the lock is tried: the recovery may raise, and then the lock is left.
abbrev pub recover_in : Bool → ℕ → Option Locks → Locks → Bool × Locks
recover_in recovered t none s = (false, s)
recover_in true t (some s') s = (true, open_session t s')
recover_in false t (some s') s = (false, leave t s')

-- store_session on entry: whether it was entered, and the locks.
unfoldable pub enter_session : Bool → Bool → ℕ → Locks → Bool × Locks
enter_session supported recovered t s =
    let th = s.threads t in
    if th.in_session
    then (true, record s { threads = put s t (record th { frames = nested_session ∷ th.frames }) })
    else if supported
    then recover_in recovered t (enter_lock t s) s
    else (false, s)

-- What threads do with the store, in any order.
pub data Step : Locks → Locks → Type 0 where
  locks : {s s' : Locks} (t : ℕ) → enter_lock t s ≡ some s' → Step s s'
  leaves : {s : Locks} (t : ℕ) → Step s (leave t s)
  begins :
      {s : Locks} (supported recovered : Bool) (t : ℕ)
      → Step s (enter_session supported recovered t s).1

abbrev pub idle : Locks
idle = record {
  owner = none;
  threads = λ t. record { held = false; in_session = false; frames = [] };
}

pub data IsReachable : Locks → Type 0 where
  at_start : IsReachable idle
  after : {s s' : Locks} → IsReachable s → Step s s' → IsReachable s'
