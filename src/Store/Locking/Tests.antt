-- ===== src/Store/Locking/Tests.antt =====
-- A thread in a nested session while another one finds the store busy.
use harness_auto_test_eviden.Prelude.{ℕ, true, false, ◌≡◌, refl}
use harness_auto_test_eviden.Store.Locking.{
  Locks, enter_lock, enter_session, begins, idle, IsReachable, at_start, after,
}
use harness_auto_test_eviden.Store.Locking.Exclusion.{reachable-IsSound, sessions-exclude}
use harness_auto_test_eviden.Store.Locking.Invariant.{IsSound}

-- Thread 1 opens a session and one inside it; thread 2 tries, and finds the store busy.
abbrev busy : Locks
busy =
    (enter_session true true 2 (enter_session true true 1 (enter_session true true 1 idle).1).1).1

busy-IsReachable : IsReachable busy
busy-IsReachable =
    after (after (after at_start (begins true true 1)) (begins true true 1)) (begins true true 2)

second_refused : (enter_session true true 2 (enter_session true true 1 idle).1).0 ≡ false
unfolding enter_session enter_lock
second_refused = refl

reachable-IsSound_example : IsSound busy
reachable-IsSound_example = reachable-IsSound busy busy-IsReachable

sessions-exclude_example : ◌≡◌ {A = ℕ} 1 1
unfolding enter_session enter_lock
sessions-exclude_example = sessions-exclude busy 1 1 busy-IsReachable refl refl
