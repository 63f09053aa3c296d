-- ===== src/Store/AtomicWrites/Phases.antt =====
-- What atomic_write_bytes leaves in each phase, and that Store.Disk.write is its contract
-- (atomic_write.py).
use mathlib.Core.List.{append-nil, append_assoc}
use harness_auto_test_eviden.Prelude.{
  String, Bool, true, false, Option, none, some, List, [], ◌∷◌, ◌++◌, ◌≡◌, refl, sym, ap, ◌∙◌,
  subst, ◌⊎◌, inl, inr, ◌==◌, take, drop, take-append-drop, Bool-cases,
}
use harness_auto_test_eviden.Store.Disk.{
  Bytes, Disk, Event, go, fail, crash, late_fail, late_crash, Outcome, ok, raise, crashed, io_error,
  World, write, perform,
}
use harness_auto_test_eviden.Store.AtomicWrites.{
  Answer, succeeds, fails, dies_before, dies_after, Write, took, write_fails, write_dies, Calls,
  Place, Result, returned, write_error, died, Written, all_written, broke_off, died_writing,
  write_all, call, set_temp, clean_up, sync_and_return, publish, sync_temp, after_writes,
  atomic_write_bytes,
}

-- A temporary file that is written to its end
abbrev IsWhole : Bytes → Written → Type 0
IsWhole whole (all_written t) = t ≡ whole
IsWhole whole (broke_off t) = Unit
IsWhole whole (died_writing t) = Unit

write_all-IsWhole :
    (ws : List Write) (remaining temp : Bytes)
    → IsWhole (temp ++ remaining) (write_all ws remaining temp)
unfolding write_all
write_all-IsWhole ws [] temp = sym (append-nil temp)
write_all-IsWhole [] (b ∷ bs) temp = refl
write_all-IsWhole (write_fails ∷ ws) (b ∷ bs) temp = tt
write_all-IsWhole (write_dies ∷ ws) (b ∷ bs) temp = tt
write_all-IsWhole (took n ∷ ws) (b ∷ bs) temp = elim (Bool-cases (n == 0)) [
  | inl t ↦ rw t tt
  | inr f ↦ rw f (
      subst (λ x. IsWhole x (write_all ws (drop n (b ∷ bs)) (temp ++ take n (b ∷ bs))))
        (append_assoc temp (take n (b ∷ bs)) (drop n (b ∷ bs))
          ∙ ap (λ x. temp ++ x) (take-append-drop n (b ∷ bs)))
        (write_all-IsWhole ws (drop n (b ∷ bs)) (temp ++ take n (b ∷ bs))))
]

module _ (old : Option Bytes) (content : Bytes) where
  -- What a result of the write says about the files
  abbrev pub Tells : Place × Result → Type 0
  Tells (p, returned) = (p.target ≡ some content) × (p.temp ≡ none)
  Tells (p, write_error phase true) = (p.target ≡ some content) × (p.temp ≡ none)
  Tells (p, write_error phase false) = p.target ≡ old
  Tells (p, died) = (p.target ≡ old) ⊎ (p.target ≡ some content)

  call-Tells :
      (a : Answer) (effect : Place → Place) (next failed : Place → Place × Result) (p : Place)
      → Tells (next (effect p))
      → Tells (failed p)
      → Tells (p, died)
      → Tells (effect p, died)
      → Tells (call a effect next failed p)
  call-Tells succeeds effect next failed p n f b d = n
  call-Tells fails effect next failed p n f b d = f
  call-Tells dies_before effect next failed p n f b d = b
  call-Tells dies_after effect next failed p n f b d = d

  module _ (c : Calls) where
    clean_up-Tells :
        (phase : String) (p : Place) → p.target ≡ old → Tells (clean_up c content phase p)
    unfolding clean_up
    clean_up-Tells phase p h = call-Tells c.unlink _ _ _ p h h (inl h) (inl h)

    publish-Tells :
        (p : Place) → p.target ≡ old → p.temp ≡ some content → Tells (publish c content p)
    unfolding publish sync_and_return
    publish-Tells p h t =
        call-Tells c.replace _ _ _ p
          (call-Tells c.sync_parent _ _ _ _ (t, refl) (t, refl) (inr t) (inr t))
          (clean_up-Tells "rename" p h) (inl h) (inr t)

    sync_temp-Tells :
        (p : Place) → p.target ≡ old → p.temp ≡ some content → Tells (sync_temp c content p)
    unfolding sync_temp
    sync_temp-Tells p h t =
        call-Tells c.fsync _ _ _ p
          (call-Tells c.close _ _ _ p (publish-Tells p h t) (clean_up-Tells "fsync" p h) (inl h)
            (inl h))
          (clean_up-Tells "fsync" p h) (inl h) (inl h)

    after_writes-Tells :
        (w : Written) (p : Place)
        → IsWhole content w
        → p.target ≡ old
        → Tells (after_writes c content w p)
    unfolding after_writes
    after_writes-Tells (all_written t) p e h = sync_temp-Tells (set_temp (some t) p) h (ap some e)
    after_writes-Tells (broke_off t) p e h = clean_up-Tells "write" (set_temp (some t) p) h
    after_writes-Tells (died_writing t) p e h = inl h

    -- Whatever the calls of the operating system answer, a write that returns, or fails with
    -- published=true, has replaced the target by the whole content and left no temporary file; one
    -- that fails with published=false has kept the target; and where the process dies, the target is
    -- the old or the whole new one.
    pub atomic_write_bytes-Tells :
        (within : Bool) (p : Place) → p.target ≡ old → Tells (atomic_write_bytes c content within p)
    unfolding atomic_write_bytes
    atomic_write_bytes-Tells false p h = h
    atomic_write_bytes-Tells true p h =
        call-Tells c.mkdir _ _ _ p
          (call-Tells c.mkstemp _ _ _ p
            (after_writes-Tells (write_all c.writes content []) (set_temp (some []) p)
              (write_all-IsWhole c.writes content []) h)
            h (inl h) (inl h))
          h (inl h) (inl h)

-- The result of a write for the operations of Store.Disk
abbrev pub outcome : Result → Outcome Unit
outcome returned = ok tt
outcome (write_error phase published) = raise (io_error published)
outcome died = crashed

-- Every run of atomic_write_bytes is one step of Store.Disk.write, which publishes the whole content
-- or nothing: for each run there is an event with the same effect on the file and the same outcome,
-- where `put` sets the file on the disk and the disk holds the target before.
pub atomic_write_bytes-refines :
    (put : Option Bytes → Disk → Disk) (w : World) (c : Calls) (content : Bytes) (within : Bool)
    (p : Place)
    → put p.target w.disk ≡ w.disk
    → (e : Event) × (write (put (some content)) (record w { events = e ∷ w.events }) ≡ (
      outcome (atomic_write_bytes c content within p).1,
      record w { disk = put (atomic_write_bytes c content within p).0.target w.disk },
    ))
unfolding perform
atomic_write_bytes-refines put w c content within p h =
    by_result (atomic_write_bytes c content within p)
      (atomic_write_bytes-Tells p.target content c within p refl)
  where
    at : Option Bytes → Disk
    at t = put t w.disk

    after :
        {a b : Disk} (o : Outcome Unit)
        → a ≡ b
        → ◌≡◌ {A = Outcome Unit × World} (o, record w { disk = a }) (o, record w { disk = b })
    after o q = ap (λ d. (o, record w { disk = d })) q

    kept : (q : Place) → q.target ≡ p.target → w.disk ≡ put q.target w.disk
    kept q t = sym h ∙ ap at (sym t)

    by_result :
        (r : Place × Result)
        → Tells p.target content r
        → (e : Event) × (write (put (some content)) (record w { events = e ∷ w.events })
            ≡ (outcome r.1, record w { disk = put r.0.target w.disk }))
    by_result (q, returned) (t, _) = (go, after (ok tt) (ap at (sym t)))
    by_result (q, write_error phase true) (t, _) =
        (late_fail, after (raise (io_error true)) (ap at (sym t)))
    by_result (q, write_error phase false) t = (fail, after (raise (io_error false)) (kept q t))
    by_result (q, died) (inl t) = (crash, after crashed (kept q t))
    by_result (q, died) (inr t) = (late_crash, after crashed (ap at (sym t)))
