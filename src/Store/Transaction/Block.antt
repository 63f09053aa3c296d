-- ===== src/Store/Transaction/Block.antt =====
-- The statement `with transaction: …` (transaction.py): __enter__, the body, commit and __exit__.
use harness_auto_test_eviden.Prelude.{
  String, Bool, true, false, [], ◌≡◌, refl, ◌≢◌, ◌⊎◌, inl, inr, sym, subst, ap, ◌∙◌, Bool-cases,
  All, by_test,
}
use harness_auto_test_eviden.Store.Disk.{
  Journal, Staging, Disk, continue, Error, Outcome, ok, raise, crashed, World, Io, ◌>>=◌,
}
use harness_auto_test_eviden.Store.Disk.Triples.{IsQuiet, Post, Hoare, Triple-weaken, Triple-bind}
use harness_auto_test_eviden.Store.Transaction.{
  Platform, commit, exit_normal, exit_error, exit, run_block, run, enter, index_names,
}
use harness_auto_test_eviden.Store.Transaction.States.{
  journal_of, IsRolledBack, StartsEmpty, HasContent, Follows,
}
use harness_auto_test_eviden.Store.Transaction.Bundles.{Broken}
use harness_auto_test_eviden.Store.Transaction.Enter.{IsEntered, Entered, Clean, enter-Entered}
use harness_auto_test_eviden.Store.Transaction.Commit.{Discarded}
use harness_auto_test_eviden.Store.Transaction.Atomic.{
  Committed, IsReady, CommitRaised, CommitDied, commit-Hoare, exit_open, Ready-Recoverable,
}

-- What a transaction relies on of its body: it changes only indexes and bundles, and it dies only
-- where an event says so.
pub record IsFramed (body : Io Unit) : Type 0 where
  pub supported : (w : World) → (body w).1.disk.supported ≡ w.disk.supported
  pub staged : (w : World) → (body w).1.disk.staged ≡ w.disk.staged
  pub staging : (w : World) → (body w).1.disk.staging ≡ w.disk.staging
  pub committed : (w : World) → (body w).1.committed ≡ w.committed
  pub events : (w : World) → w.events ≡ [] → (body w).1.events ≡ []
  pub alive : (w : World) → w.events ≡ [] → (body w).0 ≢ crashed

-- The disk that the body leaves in a run from this world.
unfoldable pub left_by : Platform → Bool → String → Io Unit → World → Disk
left_by p index_only dir body w =
    (body (record ((enter p index_only dir w).1) { committed = false })).1.disk

module _ (p : Platform) (index_only : Bool) (dir : String) (before : Disk) (quiet : Bool)
    (start : StartsEmpty index_only (before.runs dir)) (supported : before.supported ≡ true)
    (unstaged : before.staged ≡ false) (body : Io Unit) (framed : IsFramed body) where
  module _ (after : Disk) where
    abbrev Ready : World → Type 0
    Ready = IsReady p index_only dir before after quiet start supported unstaged

    -- An error of the block.
    abbrev pub Raised : World → Type 0
    Raised w =
        Ready w
        ⊎ ((quiet ≡ false)
            × Committed p index_only dir before after quiet start supported unstaged w
            × (w.committed ≡ true))

    abbrev pub Died : World → Type 0
    Died = CommitDied p index_only dir before after quiet start supported unstaged

    abbrev pub Undone : World → Type 0
    Undone w = IsRolledBack p index_only dir before w.disk ⊎ Died w

    Broken-Died : (w : World) → Broken p index_only dir before quiet w → Died w
    Broken-Died w h = (h.0, inl h.1)

    CommitRaised-Raised :
        (w : World)
        → CommitRaised p index_only dir before after quiet start supported unstaged w
        → Raised w
    CommitRaised-Raised w (f, inl (c, t)) = inr (f, c, t)
    CommitRaised-Raised w (f, inr r) = inl r

    abbrev pub Ends : Outcome Unit × World → Type 0
    Ends m =
        IsQuiet quiet m.1
        × Post (λ _. Discarded p index_only dir before after quiet) Undone Died m.0 m.1

    exit-Post :
        (r : Outcome Unit) (w : World)
        → IsQuiet quiet w
        → Post
            (λ _ w. Discarded p index_only dir before after quiet w × (w.committed ≡ true))
            Raised
            Died
            r
            w
        → Ends (exit p (journal_of p index_only dir before false) r w)
    unfolding exit_normal exit_error
    exit-Post (ok _) w z h = by_test Ends w.committed _ _ (λ t. (z, h.0)) (λ n. absurd (cc (h.1)))
    exit-Post (raise e) w z (inr (f, c, t)) =
        by_test Ends w.committed _ _ (λ t. (z, inr (f, inr c))) (λ n. absurd (cc))
    exit-Post (raise e) w z (inl r) =
        by_test Ends w.committed _ _ (λ t. absurd (cc (r.open_still)))
          (λ n.
            (Triple-weaken _
                (exit_open p index_only dir before after quiet start supported unstaged e)
                (λ w h. h) (λ _ w h. absurd h)
                (λ w h. elim h [ inl b ↦ inl b | inr b ↦ inr (Broken-Died w b) ]) Broken-Died).at
              w z r)
    exit-Post crashed w z h = (z, h)

    committed_Follows :
        quiet ≡ true
        → (o : Outcome Unit) (v : World)
        → Post
            (λ _ w. Discarded p index_only dir before after quiet w × (w.committed ≡ true))
            (CommitRaised p index_only dir before after quiet start supported unstaged)
            Died
            o
            v
        → Follows p index_only dir before after
            (ok tt)
            (exit p (journal_of p index_only dir before false) o v)
    unfolding exit_normal
    committed_Follows t (ok _) v h =
        by_test (Follows p index_only dir before after (ok tt)) v.committed _ _
          (λ c. (refl, h.0.1 t)) (λ n. absurd (cc (h.1)))
    committed_Follows t (raise e) v h = absurd (cc (h.0))
    committed_Follows t crashed v h = absurd (cc (h.0))

    undone_Follows :
        quiet ≡ true
        → (e : Error) (m : Outcome Unit × World)
        → Post
            (λ _ _. ⊥)
            (λ w.
              IsRolledBack p index_only dir before w.disk ⊎ Broken p index_only dir before quiet w)
            (Broken p index_only dir before quiet)
            m.0
            m.1
        → Follows p index_only dir before after (raise e) m
    undone_Follows t e (ok _, v) h = absurd h
    undone_Follows t e (raise x, v) (inl r) = ((x, refl), r)
    undone_Follows t e (raise x, v) (inr b) = absurd (cc (b.0))
    undone_Follows t e (crashed, v) h = absurd (cc (h.0))

    failed_Follows :
        quiet ≡ true
        → (e : Error) (v : World) → IsQuiet quiet v
        → Ready v
        → Follows p index_only dir before after
            (raise e)
            (exit p (journal_of p index_only dir before false) (raise e) v)
    unfolding exit_error
    failed_Follows t e v z r =
        by_test (Follows p index_only dir before after (raise e)) v.committed _ _
          (λ c. absurd (cc (r.open_still)))
          (λ n.
            undone_Follows t e _
              ((exit_open p index_only dir before after quiet start supported unstaged e).at v z
                r).1)

  -- The body from the world that __enter__ left.
  module _ (w : World) (z : IsQuiet quiet w)
      (h : IsEntered p index_only dir before quiet start supported unstaged w.disk) where
    abbrev opened : World
    opened = record w { committed = false }

    abbrev after : Disk
    after = (body opened).1.disk

    body-Ready : Ready after (body opened).1
    body-Ready = record {
      entered = record {
        supported_still = framed.supported opened ∙ h.supported_still;
        staged = framed.staged opened ∙ h.staged;
        journal = ap (λ (s : Staging). s.journal) (framed.staging opened) ∙ h.journal;
        backups =
            subst (λ (s : Staging). All (HasContent before.indexes s.before) index_names)
              (sym (framed.staging opened)) h.backups;
        moved = ap (λ (s : Staging). s.failed_bundle) (framed.staging opened) ∙ h.moved;
      };
      kept = record {
        supported = framed.supported opened ∙ h.supported_still;
        indexes = refl;
        runs = refl;
      };
      open_still = framed.committed opened;
    }

    body-Post :
        (r : Outcome Unit)
        → (body opened).0 ≡ r
        → Post (λ _. Ready after) (Raised after) (Died after) r (body opened).1
    body-Post (ok _) e = body-Ready
    body-Post (raise e) q = inl body-Ready
    body-Post crashed e = elim (Bool-cases quiet) [
      | inl t ↦ absurd (framed.alive opened (z t) e)
      | inr f ↦ (
        f,
        inl (
            Ready-Recoverable p index_only dir before after quiet start supported unstaged _
              body-Ready),
      )
    ]

    body-Hoare : Hoare quiet (λ w'. w' ≡ opened) body (λ _. Ready after) (Raised after) (Died after)
    body-Hoare = record {
      at = λ w' z' q.
          subst
            (λ v.
              IsQuiet quiet (body v).1
              × Post (λ _. Ready after) (Raised after) (Died after) (body v).0 (body v).1)
            (sym q) ((λ t. framed.events opened (z t)), body-Post (body opened).0 refl);
    }

    block-Ends : Ends after (run_block p (journal_of p index_only dir before false) body w)
    unfolding run_block
    block-Ends =
        let (z', r) =
          (Triple-bind _ _ body-Hoare (λ _.
              Triple-weaken _
                (commit-Hoare p index_only dir before after quiet start supported unstaged)
                (λ w h. h) (λ _ w h. h) (CommitRaised-Raised after) (λ w h. h))).at
            opened z refl in
        exit-Post after _ _ z' r

    -- With no failing event, the outcome is that of the body.
    block-Follows :
        quiet ≡ true
        → (r : Outcome Unit) → (body opened).0 ≡ r
        → Follows p index_only dir before after r
            (run_block p (journal_of p index_only dir before false) body w)
    unfolding run_block ◌>>=◌
    block-Follows t r e =
        subst
          (λ o. Follows p index_only dir before after r (
            let (c, v) =
              continue o (λ _. commit p (journal_of p index_only dir before false))
                (body opened).1 in
            exit p (journal_of p index_only dir before false) c v))
          (sym e) (followed r e)
      where
        followed :
            (r : Outcome Unit)
            → (body opened).0 ≡ r
            → Follows p index_only dir before after r (
                let (c, v) =
                  continue r
                    (λ _. commit p (journal_of p index_only dir before false))
                    (body opened).1 in
                exit p (journal_of p index_only dir before false) c v)
        followed (ok _) e =
            committed_Follows after t _ _
              ((commit-Hoare p index_only dir before after quiet start supported unstaged).at
                (body opened).1 (λ t. framed.events opened (z t)) body-Ready).1
        followed (raise x) e =
            failed_Follows after t x _ (λ t. framed.events opened (z t)) body-Ready
        followed crashed e = framed.alive opened (z t) e

  Entered-Ends :
      (j : Journal) (w : World)
      → IsQuiet quiet w
      → Entered p index_only dir before quiet start supported unstaged j w
      → Ends (body (record w { committed = false })).1.disk (run_block p j body w)
  Entered-Ends j w z h =
      subst (λ j. Ends (body (record w { committed = false })).1.disk (run_block p j body w))
        (sym h.0) (block-Ends w z h.1)

  -- The whole statement, from a world with no transaction under way.
  pub run-Ends :
      (w : World)
      → IsQuiet quiet w
      → Clean p index_only dir before quiet start supported unstaged w
      → Ends (left_by p index_only dir body w) (run p index_only dir body w)
  unfolding run ◌>>=◌ left_by
  run-Ends w z c =
      let (z', r) =
        (enter-Entered p index_only dir before quiet start supported unstaged).at w z c in
      continued (enter p index_only dir w).0 (enter p index_only dir w).1 z' r
    where
      continued :
          (o : Outcome Journal) (v : World)
          → IsQuiet quiet v
          → Post
              (Entered p index_only dir before quiet start supported unstaged)
              (Broken p index_only dir before quiet)
              (Broken p index_only dir before quiet)
              o
              v
          → Ends
              (body (record v { committed = false })).1.disk
              (continue o (λ j. run_block p j body) v)
      continued (ok j) v z' h = Entered-Ends j v z' h
      continued (raise e) v z' h = (z', inr (Broken-Died _ v h))
      continued crashed v z' h = (z', Broken-Died _ v h)

  -- The whole statement where no event fails.
  pub whole-Follows :
      (w : World)
      → quiet ≡ true
      → w.events ≡ []
      → Clean p index_only dir before quiet start supported unstaged w
      → Follows p index_only dir before
          (left_by p index_only dir body w)
          (body (record ((enter p index_only dir w).1) { committed = false })).0
          (run p index_only dir body w)
  unfolding run ◌>>=◌ left_by
  whole-Follows w t e c =
      let (z', r) =
        (enter-Entered p index_only dir before quiet start supported unstaged).at w (λ _. e) c in
      continued (enter p index_only dir w).0 (enter p index_only dir w).1 z' r
    where
      continued :
          (o : Outcome Journal) (v : World)
          → IsQuiet quiet v
          → Post
              (Entered p index_only dir before quiet start supported unstaged)
              (Broken p index_only dir before quiet)
              (Broken p index_only dir before quiet)
              o
              v
          → Follows p index_only dir before
              (body (record v { committed = false })).1.disk
              (body (record v { committed = false })).0
              (continue o (λ j. run_block p j body) v)
      continued (ok j) v z' h =
          subst
            (λ j.
              Follows p index_only dir before (body (record v { committed = false })).1.disk
                (body (record v { committed = false })).0 (run_block p j body v))
            (sym h.0) (block-Follows v z' h.1 t _ refl)
      continued (raise e) v z' h = absurd (cc (h.0))
      continued crashed v z' h = absurd (cc (h.0))
