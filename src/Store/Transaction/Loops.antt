-- ===== src/Store/Transaction/Loops.antt =====
-- The loops of a recovery over the snapshots of the journal, for any invariant that they keep.
use harness_auto_test_eviden.Prelude.{
  String, suc, ==_iff, Bool, true, false, Option, none, some, List, [], ◌∷◌, ◌≡◌, refl, sym, subst,
  ap, ◌∙◌, arith, ===-refl, length, map, All, update_self, update_keeps, all, member,
}
use harness_auto_test_eviden.Store.Disk.{Bytes, Disk, Event, World}
use harness_auto_test_eviden.Store.Disk.Triples.{
  Triple, Triple-pure, Triple-weaken, Triple-bind, Triple-get, Triple-perform,
}
use harness_auto_test_eviden.Store.Transaction.{
  Platform, index_names, snapshot_names, is_journal_state, valid_journal, set_index, restore_index,
  restore_indexes, verify_backup, verify_backups,
}
use harness_auto_test_eviden.Store.Transaction.States.{
  snapshot_with, snapshot_of, HasContent, journal_of,
}

module _ (p : Platform) (indexes : String → Option Bytes) (quiet : Bool) (R : World → Type 0) where
  verify_one :
      (P : World → Type 0) (n : String) (o : Option Bytes)
      → indexes n ≡ o
      → ((w : World) → P w → HasContent indexes w.disk.staging.before n)
      → Triple quiet P (verify_backup p (snapshot_with p n o)) (λ _. P) R
  unfolding verify_backup
  verify_one P n none e h = Triple-get _ (λ w pw. Triple-pure tt (λ w' eq. subst P (sym eq) pw))
  verify_one P n (some c) e h = Triple-get _ (λ w pw.
      rw (h w pw c e, ===-refl (p.digest c)) (Triple-pure tt (λ w' eq. subst P (sym eq) pw)))

  pub verify_all :
      (P : World → Type 0) (names : List String)
      → ((w : World) → P w → All (HasContent indexes w.disk.staging.before) names)
      → Triple quiet P (verify_backups p (map (snapshot_of p indexes) names)) (λ _. P) R
  unfolding verify_backups
  verify_all P [] h = Triple-pure tt (λ w pw. pw)
  verify_all P (n ∷ names) h =
      Triple-bind _ _ (verify_one P n (indexes n) refl (λ w pw. (h w pw).0))
        (λ _. verify_all P names (λ w pw. (h w pw).1))

  abbrev pub Back : World → String → Type 0
  Back w n = w.disk.indexes n ≡ indexes n

  restore_one :
      (P : World → Type 0) (n : String) (o : Option Bytes)
      → indexes n ≡ o
      → ((w : World) (es : List Event)
          → P w
          → P (record w { disk = set_index n o w.disk; events = es }))
      → (quiet ≡ false → (w : World) (es : List Event) → P w → R (record w { events = es }))
      → ((w : World) → P w → HasContent indexes w.disk.staging.before n)
      → Triple quiet P (restore_index (snapshot_with p n o)) (λ _ w. P w × Back w n) R
  unfolding restore_index
  restore_one P n none e keep broken h = Triple-get _ (λ w pw.
      Triple-perform quiet (λ w'. w' ≡ w) _ R _ _
        (λ w' es eq. (keep w' es (subst P (sym eq) pw), update_self w'.disk.indexes n none ∙ sym e))
        (λ f w' es eq. broken f w' es (subst P (sym eq) pw))
        (λ f w' es eq. broken f w' es (subst P (sym eq) pw)))
  restore_one P n (some c) e keep broken h = Triple-get _ (λ w pw. rw (h w pw c e) (
      Triple-perform quiet (λ w'. w' ≡ w) _ R _ _
        (λ w' es eq.
          (keep w' es (subst P (sym eq) pw), update_self w'.disk.indexes n (some c) ∙ sym e))
        (λ f w' es eq. broken f w' es (subst P (sym eq) pw))
        (λ f w' es eq.
          broken f (record w' { disk = set_index n (some c) w'.disk }) es
            (keep w' w'.events (subst P (sym eq) pw)))))

  -- After the loop every index of the list is back.
  pub restore-All :
      (P : World → Type 0) (names : List String)
      → ((n : String) (w : World) (es : List Event)
          → P w
          → P (record w { disk = set_index n (indexes n) w.disk; events = es }))
      → (quiet ≡ false → (w : World) (es : List Event) → P w → R (record w { events = es }))
      → ((w : World) → P w → All (HasContent indexes w.disk.staging.before) names)
      → Triple quiet P
          (restore_indexes (map (snapshot_of p indexes) names))
          (λ _ w. P w × All (Back w) names)
          R
  unfolding restore_indexes
  restore-All P [] keep broken h = Triple-pure tt (λ w pw. (pw, tt))
  restore-All P (n ∷ names) keep broken h =
      Triple-bind _ _ (restore_one P n (indexes n) refl (keep n) broken (λ w pw. (h w pw).0)) (λ _.
        Triple-weaken _
          (restore-All (λ w. P w × Back w n) names
            (λ m w es b.
              (keep m w es b.0, update_keeps w.disk.indexes m n _ _ b.1 (λ e. ap indexes e)))
            (λ f w es b. broken f w es b.0) (λ w b. (h w b.0).1))
          (λ w b. b) (λ _ w b. (b.0.0, (b.0.1, b.1))) (λ w b. b) (λ w b. b))

-- The journal that __enter__ writes passes the checks of _read_journal.
member_names : all (λ n. member n index_names) index_names ≡ true
unfolding index_names
member_names = refl

length-map :
    (p : Platform) (indexes : String → Option Bytes) (names : List String)
    → length (map (snapshot_of p indexes) names) ≡ length names
length-map p indexes [] = refl
length-map p indexes (n ∷ names) = ap suc (length-map p indexes names)

names-map :
    (p : Platform) (indexes : String → Option Bytes) (names : List String)
    → snapshot_names (map (snapshot_of p indexes) names) ≡ names
names-map p indexes [] = refl
names-map p indexes (n ∷ names) = ap (λ l. n ∷ l) (names-map p indexes names)

module _ (p : Platform) (dir : String) (before : Disk) (state : String)
    (known : is_journal_state state ≡ true) where
  pub journal_of-valid :
      (index_only failed : Bool)
      → valid_journal (record (journal_of p index_only dir before failed) { state = state }) ≡ true
  unfolding valid_journal
  journal_of-valid true failed =
      rw
        (
          length-map p before.indexes index_names,
          names-map p before.indexes index_names,
          member_names,
          known,
        )
        (ground (arith, (==_iff (length index_names) (length index_names)).1 refl))
  journal_of-valid false failed =
      rw
        (
          length-map p before.indexes index_names,
          names-map p before.indexes index_names,
          member_names,
          known,
        )
        (ground (arith, (==_iff (length index_names) (length index_names)).1 refl))
