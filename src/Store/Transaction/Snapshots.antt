-- ===== src/Store/Transaction/Snapshots.antt =====
-- The loop of __enter__ that saves the indexes, for any invariant that the backups keep.
use harness_auto_test_eviden.Prelude.{
  String, Bool, false, Option, none, some, List, [], ◌∷◌, ◌≡◌, refl, sym, subst, ap, ◌∙◌, map, All,
  update, update_self, update_keeps,
}
use mathlib.Core.Path.{ap₂}
use harness_auto_test_eviden.Store.Disk.{Bytes, Disk, Event, World}
use harness_auto_test_eviden.Store.Disk.Triples.{
  Triple, Triple-pure, Triple-fact, Triple-weaken, Triple-bind, Triple-get, Triple-perform,
}
use harness_auto_test_eviden.Store.Transaction.{Platform, snapshot_found, snapshot, snapshots}
use harness_auto_test_eviden.Store.Transaction.States.{snapshot_with, snapshot_of, HasContent}

-- The backup of one index, as a change of the disk.
abbrev backup : String → Bytes → Disk → Disk
backup n c d = record d {
  staging = record (d.staging) { before = update d.staging.before n (some c) };
}

HasContent-update :
    (indexes saved : String → Option Bytes) (n m : String) (c : Bytes)
    → indexes n ≡ some c
    → HasContent indexes saved m
    → HasContent indexes (update saved n (some c)) m
HasContent-update indexes saved n m c e h c' e' =
    update_keeps saved n m (some c) (some c') (h c' e') (λ q. sym e ∙ (ap indexes q ∙ e'))

module _ (p : Platform) (indexes : String → Option Bytes) (quiet : Bool) (R : World → Type 0) where
  abbrev Saved : World → String → Type 0
  Saved w n = HasContent indexes w.disk.staging.before n

  abbrev IsKept : (World → Type 0) → Type 0
  IsKept P =
      (n : String) (c : Bytes) (w : World) (es : List Event)
      → indexes n ≡ some c
      → P w
      → P (record w { disk = backup n c w.disk; events = es })

  abbrev IsBroken : (World → Type 0) → Type 0
  IsBroken P = quiet ≡ false → (w : World) (es : List Event) → P w → R (record w { events = es })

  snapshot_one :
      (P : World → Type 0)
      → IsKept P
      → IsBroken P
      → (n : String) (w : World) → P w
      → (o : Option Bytes) → indexes n ≡ o
      → Triple quiet
          (λ w'. w' ≡ w)
          (snapshot_found p n o)
          (λ s w'. (s ≡ snapshot_with p n o) × P w' × Saved w' n)
          R
  unfolding snapshot_found
  snapshot_one P keep broken n w h none e =
      Triple-pure _ (λ w' q. (refl, subst P (sym q) h, (λ c e'. absurd (cc))))
  snapshot_one P keep broken n w h (some c) e =
      Triple-bind _ _
        (Triple-perform quiet (λ w'. w' ≡ w) (λ w'. P w' × Saved w' n) R _ _
          (λ w' es q. (
            keep n c w' es e (subst P (sym q) h),
            (λ c' e'. update_self w'.disk.staging.before n (some c) ∙ (sym e ∙ e')),
          ))
          (λ f w' es q. broken f w' es (subst P (sym q) h))
          (λ f w' es q.
            broken f (record w' { disk = backup n c w'.disk }) es
              (keep n c w' w'.events e (subst P (sym q) h))))
        (λ _. Triple-pure _ (λ w' b. (refl, b.0, b.1)))

  pub snapshot-All :
      (P : World → Type 0)
      → IsKept P
      → IsBroken P
      → ((w : World) → P w → w.disk.indexes ≡ indexes)
      → (names : List String)
      → Triple quiet P
          (snapshots p names)
          (λ items w. (items ≡ map (snapshot_of p indexes) names) × P w × All (Saved w) names)
          R
  unfolding snapshots snapshot
  snapshot-All P keep broken reads [] = Triple-pure [] (λ w h. (refl, h, tt))
  snapshot-All P keep broken reads (n ∷ names) =
      Triple-bind _ _
        (Triple-get _ (λ w h.
          let here : w.disk.indexes n ≡ indexes n =
            ap (λ (f : String → Option Bytes). f n) (reads w h) in
          Triple-weaken {Q' = λ s w'. (s ≡ snapshot_of p indexes n) × (P w' × Saved w' n)} _
            (snapshot_one P keep broken n w h (w.disk.indexes n) (sym here)) (λ w' q. q)
            (λ s w' b. (b.0 ∙ ap (snapshot_with p n) here, (b.1, b.2))) (λ w' b. b) (λ w' b. b)))
        (λ s. Triple-fact _ (λ named.
          Triple-bind _ _
            (snapshot-All (λ w. P w × Saved w n)
              (λ m c w es e b.
                (keep m c w es e b.0, HasContent-update indexes w.disk.staging.before m n c e b.1))
              (λ f w es b. broken f w es b.0) (λ w b. reads w b.0) names)
            (λ rest. Triple-pure _ (λ w b. (ap₂ ◌∷◌ named b.0, b.1.0, (b.1.1, b.2))))))
