-- ===== src/Store/Disk/Triples.antt =====
-- Triples for the actions on the disk: what holds when an action returns, when it raises, and
-- when the process dies in it; with the rules for each way to build an action. With `quiet`
-- true they speak of runs in which no event fails.
use harness_auto_test_eviden.Prelude.{Bool, true, false, List, [], ◌∷◌, ◌≡◌, refl, if◌then◌else◌}
use harness_auto_test_eviden.Store.Disk.{
  Disk, Event, go, fail, crash, late_fail, late_crash, Error, Outcome, ok, raise, crashed, World,
  Io, continue, ◌>>=◌, pure, throw, handled, try_except, get_disk, at_event, perform,
}

abbrev pub IsQuiet : Bool → World → Type 0
IsQuiet quiet w = quiet ≡ true → w.events ≡ []

module _ {A : Type 0} where
  abbrev pub Post :
      (A → World → Type 0) → (World → Type 0) → (World → Type 0) → Outcome A → World → Type 0
  Post Q R C (ok a) w = Q a w
  Post Q R C (raise e) w = R w
  Post Q R C crashed w = C w

  -- From P, `m` returns in Q, raises in R, or dies in C.
  pub record Hoare (quiet : Bool) (P : World → Type 0) (m : Io A) (Q : A → World → Type 0)
      (R C : World → Type 0) : Type 0 where
    pub at :
        (w : World) → IsQuiet quiet w → P w → IsQuiet quiet (m w).1 × Post Q R C (m w).0 (m w).1

  -- The same with one statement for an error and for a death.
  abbrev pub Triple :
      Bool → (World → Type 0) → Io A → (A → World → Type 0) → (World → Type 0) → Type 0
  Triple quiet P m Q R = Hoare quiet P m Q R R

module _ {A : Type 0} (quiet : Bool) where
  -- The handler starts from what holds after an error.
  handled-Post :
      (Q : A → World → Type 0) (R S C : World → Type 0) (r : Outcome A) (w : World)
      (h : Error → Io A)
      → ((e : Error) → Hoare quiet R (h e) Q S C)
      → IsQuiet quiet w
      → Post Q R C r w
      → IsQuiet quiet (handled r h w).1 × Post Q S C (handled r h w).0 (handled r h w).1
  handled-Post Q R S C (ok a) w h hh z p = (z, p)
  handled-Post Q R S C (raise e) w h hh z p = (hh e).at w z p
  handled-Post Q R S C crashed w h hh z p = (z, p)

  weaken-Post :
      (Q Q' : A → World → Type 0) (R R' C C' : World → Type 0) (r : Outcome A) (w : World)
      → ((a : A) (w : World) → Q a w → Q' a w)
      → ((w : World) → R w → R' w)
      → ((w : World) → C w → C' w)
      → Post Q R C r w
      → Post Q' R' C' r w
  weaken-Post Q Q' R R' C C' (ok a) w hq hr hc p = hq a w p
  weaken-Post Q Q' R R' C C' (raise e) w hq hr hc p = hr w p
  weaken-Post Q Q' R R' C C' crashed w hq hr hc p = hc w p

continue-Post :
    {A B : Type 0} (quiet : Bool) (Q : A → World → Type 0) (S : B → World → Type 0)
    (R C : World → Type 0) (r : Outcome A) (w : World) (f : A → Io B)
    → ((a : A) → Hoare quiet (Q a) (f a) S R C)
    → IsQuiet quiet w
    → Post Q R C r w
    → IsQuiet quiet (continue r f w).1 × Post S R C (continue r f w).0 (continue r f w).1
continue-Post quiet Q S R C (ok a) w f hf z p = (hf a).at w z p
continue-Post quiet Q S R C (raise e) w f hf z p = (z, p)
continue-Post quiet Q S R C crashed w f hf z p = (z, p)

module _ {A : Type 0} {quiet : Bool} {P : World → Type 0} {Q : A → World → Type 0}
    {R C : World → Type 0} where
  pub Triple-pure : (a : A) → ((w : World) → P w → Q a w) → Hoare quiet P (pure a) Q R C
  unfolding pure
  Triple-pure a h = record { at = λ w z p. (z, h w p) }

  pub Triple-throw : (e : Error) → ((w : World) → P w → R w) → Hoare quiet P (throw e) Q R C
  unfolding throw
  Triple-throw e h = record { at = λ w z p. (z, h w p) }

  pub Triple-if :
      (b : Bool) (m n : Io A)
      → (b ≡ true → Hoare quiet P m Q R C)
      → (b ≡ false → Hoare quiet P n Q R C)
      → Hoare quiet P (if b then m else n) Q R C
  Triple-if true m n hm hn = hm refl
  Triple-if false m n hm hn = hn refl

  -- A part of what holds at the start that does not speak of the world.
  pub Triple-fact :
      {F : Type 0} (m : Io A) → (F → Hoare quiet P m Q R C) → Hoare quiet (λ w. F × P w) m Q R C
  Triple-fact m h = record { at = λ w z p. (h p.0).at w z p.1 }

  pub Triple-try :
      {S : World → Type 0} (m : Io A) (h : Error → Io A)
      → Hoare quiet P m Q R C
      → ((e : Error) → Hoare quiet R (h e) Q S C)
      → Hoare quiet P (try_except m h) Q S C
  unfolding try_except
  Triple-try {S} m h hm hh = record {
    at = λ w z p.
        let (r, w') = m w in
        let (z', p') = hm.at w z p in handled-Post quiet Q R S C r w' h hh z' p';
  }

  pub Triple-weaken :
      {P' : World → Type 0} {Q' : A → World → Type 0} {R' C' : World → Type 0} (m : Io A)
      → Hoare quiet P m Q R C
      → ((w : World) → P' w → P w)
      → ((a : A) (w : World) → Q a w → Q' a w)
      → ((w : World) → R w → R' w)
      → ((w : World) → C w → C' w)
      → Hoare quiet P' m Q' R' C'
  Triple-weaken {P'} {Q'} {R'} {C'} m t hp hq hr hc = record {
    at = λ w z p.
        let (z', p') = t.at w z (hp w p) in
        (z', weaken-Post quiet Q Q' R R' C C' (m w).0 (m w).1 hq hr hc p');
  }

module _ {A B : Type 0} {quiet : Bool} {P : World → Type 0} {Q : A → World → Type 0}
    {S : B → World → Type 0} {R C : World → Type 0} where
  pub Triple-bind :
      (m : Io A) (f : A → Io B)
      → Hoare quiet P m Q R C
      → ((a : A) → Hoare quiet (Q a) (f a) S R C)
      → Hoare quiet P (m >>= f) S R C
  unfolding ◌>>=◌
  Triple-bind m f hm hf = record {
    at = λ w z p.
        let (r, w') = m w in
        let (z', p') = hm.at w z p in continue-Post quiet Q S R C r w' f hf z' p';
  }

module _ {A B : Type 0} {quiet : Bool} {P : World → Type 0} {Q : B → World → Type 0}
    {R C : World → Type 0} where
  pub Triple-pure-bind :
      (a : A) (f : A → Io B) → Hoare quiet P (f a) Q R C → Hoare quiet P (pure a >>= f) Q R C
  unfolding ◌>>=◌ pure
  Triple-pure-bind a f h = record { at = h.at }

-- Reading the disk: the rest of the block knows the value that it read.
pub Triple-get :
    {B : Type 0} {quiet : Bool} {P : World → Type 0} {Q : B → World → Type 0} {R C : World → Type 0}
    (f : Disk → Io B)
    → ((w : World) → P w → Hoare quiet (λ w'. w' ≡ w) (f w.disk) Q R C)
    → Hoare quiet P (get_disk >>= f) Q R C
unfolding ◌>>=◌ get_disk
Triple-get f h = record { at = λ w z p. (h w p).at w z refl }

-- An operation on the disk. What holds after a failure is asked only where events may fail.
module _ (quiet : Bool) (P Q R C : World → Type 0) (whole part : Disk → Disk)
    (done : (w : World) (es : List Event) → P w → Q (record w { disk = whole w.disk; events = es }))
    (same : quiet ≡ false
      → (w : World) (es : List Event) → P w
      → R (record w { events = es }) × C (record w { events = es }))
    (late : quiet ≡ false
      → (w : World) (es : List Event) → P w
      → R (record w { disk = part w.disk; events = es })
        × C (record w { disk = part w.disk; events = es })) where
  at_event-Post :
      (e : Event) (w : World) (es : List Event)
      → quiet ≡ false
      → P w
      → Post
          (λ _. Q)
          R
          C
          (at_event e whole part (record w { events = es })).0
          (at_event e whole part (record w { events = es })).1
  at_event-Post go w es f p = done w es p
  at_event-Post fail w es f p = (same f w es p).0
  at_event-Post crash w es f p = (same f w es p).1
  at_event-Post late_fail w es f p = (late f w es p).0
  at_event-Post late_crash w es f p = (late f w es p).1

  perform-Post :
      (b : Bool) (es : List Event) (w : World)
      → quiet ≡ b
      → w.events ≡ es
      → IsQuiet quiet w
      → P w
      → IsQuiet quiet (perform whole part w).1
        × Post (λ _. Q) R C (perform whole part w).0 (perform whole part w).1
  unfolding perform
  perform-Post b [] w eb ee z p = rw ee ((λ _. refl), done w [] p)
  perform-Post true (e ∷ es) w eb ee z p = absurd (cc (z eb))
  perform-Post false (e ∷ es) w eb ee z p = rw ee ((λ t. absurd (cc)), at_event-Post e w es eb p)

  pub Hoare-perform : Hoare quiet P (perform whole part) (λ _. Q) R C
  Hoare-perform = record { at = λ w z p. perform-Post quiet w.events w refl refl z p }

pub Triple-perform :
    (quiet : Bool) (P Q R : World → Type 0) (whole part : Disk → Disk)
    → ((w : World) (es : List Event) → P w → Q (record w { disk = whole w.disk; events = es }))
    → (quiet ≡ false → (w : World) (es : List Event) → P w → R (record w { events = es }))
    → (quiet ≡ false
        → (w : World) (es : List Event) → P w
        → R (record w { disk = part w.disk; events = es }))
    → Triple quiet P (perform whole part) (λ _. Q) R
Triple-perform quiet P Q R whole part done same late =
    Hoare-perform quiet P Q R R whole part done (λ f w es p. (same f w es p, same f w es p))
      (λ f w es p. (late f w es p, late f w es p))
