-- ===== src/Evaluation/Baseline/Serving.antt =====
-- What the events of a baseline that serves for comparison hold, as they are read
-- (build_real_repo_baseline_governance_report in baseline_governance.py).
use harness_auto_test_eviden.Prelude.{
  String, Bool, true, false, not, Option, none, some, List, [], ◌∷◌, ◌++◌, map, ◌≡◌, refl, sym, ap,
  ◌∙◌, ◌===◌, or_text, if◌then◌else◌, any, any→Occurs, Occurs→any, Occurs, All, eq_iff, Bool-cases,
  inl, inr, subst,
}
use harness_auto_test_eviden.Evaluation.Baseline.{
  proposed, approved, frozen, expired, revoked, superseded, invalid, RawEvent, BaselineEvent,
  event_type_of, normalize_event, is_past, build_baseline_report,
}
use harness_auto_test_eviden.Evaluation.Baseline.Folds.{
  IsLast, fold, fold_last, any→IsLast, IsLast→any, last-IsLast,
}
use harness_auto_test_eviden.Evaluation.Baseline.Variables.{
  has_id, sets_status, has_expiry, has_scope, is_freeze, from_not,
}
use harness_auto_test_eviden.Evaluation.Baseline.Usable.{IsUsable-iff}

abbrev type_of_event : RawEvent → String
type_of_event e = or_text e.event_type ""

-- The event is of one of the types that change the status: every known one but frozen.
abbrev changes_status : RawEvent → Bool
changes_status e = sets_status (normalize_event e)

abbrev dates : RawEvent → Bool
dates e = not (or_text e.expires_at "" === "")

-- What the events must hold for the baseline to serve on a day.
pub record IsGoverned (data_ : List RawEvent) (today : String) : Type 0 where
  pub named : (e : RawEvent) × Occurs e data_ × ((or_text e.baseline_id "" === "") ≡ false)
  pub approval : (e : RawEvent) × IsLast changes_status data_ e × (type_of_event e ≡ "approved")
  pub unexpired :
      (e : RawEvent) → IsLast dates data_ e → is_past (or_text e.expires_at "") today ≡ false
  pub owned :
      (e : RawEvent)
      → IsLast (λ x. true) data_ e
      → (or_text e.ownership_scope "owned" === "external") ≡ false
  pub settled :
      (e : RawEvent)
      → Occurs e data_
      → type_of_event e ≡ "frozen"
      → (l : RawEvent) × IsLast (λ x. true) data_ l × (type_of_event l ≡ "frozen")

module _ {A B : Type 0} (f : A → B) (p : B → Bool) where
  map-split : (xs ys : List A) (a : A) → map f (xs ++ (a ∷ ys)) ≡ map f xs ++ (f a ∷ map f ys)
  map-split [] ys a = refl
  map-split (x ∷ xs) ys a = ap (◌∷◌ (f x)) (map-split xs ys a)

  map-All : (xs : List A) → All (λ x. p (f x) ≡ false) xs → All (λ y. p y ≡ false) (map f xs)
  map-All [] h = tt
  map-All (x ∷ xs) (h, hs) = (h, map-All xs hs)

  map-IsLast : (xs : List A) (a : A) → IsLast (λ x. p (f x)) xs a → IsLast p (map f xs) (f a)
  map-IsLast xs a l = record {
    earlier = map f l.earlier;
    later = map f l.later;
    splits = ap (map f) l.splits ∙ map-split l.earlier l.later a;
    holds = l.holds;
    none_later = map-All l.later l.none_later;
  }

  map-any : (xs : List A) → any p (map f xs) ≡ any (λ x. p (f x)) xs
  map-any [] = refl
  map-any (x ∷ xs) = rw (map-any xs) refl

  -- Two last members of a list are one.
  one_last : (ys : List B) (a b : B) → IsLast p ys a → IsLast p ys b → a ≡ b
  one_last ys a b l k = cc (sym (last_of a l) ∙ last_of b k)
    where
      step : B → Option B → Option B
      step y s = if p y then some y else s

      last_of : (y : B) → IsLast p ys y → fold step ys none ≡ some y
      last_of y l =
          fold_last step p (λ y. some y) (λ y s h. rw h refl) (λ y s h. rw h refl) ys y none l

  IsLast-map :
      (xs : List A) (b : B)
      → IsLast p (map f xs) b
      → (a : A) × IsLast (λ x. p (f x)) xs a × (b ≡ f a)
  IsLast-map xs b l =
      let h = sym (map-any xs) ∙ IsLast→any p (map f xs) b l in
      let (a, k) = any→IsLast (λ x. p (f x)) xs h in
      (a, k, one_last (map f xs) b (f a) l (map-IsLast xs a k))

approved_by :
    (a b c d e g : Bool)
    → (if a
        then proposed
        else if b
        then approved
        else if c
        then frozen
        else if d
        then expired
        else if e
        then revoked
        else if g
        then superseded
        else invalid)
      ≡ approved
    → b ≡ true
approved_by true b c d e g h = absurd (cc (h))
approved_by false true c d e g h = refl
approved_by false false true d e g h = absurd (cc (h))
approved_by false false false true e g h = absurd (cc (h))
approved_by false false false false true g h = absurd (cc (h))
approved_by false false false false false true h = absurd (cc (h))
approved_by false false false false false false h = absurd (cc (h))

frozen_by :
    (a b c d e g : Bool)
    → (if a
        then proposed
        else if b
        then approved
        else if c
        then frozen
        else if d
        then expired
        else if e
        then revoked
        else if g
        then superseded
        else invalid)
      ≡ frozen
    → c ≡ true
frozen_by true b c d e g h = absurd (cc (h))
frozen_by false true c d e g h = absurd (cc (h))
frozen_by false false true d e g h = refl
frozen_by false false false true e g h = absurd (cc (h))
frozen_by false false false false true g h = absurd (cc (h))
frozen_by false false false false false true h = absurd (cc (h))
frozen_by false false false false false false h = absurd (cc (h))

type-approved : (t : String) → event_type_of t ≡ approved → t ≡ "approved"
unfolding event_type_of
type-approved t h = (eq_iff t "approved").0 (approved_by (t === "proposed") _ _ _ _ _ h)

type-frozen : (t : String) → event_type_of t ≡ frozen → t ≡ "frozen"
unfolding event_type_of
type-frozen t h = (eq_iff t "frozen").0 (frozen_by (t === "proposed") _ _ _ _ _ h)

freezes : (t : String) → t ≡ "frozen" → event_type_of t ≡ frozen
unfolding event_type_of
freezes t q = subst (λ s. event_type_of s ≡ frozen) (sym q) refl

-- Every event has a scope after it was normalized.
scoped : (o : Option String) → not (or_text o "owned" === "") ≡ true
scoped none = refl
scoped (some s) = elim (Bool-cases (s === "")) [ inl t ↦ rw t refl | inr f ↦ rw f (ap not f) ]

-- Where a baseline serves for comparison on a day, some event names it; the last event of a type that
-- changes the status is of the type approved; the last expiry that an event gives is not past; the
-- very last event does not give the scope external; and if some event is of the type frozen, the
-- very last one is.
pub serves-IsGoverned :
    (data_ : List RawEvent) (today : String)
    → (build_baseline_report data_ today).can_use_for_regression ≡ true
    → IsGoverned data_ today
serves-IsGoverned data_ today h =
    let n = normalize_event in
    let u = (IsUsable-iff (map n data_) today).0 h in
    record {
      named =
          let (e, o, q) =
            any→Occurs (λ x. has_id (n x)) data_ (sym (map-any n has_id data_) ∙ u.named) in
          (e, o, from_not _ q);
      approval =
          let (e, l, q) = u.approval in
          let (r, k, s) = IsLast-map n sets_status data_ e l in
          (r, k, type-approved _ (ap (λ (x : BaselineEvent). x.event_type) (sym s) ∙ q));
      unexpired = λ e l. u.unexpired (n e) (map-IsLast n has_expiry data_ e l);
      owned = λ e l. u.owned (n e) (
          last-IsLast has_scope (map n data_) (n e) (map-IsLast n (λ x. true) data_ e l)
            (scoped e.ownership_scope));
      settled = λ e o q.
          let some_freeze =
            map-any n is_freeze data_
            ∙ Occurs→any (λ x. is_freeze (n x)) e data_ o (freeze_test e q) in
          let (x, l, t) = u.settled some_freeze in
          let (r, k, s) = IsLast-map n (λ x. true) data_ x l in
          (r, k, type-frozen _ (ap (λ (y : BaselineEvent). y.event_type) (sym s) ∙ t));
    }
  where
    freeze_test : (e : RawEvent) → type_of_event e ≡ "frozen" → is_freeze (normalize_event e) ≡ true
    freeze_test e q = rw (freezes (type_of_event e) q) refl
