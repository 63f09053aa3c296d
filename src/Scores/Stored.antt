-- ===== src/Scores/Stored.antt =====
-- The check of a stored score before it is compared (read_score_input in
-- src/hate/p1a_scores.py), and that it takes every score that was computed.
use Prim.Native.Nat.{◌^◌}
use harness_auto_test_eviden.Prelude.{
  ℕ, ◌*◌, ◌≤◌, String, Bool, true, false, not, ◌&&◌, ◌||◌, Option, none, some, List, [], ◌∷◌, map,
  ◌≡◌, refl, ◌==◌, leb, ◌===◌, member, all, if◌then◌else◌, All, arith, ==_iff,
}
use harness_auto_test_eviden.EvidenceGraph.{Node, Edge}
use harness_auto_test_eviden.Retries.{Aggregate}
use harness_auto_test_eviden.Scores.{
  aete_weights, compute_weighted_score, Provenance, Report, score_dimensions,
}
use harness_auto_test_eviden.Scores.Rubric.{IsRubric, is_rubric, scores-IsRubric}

-- What _number makes of a value: nothing, or a finite decimal, digits / 10 ** scale with its sign
pub data Number : Type 0 where
  not_a_number : Number
  decimal : (negative : Bool) (digits scale : ℕ) → Number

abbrev pub whole : ℕ → Number
whole n = decimal false n 0

abbrev pub thousandths : ℕ → Number
thousandths n = decimal false n 3

-- The number is n / 10 ** k.
unfoldable pub equals : Number → (n k : ℕ) → Bool
equals not_a_number n k = false
equals (decimal negative digits scale) n k =
    (not negative || digits == 0) && digits * 10 ^ k == n * 10 ^ scale

unfoldable pub is_fraction : Number → Bool
is_fraction not_a_number = false
is_fraction (decimal negative digits scale) =
    (not negative || digits == 0) && leb digits (10 ^ scale)

-- The keys of a stored score; none is a missing key, no_object a value that is no dict.
pub data Object : Type 0 where
  no_object : Object
  object : List (String × Number) → Object

pub record StoredScore : Type 0 where
  pub dimensions : Object
  pub dimension_weights : Option Object
  pub aggregation_method : Option String
  pub weighted_score : Number

abbrev names : {A : Type 0} → List (String × A) → List String
names d = map (λ x. x.0) d

-- set(d) == set(AETE_WEIGHTS)
abbrev pub has_weight_keys : List (String × Number) → Bool
has_weight_keys d =
    all (λ k. member k (names aete_weights)) (names d)
    && all (λ k. member k (names d)) (names aete_weights)

abbrev pub rubric_number : Number → Bool
rubric_number x = equals x 0 0 || (equals x 1 0 || (equals x 3 0 || equals x 5 0))

-- int(number), for a number of the rubric
abbrev pub int_of : Number → ℕ
int_of x = if equals x 0 0 then 0 else if equals x 1 0 then 1 else if equals x 3 0 then 3 else 5

abbrev pub number_of : String → List (String × Number) → Number
number_of name [] = not_a_number
number_of name ((n, v) ∷ rest) = let later = number_of name rest in if name === n then v else later

abbrev pub has_weights : Option Object → Bool
has_weights none = true
has_weights (some no_object) = false
has_weights (some (object w)) =
    has_weight_keys w && all (λ x. equals (number_of x.0 w) x.1 0) aete_weights

abbrev pub is_weighted_mean : Option String → Bool
is_weighted_mean none = true
is_weighted_mean (some method) = method === "weighted_mean"

abbrev pub validated : List (String × Number) → List (String × ℕ)
validated d = map (λ x. (x.0, int_of x.1)) d

-- What the score is refused for
unfoldable pub refused_for : StoredScore → List (String × Number) → Option String
refused_for s d =
    if not (has_weight_keys d)
    then some "dimensions"
    else if not (all (λ x. rubric_number x.1) d)
    then some "rubric value"
    else if not (has_weights s.dimension_weights)
    then some "dimension_weights"
    else if not (is_weighted_mean s.aggregation_method)
    then some "aggregation_method"
    else if not (is_fraction s.weighted_score)
    then some "weighted_score range"
    else if not (equals s.weighted_score (compute_weighted_score (validated d)) 3)
    then some "weighted_score"
    else none

abbrev refused : StoredScore → Object → Option String
refused s no_object = some "dimensions"
refused s (object d) = refused_for s d

unfoldable pub read_score_input : StoredScore → Option String
read_score_input s = refused s s.dimensions

-- The fields of aete_score that evaluate_trust writes (p1a.py)
unfoldable pub aete_score : List (String × ℕ) → StoredScore
aete_score d = record {
  dimensions = object (map (λ x. (x.0, whole x.1)) d);
  dimension_weights = some (object (map (λ x. (x.0, whole x.1)) aete_weights));
  aggregation_method = some "weighted_mean";
  weighted_score = thousandths (compute_weighted_score d);
}

equals-whole : (v n : ℕ) → equals (whole v) n 0 ≡ (v == n)
unfolding equals
equals-whole v n = same v n (v * 10 ^ 0) (n * 10 ^ 0) (omega arith) (omega arith)
  where
    same : (v n a b : ℕ) → a ≡ v → b ≡ n → (a == b) ≡ (v == n)
    same v n a b p q = rw (p, q) refl

rubric_number-whole : (v : ℕ) → rubric_number (whole v) ≡ is_rubric v
rubric_number-whole v =
    rw (equals-whole v 0, equals-whole v 1, equals-whole v 3, equals-whole v 5) refl

int_of-whole : (v : ℕ) → IsRubric v → int_of (whole v) ≡ v
int_of-whole v r = rw (equals-whole v 0, equals-whole v 1, equals-whole v 3) (chosen v r.is_value)
  where
    chosen :
        (v : ℕ)
        → is_rubric v ≡ true
        → (if v == 0 then 0 else if v == 1 then 1 else if v == 3 then 3 else 5) ≡ v
    chosen v h = ground arith

abbrev as_numbers : List (String × ℕ) → List (String × Number)
as_numbers d = map (λ x. (x.0, whole x.1)) d

validated_whole : (d : List (String × ℕ)) → All (λ x. IsRubric x.1) d → validated (as_numbers d) ≡ d
validated_whole [] r = refl
validated_whole ((n, v) ∷ d) (a, r) = rw (int_of-whole v a, validated_whole d r) refl

all_rubric :
    (d : List (String × ℕ))
    → All (λ x. IsRubric x.1) d
    → all (λ x. rubric_number x.1) (as_numbers d) ≡ true
all_rubric [] r = refl
all_rubric ((n, v) ∷ d) (a, r) = rw (rubric_number-whole v, a.is_value) (all_rubric d r)

thousandths-is_fraction : (n : ℕ) → n ≤ 1000 → is_fraction (thousandths n) ≡ true
unfolding is_fraction
thousandths-is_fraction n h = ground arith

thousandths-equals : (n : ℕ) → equals (thousandths n) n 3 ≡ true
unfolding equals
thousandths-equals n = (==_iff (n * 10 ^ 3) (n * 10 ^ 3)).1 refl

weights_stored : has_weights (some (object (as_numbers aete_weights))) ≡ true
unfolding equals
weights_stored = refl

-- A score whose dimensions are of the rubric and have the keys of the weights
read_aete_score :
    (d : List (String × ℕ))
    → has_weight_keys (as_numbers d) ≡ true
    → All (λ x. IsRubric x.1) d
    → compute_weighted_score d ≤ 1000
    → read_score_input (aete_score d) ≡ none
unfolding read_score_input refused_for aete_score
read_aete_score d k r b =
    rw
      (
        k,
        all_rubric d r,
        weights_stored,
        thousandths-is_fraction _ b,
        validated_whole d r,
        thousandths-equals (compute_weighted_score d),
      )
      refl

-- The check of stored scores takes every score that evaluate_trust writes, whatever the graph, the
-- report and the retries that it was computed from.
pub read-score_dimensions :
    (lower : String → String) (precedes : String → String → Bool) (nodes : List Node)
    (edges : List Edge) (report : Report) (provenance : Provenance) (aggregates : List Aggregate)
    → read_score_input
        (aete_score (score_dimensions lower precedes nodes edges report provenance aggregates))
      ≡ none
unfolding score_dimensions
read-score_dimensions lower precedes nodes edges report provenance aggregates =
    let (r, b, _) = scores-IsRubric lower precedes nodes edges report provenance aggregates in
    read_aete_score _ refl r b
