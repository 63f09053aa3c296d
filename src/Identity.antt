-- ===== src/Identity.antt =====
-- The canonical identity of a test (src/hate/p1a_internal/identity.py). Texts are lists of code
-- points and the values of a mapping are opaque; hashlib over json is a parameter. A field of a
-- test that is no text, which Python would print by str, is outside the model.
mod Names
pub mod Cuts
pub mod RoundTrip
pub mod Duplicates
mod Tests
use harness_auto_test_eviden.Prelude.{
  ℕ, String, Bool, true, false, not, ◌&&◌, Option, none, some, List, [], ◌∷◌, ◌++◌, map, any,
  select, take, get_or, sort_by, is_empty, if◌then◌else◌, ◌===◌,
}
use harness_auto_test_eviden.CodePoints.{Codes, codes, same_codes, before}
unfoldable pub use Names.*

-- json.dumps and hashlib in _stable_hash, on the texts and the mappings that it is given.
pub record Digests (J : Type 0) : Type 0 where
  pub of_text : Codes → Codes
  pub of_mapping : List (Codes × J) → Codes

-- What .get returns: nothing that counts as true, a mapping, or a true value that is none.
pub data Value (J : Type 0) : Type 0 where
  no_value : Value J
  mapping : List (Codes × J) → Value J
  no_mapping : Value J

-- A node's data, as its identity reads it.
pub record TestFields (J : Type 0) : Type 0 where
  pub canonical_test_id : Option Codes
  pub framework : Option Codes
  pub file : Option Codes
  pub classname : Option Codes
  pub class_name : Option Codes
  pub name : Option Codes
  pub package_ : Option Codes
  pub parameters : Value J
  pub params : Value J
  pub matrix : Value J
  pub matrix_values : Value J

pub record Components (J : Type 0) : Type 0 where
  pub framework : Codes
  pub package_ : Codes
  pub file : Codes
  pub classname : Codes
  pub name : Codes
  pub parameters : List (Codes × J)
  pub matrix : List (Codes × J)

module _ {J : Type 0} where
  abbrev pub or_value : Value J → Value J → Value J
  or_value no_value w = w
  or_value (mapping []) w = w
  or_value (mapping (e ∷ m)) w = mapping (e ∷ m)
  or_value no_mapping w = no_mapping

  -- sorted(value), by the keys
  abbrev pub sort_keys : List (Codes × J) → List (Codes × J)
  sort_keys = sort_by (λ (e f : Codes × J). before e.0 f.0)

  -- _stable_mapping
  abbrev pub stable_mapping : Value J → List (Codes × J)
  stable_mapping (mapping m) = sort_keys m
  stable_mapping _ = []

  -- The file, the classname and the name of _identity_components, from the data and the parts of
  -- the canonical id.
  unfoldable pub components_of : Codes → List Codes → TestFields J → Components J
  components_of framework parts data_ = record {
    framework = framework;
    package_ = get_or data_.package_ [];
    file = normalize_source_ref (or_codes data_.file (first_part parts));
    classname = classname_of (or_codes data_.classname (or_codes data_.class_name [])) parts;
    name = name_of (or_codes data_.name []) parts;
    parameters = stable_mapping (or_value data_.parameters data_.params);
    matrix = stable_mapping (or_value data_.matrix data_.matrix_values);
  }

  unfoldable pub identity_components : Codes → TestFields J → Components J
  identity_components canonical_test_id data_ =
      let (head, remainder) = split_once canonical_test_id in
      components_of (or_codes data_.framework head) (parts_of remainder) data_

  module _ (digests : Digests J) where
    unfoldable pub normalized_canonical_test_id : Components J → Codes
    normalized_canonical_test_id c =
        let base = print_id c.framework c.file c.classname c.name in
        if is_empty c.parameters
        then base
        else base ++ (colon ∷ colon ∷ take 12 (digests.of_mapping c.parameters))

-- A test node, with the fields that the index reads and copies.
pub record TestNode (J : Type 0) : Type 0 where
  pub id : String
  pub kind : String
  pub data_ : TestFields J

-- An entry of the index without its sourceRefs; an alias is its previous_id.
pub record IdentityRecord (J : Type 0) : Type 0 where
  pub identity_id : Codes
  pub test_node_id : String
  pub canonical_test_id : Codes
  pub normalized_canonical_test_id : Codes
  pub identity_components : Components J
  pub aliases : List Codes

pub record IdentityIndex (J : Type 0) : Type 0 where
  pub identities : List (IdentityRecord J)
  pub duplicate_normalized_ids : List Codes
  pub has_duplicates : Bool

abbrev pub is_test : {J : Type 0} → TestNode J → Bool
is_test n = n.kind === "test"

abbrev pub normalized_of : {J : Type 0} → IdentityRecord J → Codes
normalized_of item = item.normalized_canonical_test_id

module _ {J : Type 0} (digests : Digests J) where
  unfoldable pub identity_record : TestNode J → IdentityRecord J
  identity_record n =
      let canonical = get_or n.data_.canonical_test_id [] in
      let components = identity_components canonical n.data_ in
      let normalized = normalized_canonical_test_id digests components in
      record {
        identity_id = codes "identity:" ++ take 16 (digests.of_text normalized);
        test_node_id = n.id;
        canonical_test_id = canonical;
        normalized_canonical_test_id = normalized;
        identity_components = components;
        aliases =
            if not (is_empty canonical) && not (same_codes canonical normalized)
            then canonical ∷ []
            else [];
      }

  unfoldable pub build_canonical_identity_index : List (TestNode J) → IdentityIndex J
  build_canonical_identity_index nodes =
      let identities = map identity_record (select is_test nodes) in
      let duplicate_ids = sort_by before (duplicates (map normalized_of identities)) in
      record {
        identities = identities;
        duplicate_normalized_ids = duplicate_ids;
        has_duplicates = not (is_empty duplicate_ids);
      }
