-- ===== src/EvidenceGraph.antt =====
-- The integrity of an evidence graph and the lineage of its risks (src/hate/p1a_graph.py, with
-- src/hate/execution_status.py). Nodes and edges have passed their schema: an id, a kind or an
-- endpoint that is missing is the empty text. Python's sets are lists without repetitions;
-- str.lower and the order of texts are parameters; messages are left out.
pub mod TextSets
pub mod Lineage
pub mod Integrity
pub mod Executed
mod Tests
use harness_auto_test_eviden.Prelude.{
  ℕ, suc, String, Bool, true, false, not, ◌&&◌, ◌||◌, Option, none, some, List, [], ◌∷◌, ◌++◌, ◌==◌,
  ltb, ◌===◌, member, any, all, select, is_empty, get_or, if◌then◌else◌, joined, is_some, sort_by,
}
use harness_auto_test_eviden.CodePoints.{codes, strip}

-- node["data"], as has_execution_result reads it, and whether its contexts and branch_hits hold
-- anything
pub record Data : Type 0 where
  pub would_run : Bool
  pub status : Option String
  pub has_contexts : Bool
  pub has_branch_hits : Bool

-- sourceRefs: no list, or a list in which none is no text
pub data SourceRefs : Type 0 where
  no_list : SourceRefs
  refs : List (Option String) → SourceRefs

pub record Node : Type 0 where
  pub id : String
  pub kind : String
  pub data_ : Data
  pub source_refs : SourceRefs

pub record Edge : Type 0 where
  pub kind : String
  pub source : String
  pub target : String
  pub source_refs : SourceRefs

pub data GraphIssue : Type 0 where
  missing_node_id : (node_id : String) → GraphIssue
  duplicate_node_id : (node_id : String) (count : ℕ) → GraphIssue
  unresolved_edge_endpoint : (edge_index : ℕ) (fields : List String) → GraphIssue
  edge_kind_mismatch : (edge_index : ℕ) (kind : String) → GraphIssue

pub record GraphAnalysis : Type 0 where
  pub issues : List GraphIssue
  pub has_risk_test_links : Bool
  pub all_risk_tests_executed : Bool
  pub has_changed_risk_links : Bool
  pub unexecuted_risk_tests : List String

-- GraphAnalysis.valid
abbrev pub is_valid : GraphAnalysis → Bool
is_valid a = is_empty a.issues

-- What the loop makes of one edge
pub data Link : Type 0 where
  unresolved : (fields : List String) → Link
  mismatch : Link
  unsourced : Link
  risk_test : (target : String) → Link
  placement : (target : String) → Link
  executed_test : (source : String) → Link
  changed_risk : Link
  other : Link

-- The variables of the loop over the edges
pub record Links : Type 0 where
  pub issues : List GraphIssue
  pub risk_tests : List String
  pub placements : List String
  pub executed_tests : List String
  pub changed_risk_links : Bool

abbrev pub is_blank_text : String → Bool
is_blank_text s = is_empty (strip (codes s))

abbrev pub usable_ref : Option String → Bool
usable_ref none = false
usable_ref (some ref) = not (is_blank_text ref)

unfoldable pub valid_source_refs : SourceRefs → Bool
valid_source_refs no_list = false
valid_source_refs (refs items) = not (is_empty items) && all usable_ref items

abbrev pair_is : String → String → Option String → Option String → Bool
pair_is a b (some s) (some t) = s === a && t === b
pair_is a b _ _ = false

-- _RELATION_KINDS, and whether the kinds of the endpoints are none of the expected pairs
unfoldable pub wrong_kinds : String → Option String → Option String → Bool
wrong_kinds kind s t =
    if kind === "touches"
    then not (pair_is "changed_code" "risk" s t)
    else if kind === "requires_test"
    then not (pair_is "risk" "test" s t || pair_is "risk" "test_placement" s t)
    else if kind === "evidenced_by"
    then not (
        pair_is "test" "execution_evidence" s t
        || (pair_is "test" "evidence_artifact" s t
            || pair_is "execution_evidence" "evidence_artifact" s t))
    else false

-- set.add
abbrev pub add : String → List String → List String
add t ts = if member t ts then ts else ts ++ (t ∷ [])

abbrev pub difference : List String → List String → List String
difference ts us = select (λ t. not (member t us)) ts

abbrev pub union : List String → List String → List String
union ts us = ts ++ difference us ts

abbrev pub has_kind : String → Option String → Bool
has_kind kind none = false
has_kind kind (some k) = k === kind

module _ (lower : String → String) (precedes : String → String → Bool) where
  abbrev pub sort_texts : List String → List String
  sort_texts = sort_by precedes

  -- has_execution_result
  unfoldable pub has_result : Data → Bool
  has_result d =
      member (if d.would_run then "inconclusive" else lower (get_or d.status "unknown"))
        ("passed" ∷ "failed" ∷ "error" ∷ "flaky" ∷ [])

  module _ (nodes : List Node) where
    -- counts[node_id]
    unfoldable pub count : List Node → String → ℕ
    count [] id = 0
    count (n ∷ ns) id = let rest = count ns id in if n.id === id then suc rest else rest

    unfoldable pub node_ids : List Node → List String
    node_ids [] = []
    node_ids (n ∷ ns) = let rest = node_ids ns in if member n.id rest then rest else n.id ∷ rest

    unfoldable pub id_issues : List String → List GraphIssue
    id_issues [] = []
    id_issues (id ∷ rest) =
        let later = id_issues rest in
        if is_blank_text id
        then missing_node_id id ∷ later
        else if ltb 1 (count nodes id)
        then duplicate_node_id id (count nodes id) ∷ later
        else later

    unfoldable pub first_kind : List Node → String → Option String
    first_kind [] id = none
    first_kind (n ∷ ns) id =
        let rest = first_kind ns id in if n.id === id then some n.kind else rest

    -- kinds.get(node_id)
    unfoldable pub node_kind : String → Option String
    node_kind id =
        if not (is_blank_text id) && count nodes id == 1 then first_kind nodes id else none

    -- node_id in execution_ids
    unfoldable pub is_executed : String → Bool
    is_executed id =
        not (is_blank_text id)
        && (count nodes id == 1
            && any (λ n. n.id === id && (n.kind === "execution_evidence" && has_result n.data_))
                nodes)

    module _ (run_id : String) where
      unfoldable pub external_export : Edge → Bool
      external_export e =
          e.kind === "decides"
          && (has_kind "gate_verdict" (node_kind e.source)
              && (not (run_id === "") && e.target === joined "qeg_export:" run_id))

      abbrev pub missing_ends : Edge → List String
      missing_ends e =
          (if is_some (node_kind e.source) then [] else "from" ∷ [])
          ++ (if is_some (node_kind e.target) || external_export e then [] else "to" ∷ [])

      -- The branches of an edge without issues
      unfoldable pub lineage : Edge → Link
      lineage e =
          if not (valid_source_refs e.source_refs)
          then unsourced
          else if e.kind === "requires_test" && has_kind "test" (node_kind e.target)
          then risk_test e.target
          else if e.kind === "requires_test" && has_kind "test_placement" (node_kind e.target)
          then placement e.target
          else if e.kind === "evidenced_by" && is_executed e.target
          then executed_test e.source
          else if e.kind === "touches"
          then changed_risk
          else other

      unfoldable pub link_of : Edge → Link
      link_of e =
          if not (is_empty (missing_ends e))
          then unresolved (missing_ends e)
          else if wrong_kinds e.kind (node_kind e.source) (node_kind e.target)
              || (e.kind === "decides" && not (external_export e))
          then mismatch
          else lineage e

      unfoldable pub add_link : ℕ → Edge → Link → Links → Links
      add_link i e (unresolved fields) l = record l {
        issues = l.issues ++ (unresolved_edge_endpoint i fields ∷ []);
      }
      add_link i e mismatch l = record l { issues = l.issues ++ (edge_kind_mismatch i e.kind ∷ []) }
      add_link i e (risk_test t) l = record l { risk_tests = add t l.risk_tests }
      add_link i e (placement t) l = record l { placements = add t l.placements }
      add_link i e (executed_test s) l = record l { executed_tests = add s l.executed_tests }
      add_link i e changed_risk l = record l { changed_risk_links = true }
      add_link i e unsourced l = l
      add_link i e other l = l

      -- for index, edge in enumerate(…)
      unfoldable pub scan : ℕ → List Edge → Links → Links
      scan i [] l = l
      scan i (e ∷ es) l = scan (suc i) es (add_link i e (link_of e) l)

      abbrev pub before_edges : Links
      before_edges = record {
        issues = id_issues (sort_texts (node_ids nodes));
        risk_tests = [];
        placements = [];
        executed_tests = [];
        changed_risk_links = false;
      }

      abbrev pub analysis : Links → GraphAnalysis
      analysis l =
          let unexecuted =
            sort_texts (union (difference l.risk_tests l.executed_tests) l.placements) in
          record {
            issues = l.issues;
            has_risk_test_links = not (is_empty l.risk_tests);
            all_risk_tests_executed = not (is_empty l.risk_tests) && is_empty unexecuted;
            has_changed_risk_links = l.changed_risk_links;
            unexecuted_risk_tests = unexecuted;
          }

      unfoldable pub analyze_graph : List Edge → GraphAnalysis
      analyze_graph edges = analysis (scan 0 edges before_edges)
