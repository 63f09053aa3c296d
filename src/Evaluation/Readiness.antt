-- ===== src/Evaluation/Readiness.antt =====
-- The readiness of a product by the graph of its release claims (src/hate/readiness_model.py).
-- Python's sets are lists without repetitions; messages and copied summaries are left out.

pub mod Supported
pub mod Go
mod Tests
use harness_auto_test_eviden.Prelude.{
  ℕ, length, String, Bool, true, false, not, ◌&&◌, ◌||◌, List, [], ◌∷◌, ◌++◌, map, ◌===◌, member,
  select, is_empty, drop, if◌then◌else◌,
}
use harness_auto_test_eviden.CodePoints.{Codes, codes, starts_with}
use harness_auto_test_eviden.EvidenceGraph.{add}

pub record ClaimNode : Type 0 where
  pub id : String
  pub kind : String
  pub ready : Bool
  pub source_refs : List String

pub record ClaimEdge : Type 0 where
  pub kind : String
  pub source : String
  pub target : String

pub record ClaimGraph : Type 0 where
  pub nodes : List ClaimNode
  pub edges : List ClaimEdge
  pub findings : List String

pub data HardDq : Type 0 where
  graph_finding : (finding : String) → HardDq
  unsupported_claim_marked_ready : (claim_id : Codes) → HardDq

pub data ReadinessStatus : Type 0 where
  go block : ReadinessStatus

pub record UnsupportedClaim : Type 0 where
  pub claim_id : Codes
  pub source_refs : List String

pub record ReadinessReport : Type 0 where
  pub overall_status : ReadinessStatus
  pub claim_count : ℕ
  pub unsupported_claims : List UnsupportedClaim
  pub contradictions : List ClaimEdge
  pub hard_dqs : List HardDq

-- The variables of _claim_ids_with_support
pub record Support : Type 0 where
  pub requirement_to_claims : List (String × List String)
  pub supported_requirements : List String

-- {node["id"]: node for node in nodes}
unfoldable pub set_node : ClaimNode → List ClaimNode → List ClaimNode
set_node n [] = n ∷ []
set_node n (x ∷ xs) = let rest = set_node n xs in if x.id === n.id then n ∷ xs else x ∷ rest

unfoldable pub nodes_by_id : List ClaimNode → List ClaimNode → List ClaimNode
nodes_by_id held [] = held
nodes_by_id held (n ∷ ns) = nodes_by_id (set_node n held) ns

-- requirement_to_claims.setdefault(r, set()).add(c)
unfoldable pub add_claim :
    String → String → List (String × List String) → List (String × List String)
add_claim r c [] = (r, c ∷ []) ∷ []
add_claim r c ((k, cs) ∷ m) =
    let rest = add_claim r c m in if k === r then (k, add c cs) ∷ m else (k, cs) ∷ rest

-- requirement_to_claims.get(r, set())
unfoldable pub claims_of : String → List (String × List String) → List String
claims_of r [] = []
claims_of r ((k, cs) ∷ m) = let rest = claims_of r m in if k === r then cs else rest

abbrev pub is_claim_edge : ClaimEdge → Bool
is_claim_edge e = e.kind === "derived_from" && starts_with (codes "release_claim:") (codes e.source)

abbrev pub is_support_edge : ClaimEdge → Bool
is_support_edge e =
    member e.kind ("supported_by" ∷ "reviewed_by" ∷ [])
    && starts_with (codes "requirement:") (codes e.source)

abbrev pub support_step : ClaimEdge → Support → Support
support_step e s = record {
  requirement_to_claims =
      if is_claim_edge e
      then add_claim e.target e.source s.requirement_to_claims
      else s.requirement_to_claims;
  supported_requirements =
      if is_support_edge e then add e.source s.supported_requirements else s.supported_requirements;
}

unfoldable pub scan_support : List ClaimEdge → Support → Support
scan_support [] s = s
scan_support (e ∷ es) s = scan_support es (support_step e s)

unfoldable pub collect_claims : List String → List (String × List String) → List String
collect_claims [] m = []
collect_claims (r ∷ rs) m = claims_of r m ++ collect_claims rs m

-- _claim_ids_with_support
unfoldable pub claim_ids_with_support : List ClaimEdge → List String
claim_ids_with_support edges =
    let s =
      scan_support edges (record { requirement_to_claims = []; supported_requirements = [] }) in
    collect_claims s.supported_requirements s.requirement_to_claims

-- str.removeprefix("release_claim:")
abbrev pub claim_id_of : String → Codes
claim_id_of id =
    if starts_with (codes "release_claim:") (codes id) then drop 14 (codes id) else codes id

abbrev pub is_contradiction : ClaimEdge → Bool
is_contradiction e = member e.kind ("contradicted_by" ∷ "blocked_by" ∷ [])

abbrev pub unsupported_of : ClaimNode → UnsupportedClaim
unsupported_of c = record { claim_id = claim_id_of c.id; source_refs = c.source_refs }

abbrev pub ready_dq : ClaimNode → HardDq
ready_dq c = unsupported_claim_marked_ready (claim_id_of c.id)

-- claim_nodes: the release claims among the nodes, of which the last one of an id counts
abbrev pub claim_nodes : ClaimGraph → List ClaimNode
claim_nodes graph =
    select (λ (n : ClaimNode). n.kind === "release_claim") (nodes_by_id [] graph.nodes)

-- build_product_readiness_from_graph
unfoldable pub build_product_readiness : ClaimGraph → ReadinessReport
build_product_readiness graph =
    let claims = claim_nodes graph in
    let supported = claim_ids_with_support graph.edges in
    let contradicted = select is_contradiction graph.edges in
    let unsupported = select (λ (c : ClaimNode). not (member c.id supported)) claims in
    let hard_dqs =
      map graph_finding graph.findings
      ++ map ready_dq (select (λ (c : ClaimNode). c.ready) unsupported) in
    record {
      overall_status =
          if not (is_empty hard_dqs) || (not (is_empty unsupported) || not (is_empty contradicted))
          then block
          else go;
      claim_count = length claims;
      unsupported_claims = map unsupported_of unsupported;
      contradictions = contradicted;
      hard_dqs = hard_dqs;
    }
