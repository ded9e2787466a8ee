-- ===== src/Evidence.antt =====
-- crates/orphanode/src/domain/evidence.rs: the graph of evidence, as it is built.
-- An identifier is its number. A panic is `none`.
pub mod Built
mod Samples
use orphanode.Common.{
  ℕ, ◌^◌, Bool, true, false, Option, none, some, List, [], ◌∷◌, ◌++◌, length, get_elem?, set, any,
  ltb, ◌==◌, if◌then◌else◌, and_then,
}
use orphanode.Common.Order.{nat_ord}
use orphanode.Common.Sorting.{sort}
use orphanode.Common.Text.{Text}

pub data EvidenceKind : Type 0 where
  entry manifest script configuration import_ export_ symbol member package_ plugin retain blocker :
      EvidenceKind

pub record EvidenceNode : Type 0 where
  pub id : ℕ
  pub kind : EvidenceKind
  pub summary : Text
  pub path : Option Text
  pub start : Option ℕ
  pub end : Option ℕ

pub record EvidenceGraph : Type 0 where
  pub nodes : List EvidenceNode
  pub outgoing : List (List ℕ)

-- `EvidenceGraph::default()`
abbrev pub no_evidence : EvidenceGraph
no_evidence = record { nodes = []; outgoing = [] }

-- `span.map(|value| value.0)`, and the same of the second part.
abbrev pub span_start : Option (ℕ × ℕ) → Option ℕ
span_start none = none
span_start (some (start, end)) = some start

abbrev pub span_end : Option (ℕ × ℕ) → Option ℕ
span_end none = none
span_end (some (start, end)) = some end

abbrev pub new_node : ℕ → EvidenceKind → Text → Option Text → Option (ℕ × ℕ) → EvidenceNode
new_node id kind summary path span = record {
  id = id;
  kind = kind;
  summary = summary;
  path = path;
  start = span_start span;
  end = span_end span;
}

-- `self.nodes.push(node); self.outgoing.push(Vec::new());`
abbrev pub push_node : EvidenceGraph → EvidenceNode → EvidenceGraph
push_node g node = record { nodes = g.nodes ++ node ∷ []; outgoing = g.outgoing ++ [] ∷ [] }

-- Where the number of nodes does not fit 32 bits, the program panics.
unfoldable pub add_node :
    EvidenceGraph → EvidenceKind → Text → Option Text → Option (ℕ × ℕ) → Option (ℕ × EvidenceGraph)
add_node g kind summary path span =
    let id = length g.nodes in
    if ltb id (2 ^ 32) then some (id, push_node g (new_node id kind summary path span)) else none

-- A source that is no node makes the program panic; the target is not looked at.
unfoldable pub add_edge : EvidenceGraph → ℕ → ℕ → Option EvidenceGraph
add_edge g source target = and_then (get_elem? g.outgoing source) (λ edges.
    elim (any (λ t. t == target) edges) [
      | true ↦ some g
      | false ↦ some (record {
        nodes = g.nodes;
        outgoing = set g.outgoing source (sort (edges ++ target ∷ []));
      })
    ])

unfoldable pub find_node : EvidenceGraph → ℕ → Option EvidenceNode
find_node g id = get_elem? g.nodes id
