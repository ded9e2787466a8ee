-- ===== src/Components.antt =====
-- Strongly connected components by two depth-first searches, as `FileGraph::components_within`
-- (crates/orphanode/src/domain/graph.rs) and `dead_strongly_connected_components`
-- (crates/orphanode/src/analysis/symbols.rs) write them out. A vector that is only pushed to and
-- popped from is a list with its last element first, so that `rev()` of it is the list itself. An
-- index past the end, where the program panics, is `none`.
pub mod Depth
pub mod Round
pub mod Finish
pub mod Order
pub mod Gather
pub mod Distinct
pub mod Classes
pub mod Partition
pub mod Arrange
use orphanode.Common.{
  ℕ, zero, suc, ◌+◌, Bool, true, false, not, Option, none, some, List, [], ◌∷◌, get_elem?, set,
  replicate, length, and_then, if◌then◌else◌,
}
use orphanode.Search.{expand}
use orphanode.Search.Vector.{vector_board}

abbrev pub Adjacency : Type 0
Adjacency = List (List ℕ)

-- `included[v] && !visited[v]`
unfoldable pub is_open : List Bool → List Bool → ℕ → Option Bool
is_open included visited v = and_then (get_elem? included v) (λ inside. elim inside [
  | false ↦ some false
  | true ↦ and_then (get_elem? visited v) (λ seen. some (not seen))
])

-- A frame of the stack is a vertex and the number of its edges that are done.
pub record Visit : Type 0 where
  pub visited : List Bool
  pub stack : List (ℕ × ℕ)
  pub order : List ℕ

abbrev pub enter : Visit → ℕ → Visit
enter s v = record { visited = set s.visited v true; stack = (v, 0) ∷ s.stack; order = s.order }

-- One round: the next edge of the top frame, or its end.
unfoldable pub advance : Adjacency → List Bool → ℕ → ℕ → Visit → Option Visit
advance outgoing included v i s = and_then (get_elem? outgoing v) (λ targets.
    elim (get_elem? targets i) [
      | none ↦ some (record { visited = s.visited; stack = s.stack; order = v ∷ s.order })
      | some target ↦
          let moved : Visit = record {
            visited = s.visited;
            stack = (v, suc i) ∷ s.stack;
            order = s.order;
          } in
          and_then (is_open included s.visited target)
            (λ fresh. some (if fresh then enter moved target else moved))
    ])

-- `while let Some(frame) = stack.last_mut() { ... }`
unfoldable pub depth :
    ℕ → Adjacency → List Bool → List Bool → List (ℕ × ℕ) → List ℕ → Option (List Bool × List ℕ)
depth fuel outgoing included visited [] order = some (visited, order)
depth zero outgoing included visited (f ∷ stack) order = none
depth (suc fuel) outgoing included visited ((v, i) ∷ stack) order =
    and_then
      (advance outgoing included v i (record { visited = visited; stack = stack; order = order }))
      (λ s. depth fuel outgoing included s.visited s.stack s.order)

-- The loop over the starts.
unfoldable pub finish_from :
    ℕ → Adjacency → List Bool → List ℕ → List Bool → List ℕ → Option (List ℕ)
finish_from fuel outgoing included [] visited order = some order
finish_from fuel outgoing included (start ∷ starts) visited order =
    and_then (is_open included visited start) (λ fresh. elim fresh [
      | false ↦ finish_from fuel outgoing included starts visited order
      | true ↦
          and_then (depth fuel outgoing included (set visited start true) ((start, 0) ∷ []) order)
            (λ (visited', order'). finish_from fuel outgoing included starts visited' order')
    ])

-- `i..i + k`
abbrev pub range : ℕ → ℕ → List ℕ
range i zero = []
range i (suc k) = i ∷ range (suc i) k

-- Rounds enough for all vertices and edges.
abbrev pub rounds : Adjacency → ℕ
rounds [] = 0
rounds (targets ∷ outgoing) = suc (length targets) + rounds outgoing

-- The vertices by the end of their visit, the last first.
unfoldable pub finishing_order : Adjacency → List Bool → Option (List ℕ)
finishing_order outgoing included =
    let n = length outgoing in
    finish_from (rounds outgoing) outgoing included (range 0 n) (replicate n false) []

-- The pushes of a list, one after the other.
unfoldable pub push_onto : List ℕ → List ℕ → List ℕ
push_onto [] stack = stack
push_onto (v ∷ vs) stack = push_onto vs (v ∷ stack)

-- The second search: the unassigned vertices that lead to the start. `sources` gives those of a
-- vertex that may be entered; the newly marked of them are pushed.
unfoldable pub gather :
    ℕ → (ℕ → Option (List ℕ)) → List Bool → List ℕ → List ℕ → Option (List Bool × List ℕ)
gather fuel sources assigned [] component = some (assigned, component)
gather zero sources assigned (v ∷ stack) component = none
gather (suc fuel) sources assigned (v ∷ stack) component =
    and_then (expand sources assigned v [])
      (λ s. gather fuel sources s.flags (push_onto s.queue stack) (v ∷ component))

-- The loop over the finished vertices, of which an assigned one, or one that may not start a
-- component, is passed over.
unfoldable pub assign :
    ℕ
    → (ℕ → Option (List ℕ))
    → (ℕ → Option Bool)
    → List ℕ
    → List Bool
    → List (List ℕ)
    → Option (List (List ℕ))
assign fuel sources may_start [] assigned components = some components
assign fuel sources may_start (start ∷ order) assigned components =
    and_then (get_elem? assigned start) (λ seen. elim seen [
      | true ↦ assign fuel sources may_start order assigned components
      | false ↦ and_then (may_start start) (λ ok. elim ok [
        | false ↦ assign fuel sources may_start order assigned components
        | true ↦
            and_then (gather fuel sources (set assigned start true) (start ∷ []) [])
              (λ (assigned', component).
                assign fuel sources may_start order assigned' (component ∷ components))
      ])
    ])
