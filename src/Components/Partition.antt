-- ===== src/Components/Partition.antt =====
-- The two searches together: the components partition the included vertices.
use mathlib.Core.List.Memᴰ
use orphanode.Common.{
  ℕ, suc, ◌+◌, ◌≡◌, refl, ◌∙◌, inr, ◌↔◌, ⊎_elim, Bool, true, false, Option, some, List, [], ◌∷◌,
  Memᴰ, arith, length, All-intro, replicate, length-replicate, sym,
}
use orphanode.Search.Step.{up}
use orphanode.Search.Loop.{Net, Inv}
use orphanode.Search.Vector.{
  vector_board, unmarked, flag, up-flag, flag-replicate, IsIn-lt, unmarked-replicate, flag-lt,
}
use orphanode.Components.{Adjacency, assign}
use orphanode.Components.Order.{Arc, Leads, stay, go}
use orphanode.Components.Round.{Domain}
use orphanode.Components.Finish.{Finished}
use orphanode.Components.Classes.{total, IsClass, Groups, Reach-Leads, assign_lem}

-- The components cover the included vertices, each is a class, and together they have as many
-- vertices as are included: no vertex is in two components, nor twice in one.
pub record Partition (outgoing : Adjacency) (included : List Bool) (components : List (List ℕ))
    : Type 0 where
  pub classes : (c : List ℕ) → Memᴰ c components → IsClass outgoing included c
  pub cover : (v : ℕ) → (flag included v ≡ true) ↔ ((c : List ℕ) × Memᴰ c components × Memᴰ v c)
  pub count : total components + unmarked included ≡ length outgoing

unmarked-same :
    (a b : List Bool)
    → length a ≡ length b
    → ((v : ℕ) → (flag a v ≡ true) ↔ (flag b v ≡ true))
    → unmarked a ≡ unmarked b
unmarked-same [] [] h same = refl
unmarked-same [] (y ∷ b) h same = absurd (omega arith)
unmarked-same (x ∷ a) [] h same = absurd (omega arith)
unmarked-same (true ∷ a) (true ∷ b) h same = unmarked-same a b (omega arith) (λ v. same (suc v))
unmarked-same (false ∷ a) (false ∷ b) h same =
    omega (arith, unmarked-same a b (omega arith) (λ v. same (suc v)))
unmarked-same (true ∷ a) (false ∷ b) h same = cc ((same 0).0 refl)
unmarked-same (false ∷ a) (true ∷ b) h same = cc ((same 0).1 refl)

Leads-included :
    {outgoing : Adjacency} {included : List Bool} {v m : ℕ}
    → Leads outgoing included v m
    → flag included m ≡ true
    → flag included v ≡ true
Leads-included stay i = i
Leads-included (go arc path) i = arc.0

module _ {outgoing : Adjacency} {included : List Bool} {sources : ℕ → Option (List ℕ)}
    {next : ℕ → List ℕ} (dom : Domain outgoing included) (net : Net sources next)
    (arcs : (u v : ℕ) → Memᴰ u (next v) ↔ Arc outgoing included u v)
    (vertex : (v : ℕ) → net.IsVertex v ↔ (flag included v ≡ true)) where
  blank-Inv : Inv net [] (replicate (length outgoing) false) []
  blank-Inv =
      let n = length outgoing in
      let blank : (v : ℕ) → ¬ (up (replicate n false) v ≡ true) =
        λ v f. cc (flag-replicate n v, up-flag (replicate n false) v, f) in
      record {
        range = λ v i. IsIn-lt (replicate n false) v (
            omega
              (arith, length-replicate n false, dom.flags, flag-lt included v ((vertex v).0 i)));
        valid = λ v m. absurd (Memᴰ.not-nil m);
        queued = λ v m. absurd (Memᴰ.not-nil m);
        sound = λ v f. absurd (blank v f);
        started = λ v m. absurd (Memᴰ.not-nil m);
        closed_under = λ u v f. absurd (blank u f);
      }

  blank-Groups : Groups outgoing included (replicate (length outgoing) false) []
  blank-Groups =
      let n = length outgoing in
      record {
        classes = λ c m. absurd (Memᴰ.not-nil m);
        cover = λ v. (
          λ f. absurd (cc (flag-replicate n v, up-flag (replicate n false) v, f)),
          λ (c, m, i). absurd (Memᴰ.not-nil m),
        );
        size = length-replicate n false;
        count = omega (arith, unmarked-replicate n);
      }

  -- The two searches together.
  pub assign-Partition :
      (may_start : ℕ → Option Bool) (order : List ℕ)
      → ((v : ℕ) → flag included v ≡ true → may_start v ≡ some true)
      → Finished outgoing included order
      → (components : List (List ℕ)) × (assign
            (length outgoing)
            sources
            may_start
            order
            (replicate (length outgoing) false)
            []
          ≡ some components)
        × Partition outgoing included components
  assign-Partition may_start order may fin =
      let n = length outgoing in
      let (components, assigned, roots, e, g, inv, all) =
        assign_lem net arcs n may_start [] order (replicate n false) [] (omega arith) fin.ordered
          (λ v i. inr ((fin.members v).1 i))
          (All-intro _ order (λ v m. (vertex v).1 ((fin.members v).0 m)))
          (All-intro _ order (λ v m. may v ((fin.members v).0 m))) blank-Inv blank-Groups in
      let same : (v : ℕ) → (up assigned v ≡ true) ↔ (flag included v ≡ true) = λ v. (
        λ f.
            let (m, i, path) = Reach-Leads net arcs (inv.sound v f) in
            Leads-included path
              ((fin.members m).0 (⊎_elim (λ n. absurd (Memᴰ.not-nil n)) (λ m. m) ((all m).1 i))),
        λ i. inv.started v ((all v).0 (inr ((fin.members v).1 i))),
      ) in
      (
        components,
        e,
        record {
          classes = g.classes;
          cover = λ v. ground (arith, same v, g.cover v);
          count = omega (
            arith,
            g.count,
            unmarked-same assigned included (g.size ∙ sym dom.flags)
                (λ v. ground (arith, same v, up-flag assigned v)),
          );
        },
      )
