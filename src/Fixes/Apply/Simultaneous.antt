-- ===== src/Fixes/Apply/Simultaneous.antt =====
-- Splicing validated edits from the last to the first is the same as replacing every span of the
-- original at once.
use mathlib.Core.List.{reverse, append_assoc, reverse-append}
use orphanode.Common.{
  ℕ, zero, suc, ◌-◌, ◌≤◌, ◌<◌, ◌≡◌, refl, ap, sym, true, false, List, [], ◌∷◌, ◌++◌, any, ltb,
  ltb-false, ltb-true, adjacent, All, length, length-append, take, drop, arith,
}
use orphanode.Common.Text.{utf8}
use orphanode.Common.Result.{ok}
use orphanode.Fixes.ProjectPath.{ProjectPath}
use orphanode.Fixes.Plan.{SourceEdit, in_sequence, validate_non_overlapping}
use orphanode.Fixes.Apply.{splice, EditOutcome, edited, span_out_of_bounds, apply_each, apply_edits}

-- The bytes from position `pos` on, `rest`, with each span replaced; read from left to right.
abbrev pub simultaneous : ℕ → List ℕ → List SourceEdit → List ℕ
simultaneous pos rest [] = rest
simultaneous pos rest (e ∷ es) =
    take (e.span.start - pos) rest
    ++ (utf8 e.replacement ++ simultaneous e.span.end (drop (e.span.end - pos) rest) es)

module _ {ℓ} {A : Type ℓ} where
  take-append-drop : (n : ℕ) (xs : List A) → take n xs ++ drop n xs ≡ xs
  take-append-drop zero xs = refl
  take-append-drop (suc n) [] = refl
  take-append-drop (suc n) (x ∷ xs) = rw (take-append-drop n xs)

  length-take : (n : ℕ) (xs : List A) → n ≤ length xs → length (take n xs) ≡ n
  length-take zero xs h = refl
  length-take (suc n) [] h = absurd (omega arith)
  length-take (suc n) (x ∷ xs) h = ap suc (length-take n xs (omega arith))

  take-take_append :
      (s e : ℕ) (xs ys : List A) → s ≤ e → e ≤ length xs → take s (take e xs ++ ys) ≡ take s xs
  take-take_append zero e xs ys h k = refl
  take-take_append (suc s) zero xs ys h k = absurd (omega arith)
  take-take_append (suc s) (suc e) [] ys h k = absurd (omega arith)
  take-take_append (suc s) (suc e) (x ∷ xs) ys h k =
      ap (λ l. x ∷ l) (take-take_append s e xs ys (omega arith) (omega arith))

  drop-take_append : (e : ℕ) (xs ys : List A) → e ≤ length xs → drop e (take e xs ++ ys) ≡ ys
  drop-take_append zero xs ys h = refl
  drop-take_append (suc e) [] ys h = absurd (omega arith)
  drop-take_append (suc e) (x ∷ xs) ys h = drop-take_append e xs ys (omega arith)

  take-split : (p s : ℕ) (xs : List A) → p ≤ s → take s xs ≡ take p xs ++ take (s - p) (drop p xs)
  take-split zero s xs h = let e : s - 0 ≡ s = omega arith in rw e
  take-split (suc p) zero xs h = absurd (omega arith)
  take-split (suc p) (suc s) [] h = take-nil (suc s - suc p)
    where
      take-nil : (n : ℕ) → [] ≡ take {A = A} n []
      take-nil zero = refl
      take-nil (suc n) = refl
  take-split (suc p) (suc s) (x ∷ xs) h =
      let e : suc s - suc p ≡ s - p = omega arith in
      rw e (ap (λ l. x ∷ l) (take-split p s xs (omega arith)))

  drop-drop : (p e : ℕ) (xs : List A) → p ≤ e → drop (e - p) (drop p xs) ≡ drop e xs
  drop-drop zero e xs h = let i : e - 0 ≡ e = omega arith in rw i
  drop-drop (suc p) zero xs h = absurd (omega arith)
  drop-drop (suc p) (suc e) [] h = drop-nil (suc e - suc p)
    where
      drop-nil : (n : ℕ) → drop {A = A} n [] ≡ []
      drop-nil zero = refl
      drop-nil (suc n) = refl
  drop-drop (suc p) (suc e) (x ∷ xs) h =
      let i : suc e - suc p ≡ e - p = omega arith in rw i (drop-drop p e xs (omega arith))

-- The edits follow one another from `p` on.
abbrev pub IsOrdered : ℕ → List SourceEdit → Type 0
IsOrdered p [] = Unit
IsOrdered p (e ∷ es) = (p ≤ e.span.start) × (e.span.start ≤ e.span.end) × IsOrdered e.span.end es

abbrev then_each : EditOutcome → List SourceEdit → EditOutcome
then_each (edited u) es = apply_each u es
then_each (span_out_of_bounds s e l) es = span_out_of_bounds s e l
then_each EditOutcome.panicked es = EditOutcome.panicked

apply_each-append :
    (u : List ℕ) (xs ys : List SourceEdit)
    → apply_each u (xs ++ ys) ≡ then_each (apply_each u xs) ys
unfolding apply_each
apply_each-append u [] ys = refl
apply_each-append u (x ∷ xs) ys =
    ground (arith, apply_each-append (splice x.span.start x.span.end (utf8 x.replacement) u) xs ys)

module _ (original : List ℕ) where
  abbrev InBounds : List SourceEdit → Type 0
  InBounds = All (λ e. e.span.end ≤ length original)

  abbrev after : ℕ → List SourceEdit → List ℕ
  after p es = take p original ++ simultaneous p (drop p original) es

  -- One splice, where everything behind its span is already replaced.
  splice-after :
      (p : ℕ) (e : SourceEdit) (es : List SourceEdit)
      → p ≤ e.span.start
      → e.span.start ≤ e.span.end
      → e.span.end ≤ length original
      → splice e.span.start e.span.end (utf8 e.replacement) (after e.span.end es) ≡ after p (e ∷ es)
  splice-after p e es h k b =
      let rest = simultaneous e.span.end (drop e.span.end original) es in
      rw
        (
          take-take_append e.span.start e.span.end original rest k b,
          drop-take_append e.span.end original rest b,
          take-split p e.span.start original h,
          drop-drop p e.span.end original (omega arith),
        )
        (append_assoc (take p original) (take (e.span.start - p) (drop p original))
          (utf8 e.replacement ++ rest))

  apply_reverse :
      (p : ℕ) (es : List SourceEdit)
      → IsOrdered p es
      → InBounds es
      → apply_each original (reverse es) ≡ edited (after p es)
  unfolding apply_each
  apply_reverse p [] o b = ap edited (sym (take-append-drop p original))
  apply_reverse p (e ∷ es) o b =
      let later = apply_reverse e.span.end es o.2 b.1 in
      let rest = simultaneous e.span.end (drop e.span.end original) es in
      let long : e.span.end ≤ length (after e.span.end es) = omega (
        arith,
        length-append (take e.span.end original) rest,
        length-take e.span.end original b.0,
      ) in
      let done = splice-after p e es o.0 o.1 b.0 in
      rw
        (
          reverse-append (e ∷ []) es,
          apply_each-append original (reverse es) (e ∷ []),
          later,
          ltb-false _ _ long,
          ltb-false _ _ o.1,
        )
        (ap edited done)

IsOrdered-of_checks :
    (p : ℕ) (es : List SourceEdit)
    → ((e : SourceEdit) (rest : List SourceEdit) → es ≡ e ∷ rest → p ≤ e.span.start)
    → any (λ e. ltb e.span.end e.span.start) es ≡ false
    → adjacent in_sequence es ≡ true
    → IsOrdered p es
IsOrdered-of_checks p [] first h k = tt
IsOrdered-of_checks p (e ∷ []) first h k = (first e [] refl, ground arith, tt)
IsOrdered-of_checks p (e ∷ f ∷ es) first h k = (
  first e (f ∷ es) refl,
  ground arith,
  IsOrdered-of_checks e.span.end (f ∷ es) (λ g rest same. ground arith) (ground arith)
      (ground arith),
)

validated-IsOrdered :
    (path : ProjectPath) (es : List SourceEdit)
    → validate_non_overlapping path es ≡ ok tt
    → IsOrdered 0 es
unfolding validate_non_overlapping
validated-IsOrdered path es h =
    IsOrdered-of_checks 0 es (λ e rest same. omega arith) (ground arith) (ground arith)

InBounds-of_last :
    (n p : ℕ) (es : List SourceEdit) (e : SourceEdit)
    → IsOrdered p (es ++ e ∷ [])
    → e.span.end ≤ n
    → All (λ x. x.span.end ≤ n) (es ++ e ∷ []) × (p ≤ e.span.end)
InBounds-of_last n p [] e o h = ((h, tt), omega arith)
InBounds-of_last n p (x ∷ es) e o h =
    let (rest, below) = InBounds-of_last n x.span.end es e o.2 h in
    ((omega arith, rest), omega arith)

-- On edits that the plan's validation accepts, applying them gives the original with every span
-- replaced at once if the last edit ends inside the file, and else reports the last edit; it never
-- panics.
pub apply_edits-simultaneous :
    (path : ProjectPath) (original : List ℕ) (es : List SourceEdit) (e : SourceEdit)
    → validate_non_overlapping path (es ++ e ∷ []) ≡ ok tt
    → (e.span.end ≤ length original
        → apply_edits original (es ++ e ∷ []) ≡ edited (simultaneous 0 original (es ++ e ∷ [])))
      × (length original < e.span.end
          → apply_edits original (es ++ e ∷ [])
            ≡ span_out_of_bounds e.span.start e.span.end (length original))
unfolding apply_edits apply_each
apply_edits-simultaneous path original es e h =
    let o = validated-IsOrdered path (es ++ e ∷ []) h in
    (
      λ b.
          apply_reverse original 0 (es ++ e ∷ []) o
            (InBounds-of_last (length original) 0 es e o b).0,
      λ b. rw (reverse-append es (e ∷ []), apply_each, ltb-true _ _ b),
    )
