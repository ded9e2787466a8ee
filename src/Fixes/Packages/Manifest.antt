-- ===== src/Fixes/Packages/Manifest.antt =====
-- The `expect` of `workspace_manifest_path`: a manifest below an accepted workspace is accepted,
-- unless the path grows past the bound on its length.
use Prim.Native.Nat.{◌*◌}
use mathlib.Core.List.{map-append}
use orphanode.Common.{
  ℕ, ◌+◌, ◌≤◌, ◌<◌, Bool, false, ◌||◌, ◌≡◌, ◌≢◌, refl, ap, sym, ◌∙◌, inl, inr, List, [], ◌∷◌, ◌++◌,
  any, ltb, ◌==◌, if◌then◌else◌, arith, Bool-cases, length, length-append,
}
use orphanode.Common.Text.{
  Text, text, split, starts_with, contains_char, replace_char, byte_len, is_empty,
}
use orphanode.Common.Result.{ok, err}
use orphanode.Common.Order.{same, same_iff, text_ord}
use orphanode.Common.FilePath.{components, split_components, later_components}
use orphanode.Fixes.ProjectPath
use orphanode.Fixes.ProjectPath.{ProjectPath, check, has_drive, is_unsafe}
use orphanode.Fixes.ProjectPath.Inside.{new-new, replace_char_idem}
use orphanode.Fixes.Packages.{panicked, workspace_manifest_path}

split-ne-nil : (sep : ℕ) (s : Text) → (t : Text) × (ts : List Text) × (split sep s ≡ t ∷ ts)
unfolding split
split-ne-nil sep [] = ([], [], refl)
split-ne-nil sep (c ∷ s) =
    let (t, ts, e) = split-ne-nil sep s in
    elim (Bool-cases (c == sep)) [
      | inl h ↦ ([], split sep s, rw h)
      | inr h ↦ (c ∷ t, ts, rw (h, e))
    ]

-- A separator splits a text in two.
pub split-append : (sep : ℕ) (s r : Text) → split sep (s ++ sep ∷ r) ≡ split sep s ++ split sep r
unfolding split
split-append sep [] r = ground arith
split-append sep (c ∷ s) r =
    let (t, ts, e) = split-ne-nil sep s in
    elim (Bool-cases (c == sep)) [
      | inl h ↦ rw (split, h, split-append sep s r)
      | inr h ↦ rw (split, h, split-append sep s r, e)
    ]

any-append {ℓ} :
    {A : Type ℓ} (p : A → Bool) (xs ys : List A) → any p (xs ++ ys) ≡ (any p xs || any p ys)
any-append p [] ys = refl
any-append p (x ∷ xs) ys = ground (arith, any-append p xs ys)

later_components-append :
    (ts us : List Text) → later_components (ts ++ us) ≡ later_components ts ++ later_components us
unfolding later_components
later_components-append [] us = refl
later_components-append ([] ∷ ts) us = later_components-append ts us
later_components-append ((c ∷ s) ∷ ts) us = ground (arith, later_components-append ts us)

-- Behind a relative path, a further name keeps the components safe.
split_components-append :
    (c : ℕ) (s : Text) (ts us : List Text)
    → split_components (((c ∷ s) ∷ ts) ++ us)
      ≡ split_components ((c ∷ s) ∷ ts) ++ later_components us
unfolding split_components later_components
split_components-append c s ts us = ground (arith, later_components-append ts us)

split-cons :
    (c : ℕ) (s : Text)
    → (c == b'/') ≡ false
    → (t : Text) × (ts : List Text) × (split b'/' (c ∷ s) ≡ (c ∷ t) ∷ ts)
unfolding split
split-cons c s h = let (t, ts, e) = split-ne-nil b'/' s in (t, ts, rw (split, h, e))

abbrev file : Text
file = text "package.json"

file_safe : any is_unsafe (later_components (split b'/' file)) ≡ false
unfolding later_components split
file_safe = refl

components-manifest :
    (c : ℕ) (s : Text)
    → (c == b'/') ≡ false
    → any is_unsafe (components (c ∷ s)) ≡ false
    → any is_unsafe (components ((c ∷ s) ++ b'/' ∷ file)) ≡ false
unfolding components
components-manifest c s h safe =
    let (t, ts, e) = split-cons c s h in
    let parts = split-append b'/' (c ∷ s) file in
    rw
      (
        components,
        parts,
        e,
        split_components-append c t ts (split b'/' file),
        any-append is_unsafe (split_components ((c ∷ t) ∷ ts)) (later_components (split b'/' file)),
      )
      (let first = rw (components, e) at safe in ground (arith, file_safe))

-- The facts behind an accepted text other than `.`.
record IsAccepted (v : Text) : Type 0 where
  some_text : is_empty v ≡ false
  no_null : contains_char 0 v ≡ false
  relative : starts_with (text "/") v ≡ false
  no_drive : has_drive v ≡ false
  safe : any is_unsafe (components v) ≡ false

check-IsAccepted : (v : Text) {p : ProjectPath} → check v ≡ ok p → v ≢ text "." → IsAccepted v
unfolding check
check-IsAccepted v h ne = ground (arith, same_iff v (text "."))

byte_len-append : (s r : Text) → byte_len (s ++ r) ≡ byte_len s + byte_len r
unfolding byte_len
byte_len-append [] r = omega arith
byte_len-append (c ∷ s) r = omega (arith, byte_len-append s r)

byte_len-file : byte_len (text "/package.json") ≡ 13
unfolding byte_len
byte_len-file = refl

has_drive-append :
    (v : Text) → is_empty v ≡ false → has_drive v ≡ false → has_drive (v ++ b'/' ∷ file) ≡ false
has_drive-append [] e h = cc
has_drive-append (c ∷ []) e h = ground arith
has_drive-append (c ∷ d ∷ s) e h = h

not_dot : (v : Text) → same (v ++ b'/' ∷ file) (text ".") ≡ false
not_dot v = elim (Bool-cases (same (v ++ b'/' ∷ file) (text "."))) [
  | inl e ↦
      let short = ap length ((same_iff (v ++ b'/' ∷ file) (text ".")).0 e) in
      absurd (omega (arith, length-append v (b'/' ∷ file)))
  | inr e ↦ e
]

-- Only the bound on the length is left of the checks.
check-manifest :
    (v : Text)
    → IsAccepted v
    → check (v ++ text "/package.json") ≡ (
        if ltb (16 * 1024) (byte_len v + 13)
        then err (ProjectPath.unsafe_path (v ++ text "/package.json"))
        else ok (record { value = v ++ text "/package.json" }))
unfolding check
check-manifest [] a = cc a.some_text
check-manifest (c ∷ s) a =
    let r = a.relative in
    ground (
      arith,
      not_dot (c ∷ s),
      any-append (λ (x : ℕ). x == 0) (c ∷ s) (b'/' ∷ file),
      has_drive-append (c ∷ s) refl a.no_drive,
      components-manifest c s (ground arith) a.safe,
      byte_len-append (c ∷ s) (b'/' ∷ file),
      byte_len-file,
    )

replace_value :
    (value : Text) (wd : ProjectPath)
    → ProjectPath.new value ≡ ok wd
    → replace_char b'\\' b'/' wd.value ≡ wd.value
replace_value value wd h =
    let e = (new-new value wd h).0 in
    ap (replace_char b'\\' b'/') e ∙ replace_char_idem value ∙ sym e

check-value :
    (value : Text) (wd : ProjectPath) → ProjectPath.new value ≡ ok wd → check wd.value ≡ ok wd
unfolding ProjectPath.new
check-value value wd h = ap check (sym (replace_value value wd h)) ∙ (new-new value wd h).1

new-manifest :
    (value : Text) (wd : ProjectPath)
    → ProjectPath.new value ≡ ok wd
    → ProjectPath.new (wd.value ++ text "/package.json") ≡ check (wd.value ++ text "/package.json")
unfolding ProjectPath.new
new-manifest value wd h = ap check (
    map-append (λ (c : ℕ). if c == b'\\' then b'/' else c) wd.value (text "/package.json")
    ∙ ap (λ v. v ++ text "/package.json") (replace_value value wd h))

root_manifest : ProjectPath.new (text "package.json") ≡ ok (record { value = text "package.json" })
unfolding ProjectPath.new check components split split_components later_components byte_len
root_manifest = refl

-- For an accepted workspace the manifest's path is `package.json` in the root, and the workspace's
-- path with `/package.json` elsewhere, if that has at most 16384 bytes; if it has more, the
-- `expect` fails.
pub workspace_manifest_path-new :
    (value : Text) (wd : ProjectPath)
    → ProjectPath.new value ≡ ok wd
    → (wd.value ≡ text "."
        → workspace_manifest_path wd ≡ ok (record { value = text "package.json" }))
      × (wd.value ≢ text "."
          → byte_len wd.value + 13 ≤ 16384
          → workspace_manifest_path wd ≡ ok (record { value = wd.value ++ text "/package.json" }))
      × (wd.value ≢ text "."
          → 16384 < byte_len wd.value + 13
          → workspace_manifest_path wd ≡ err panicked)
unfolding workspace_manifest_path
workspace_manifest_path-new value wd h =
    let is_dot = same_iff wd.value (text ".") in
    let found = λ (ne : wd.value ≢ text ".").
      new-manifest value wd h
      ∙ check-manifest wd.value (check-IsAccepted wd.value (check-value value wd h) ne) in
    (
      λ e. rw (workspace_manifest_path, is_dot.1 e, root_manifest),
      λ ne short. let f = found ne in ground arith,
      λ ne long. let f = found ne in ground arith,
    )
