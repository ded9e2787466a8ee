-- ===== src/Dependencies/Names.antt =====
-- crates/orphanode/src/analysis/dependencies.rs: package names in specifiers and requirements.
-- Positions count code points; the source's count bytes, and it cuts only at the ASCII characters
-- that it has found.
use orphanode.Common.{
  ℕ, zero, suc, ◌+◌, Bool, ◌||◌, Option, none, some, List, [], ◌∷◌, ◌++◌, any, take, drop, length,
  and_then, if◌then◌else◌, ◌==◌,
}
use orphanode.Common.Order.{same, text_ord}
use orphanode.Common.Text.{
  Text, text, strip_prefix, starts_with, contains_char, split, byte_len, trim, is_empty,
}
use mathlib.Core.List.{reverse}

-- `find` of a character.
abbrev pub find_char : ℕ → Text → Option ℕ
find_char c [] = none
find_char c (x ∷ s) = if x == c then some 0 else and_then (find_char c s) (λ i. some (suc i))

-- `contains` of a text.
abbrev pub contains_text : Text → Text → Bool
contains_text p [] = starts_with p []
contains_text p (c ∷ s) = starts_with p (c ∷ s) || contains_text p s

-- `strip_suffix`
abbrev pub strip_suffix : Text → Text → Option Text
strip_suffix p s = and_then (strip_prefix (reverse p) (reverse s)) (λ r. some (reverse r))

-- The characters `@`, `:`, `?` and `#`.
abbrev pub is_reserved : ℕ → Bool
is_reserved c = (c == 64) || (c == 58) || (c == 63) || (c == 35)

abbrev pub node_builtins : List Text
node_builtins =
    text "assert"
    ∷ text "assert/strict"
    ∷ text "async_hooks"
    ∷ text "buffer"
    ∷ text "child_process"
    ∷ text "cluster"
    ∷ text "console"
    ∷ text "constants"
    ∷ text "crypto"
    ∷ text "dgram"
    ∷ text "diagnostics_channel"
    ∷ text "dns"
    ∷ text "dns/promises"
    ∷ text "domain"
    ∷ text "events"
    ∷ text "fs"
    ∷ text "fs/promises"
    ∷ text "http"
    ∷ text "http2"
    ∷ text "https"
    ∷ text "module"
    ∷ text "net"
    ∷ text "os"
    ∷ text "path"
    ∷ text "path/posix"
    ∷ text "path/win32"
    ∷ text "perf_hooks"
    ∷ text "process"
    ∷ text "punycode"
    ∷ text "querystring"
    ∷ text "readline"
    ∷ text "readline/promises"
    ∷ text "repl"
    ∷ text "sea"
    ∷ text "sqlite"
    ∷ text "stream"
    ∷ text "stream/consumers"
    ∷ text "stream/promises"
    ∷ text "stream/web"
    ∷ text "string_decoder"
    ∷ text "sys"
    ∷ text "timers"
    ∷ text "timers/promises"
    ∷ text "tls"
    ∷ text "trace_events"
    ∷ text "tty"
    ∷ text "url"
    ∷ text "util"
    ∷ text "util/types"
    ∷ text "v8"
    ∷ text "vm"
    ∷ text "wasi"
    ∷ text "worker_threads"
    ∷ text "zlib"
    ∷ []

unfoldable pub is_node_builtin : Text → Bool
is_node_builtin pkg = any (λ b. same b pkg) node_builtins

-- The first two parts of a scoped specifier.
unfoldable pub scoped_name : List Text → Option Text
scoped_name [] = none
scoped_name (scope ∷ []) = none
scoped_name (scope ∷ name ∷ more) =
    if (byte_len scope == 1)
      || is_empty name
      || any is_reserved (drop 1 scope)
      || any is_reserved name
    then none
    else some (scope ++ text "/" ++ name)

unfoldable pub plain_name : List Text → Option Text
plain_name [] = none
plain_name (name ∷ more) = if is_empty name || any is_reserved name then none else some name

-- What is no npm package: an empty specifier, a path, a package import, a built-in, a URL.
unfoldable pub is_foreign : Text → Bool
is_foreign specifier =
    is_empty specifier
    || starts_with (text ".") specifier
    || starts_with (text "/") specifier
    || starts_with (text "#") specifier
    || starts_with (text "node:") specifier
    || contains_char 92 specifier
    || contains_text (text "://") specifier

-- `package_name` of a trimmed specifier without the prefix `npm:`.
unfoldable pub bare_package : Text → Option Text
bare_package specifier =
    if is_foreign specifier
    then none
    else and_then
        (if starts_with (text "@") specifier
          then scoped_name (split 47 specifier)
          else plain_name (split 47 specifier))
        (λ pkg. if is_node_builtin pkg then none else some pkg)

-- Where the version of a requirement begins.
unfoldable pub package_end : Text → Option ℕ
package_end requirement =
    if starts_with (text "@") requirement
    then and_then (find_char 47 requirement) (λ slash.
      elim (find_char 64 (drop (suc slash) requirement)) [
        | none ↦ some (length requirement)
        | some offset ↦ some (suc slash + offset)
      ])
    else elim (find_char 64 requirement) [ none ↦ some (length requirement) | some at ↦ some at ]

-- `npm_requirement_package` up to its call of `package_name`: the text that it passes on.
unfoldable pub requirement_name : Text → Option Text
requirement_name requirement =
    let trimmed = trim requirement in
    if is_empty trimmed then none else and_then (package_end trimmed) (λ n. some (take n trimmed))

-- The two functions call each other; each round takes the four characters `npm:` off.
unfoldable pub package_name_on : ℕ → Text → Option Text
package_name_on zero specifier = none
package_name_on (suc fuel) specifier = elim (strip_prefix (text "npm:") (trim specifier)) [
  | none ↦ bare_package (trim specifier)
  | some requirement ↦ and_then (requirement_name requirement) (package_name_on fuel)
]

unfoldable pub package_name : Text → Option Text
package_name specifier = package_name_on (suc (length specifier)) specifier

unfoldable pub npm_requirement_package : Text → Option Text
npm_requirement_package requirement = and_then (requirement_name requirement) package_name

unfoldable pub npm_alias_target : Text → Option Text
npm_alias_target requirement =
    and_then (strip_prefix (text "npm:") requirement) npm_requirement_package

-- `/` and `\`.
abbrev pub is_separator : ℕ → Bool
is_separator c = (c == 47) || (c == 92)

-- `rsplit(['/', '\\']).next()`: what follows the last separator.
abbrev pub last_segment : Text → Text
last_segment [] = []
last_segment (c ∷ s) =
    let rest = last_segment s in
    if any is_separator s then rest else if is_separator c then s else c ∷ s

unfoldable pub normalize_binary_name : Text → Text
normalize_binary_name binary =
    let name = last_segment binary in
    elim (strip_suffix (text ".cmd") name) [
      | some stem ↦ stem
      | none ↦ elim (strip_suffix (text ".exe") name) [ some stem ↦ stem | none ↦ name ]
    ]
