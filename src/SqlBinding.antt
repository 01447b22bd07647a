-- ===== src/SqlBinding.antt =====
-- packages/core/persistence/sqlutil/bind.go: the numbering of the parameters in a statement. The text is a list
-- of code points: the bytes of longer characters are neither quotes nor question marks.
pub mod Numbered
mod Examples
use tokeninsights.Prelude.{
  ℕ, suc, codes, Bool, true, false, ◌||◌, List, [], ◌∷◌, ◌++◌, Option, none, some, ◌==◌, nat_eq,
  if◌then◌else◌,
}
use tokeninsights.Prelude.Int.{pos}
use tokeninsights.Processor.Snapshot.{decimal}

abbrev pub is_quote : ℕ → Bool
is_quote c = c == b'\'' || c == b'"'

-- strconv.Itoa after a dollar sign
abbrev pub placeholder : ℕ → List ℕ
placeholder index = b'$' ∷ codes (decimal (pos index))

-- The loop of `Bind`: `quote` is the quote in which it is, `index` how many parameters there were.
unfoldable pub bind_from : Option ℕ → ℕ → List ℕ → List ℕ
bind_from quote index [] = []
bind_from (some q) index (c ∷ []) = c ∷ []
bind_from (some q) index (c ∷ d ∷ rest) =
    let doubled = bind_from (some q) index rest in
    let closed = bind_from none index (d ∷ rest) in
    let inside = bind_from (some q) index (d ∷ rest) in
    if c == q then (if d == q then c ∷ q ∷ doubled else c ∷ closed) else c ∷ inside
bind_from none index (c ∷ rest) =
    let opened = bind_from (some c) index rest in
    let next = bind_from none (suc index) rest in
    let outside = bind_from none index rest in
    if is_quote c
    then c ∷ opened
    else if c == b'?'
    then placeholder (suc index) ++ next
    else c ∷ outside

-- `Bind`
unfoldable pub bind : List ℕ → List ℕ
bind query = bind_from none 0 query
