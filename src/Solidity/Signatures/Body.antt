-- ===== src/Solidity/Signatures/Body.antt =====
-- `body_for` (crates/vergil-solidity/src/signatures.rs).
use vergil.Prelude.{
  ℕ, zero, suc, ◌+◌, ◌-◌, ◌&&◌, Option, none, some, [], ◌∷◌, ltb, ◌==◌, if◌then◌else◌, length,
}
use vergil.Prelude.Chars.{Text, codes, eqb, split_first}
use vergil.Solidity.Signatures.{span_ident, drop_one}
use vergil.Solidity.Signatures.Comments.{strip_comments, project_index}
use vergil.Solidity.Signatures.Comments.Laws.{drop}

-- The function whose name is `fn_name`, by its position; `i` is the position of the text.
unfoldable pub locate_from : (fuel : ℕ) → Text → (i : ℕ) → Text → Option ℕ
locate_from zero s i fn_name = none
locate_from (suc fuel) s i fn_name =
    if ltb 9 (length s)
    then elim (split_first (codes "function ") s) [
      | none ↦ none
      | some (before, after) ↦
          let start = i + length before in
          let (name, rest) = span_ident after in
          let later = locate_from fuel rest (start + 9 + length name) fn_name in
          if eqb name fn_name then some start else later
    ]
    else none

unfoldable pub locate_function : Text → Text → Option ℕ
locate_function source fn_name = locate_from (suc (length source)) source 0 fn_name

-- The text from the brace that opens the body; none when a semicolon comes first.
unfoldable pub find_body_open : (paren_depth : ℕ) → Text → Option Text
find_body_open depth [] = none
find_body_open depth (c ∷ s) =
    let next = if c == b'(' then suc depth else if c == b')' then depth - 1 else depth in
    let later = find_body_open next s in
    if (c == b'{') && (depth == 0)
    then some (c ∷ s)
    else if (c == b';') && (depth == 0)
    then none
    else later

keep : ℕ → Option Text → Option Text
keep c none = none
keep c (some s) = some (c ∷ s)

-- The text from the opening brace to the one that closes it, without the latter.
unfoldable pub match_brace : (depth : ℕ) → Text → Option Text
unfolding keep
match_brace depth [] = none
match_brace depth (c ∷ s) =
    let next = if c == b'{' then suc depth else if c == b'}' then depth - 1 else depth in
    let later = match_brace next s in if (c == b'}') && (depth == 1) then some [] else keep c later

within_braces : Option Text → Option Text
within_braces none = none
within_braces (some s) = some (drop_one s)

from_open : Option Text → Option Text
unfolding within_braces
from_open none = none
from_open (some s) = within_braces (match_brace 0 s)

from_original : Text → Option ℕ → Option Text
unfolding from_open
from_original source none = none
from_original source (some i) = from_open (find_body_open 0 (drop i source))

from_stripped : Text → Option ℕ → Option Text
unfolding from_original
from_stripped source none = none
from_stripped source (some k) = from_original source (project_index source k)

unfoldable pub body_for : Text → Text → Option Text
unfolding from_stripped
body_for fn_name source = from_stripped source (locate_function (strip_comments source) fn_name)
