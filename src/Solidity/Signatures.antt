-- ===== src/Solidity/Signatures.antt =====
-- The signature extractor (crates/vergil-solidity/src/signatures.rs). A source is the list of its
-- UTF-8 bytes; a slice inside a character, at which the code would stop, is not modelled. Positions
-- are the texts that follow them.
use vergil.Prelude.{
  ℕ, suc, ◌-◌, Bool, ◌&&◌, ◌||◌, Option, none, some, [], ◌∷◌, leb, ◌==◌, if◌then◌else◌,
}
use vergil.Prelude.Chars.{Text, codes}
use vergil.Solidity.Signatures.Comments.{peek}
pub mod Comments
pub mod Extract
pub mod Body
pub mod Constructor
pub mod Interfaces
pub mod Examples

-- `is_ident`: an ASCII letter, a digit or an underscore.
unfoldable pub is_ident : ℕ → Bool
is_ident c =
    leb b'0' c && leb c b'9' || leb b'A' c && leb c b'Z' || leb b'a' c && leb c b'z' || (c == b'_')

prepend : ℕ → Text × Text → Text × Text
prepend c (s, t) = (c ∷ s, t)

-- The identifier at the start, and what follows it.
unfoldable pub span_ident : Text → Text × Text
unfolding prepend
span_ident [] = ([], [])
span_ident (c ∷ s) = let found = span_ident s in if is_ident c then prepend c found else ([], c ∷ s)

prepend_some : ℕ → Option (Text × Text) → Option (Text × Text)
prepend_some c none = none
prepend_some c (some (s, t)) = some (c ∷ s, t)

deeper : ℕ → ℕ → ℕ
deeper c depth = if c == b'(' then suc depth else if c == b')' then depth - 1 else depth

-- The text up to the parenthesis that brings the depth back to 0, and what follows it.
unfoldable pub match_paren : (depth : ℕ) → Text → Option (Text × Text)
unfolding prepend_some deeper
match_paren depth [] = none
match_paren depth (c ∷ s) =
    let later = match_paren (deeper c depth) s in
    if (c == b')') && (depth == 1) then some ([], s) else prepend_some c later

unfoldable pub drop_one : Text → Text
drop_one [] = []
drop_one (c ∷ s) = s
