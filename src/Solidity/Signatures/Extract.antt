-- ===== src/Solidity/Signatures/Extract.antt =====
-- `extract` and the rendering of signatures (crates/vergil-solidity/src/signatures.rs).
use vergil.Prelude.{
  ℕ, zero, suc, ◌-◌, Bool, ◌&&◌, ◌||◌, Option, none, some, List, [], ◌∷◌, ◌++◌, ◌==◌, if◌then◌else◌,
  length,
}
use vergil.Prelude.Chars.{
  Text, codes, eqb, contains, starts_with, ends_with, trim_start, is_whitespace, split_first,
}
use vergil.Solidity.Signatures.{is_ident, span_ident, match_paren, drop_one}
use vergil.Solidity.Signatures.Comments.{peek, strip_comments}
pub mod Fuel
pub mod Declared
pub mod Laws

pub record FunctionSignature : Type 0 where
  pub name : Text
  pub args : Text
  pub visibility : Text
  pub returns : Text
  pub is_view_pure : Bool

unfoldable pub render : FunctionSignature → Text
render f =
    let head = codes "function " ++ (f.name ++ (f.args ++ (codes " " ++ f.visibility))) in
    let s = if f.is_view_pure then head ++ codes " view" else head in
    if eqb f.returns [] then s else s ++ (codes " " ++ f.returns)

joined_lines : List FunctionSignature → Text
joined_lines [] = []
joined_lines (f ∷ []) = codes "- " ++ render f
joined_lines (f ∷ g ∷ fs) = codes "- " ++ (render f ++ (codes "\n" ++ joined_lines (g ∷ fs)))

unfoldable pub render_available_methods : List FunctionSignature → Text
unfolding joined_lines
render_available_methods [] =
    codes "(no external functions detected "
    ++ (0xe2 ∷ 0x80 ∷ 0x94 ∷ codes " read the contract source above)")
render_available_methods (f ∷ fs) = joined_lines (f ∷ fs)

returned : Option (Text × Text) → Text
returned none = []
returned (some (upto, _)) = codes "returns " ++ (upto ++ codes ")")

unfoldable pub extract_returns : Text → Text
unfolding returned
extract_returns mods = elim (split_first (codes "returns") mods) [
  | none ↦ []
  | some (_, after) ↦
      let trimmed = trim_start after in
      if starts_with (codes "(") trimmed then returned (match_paren 0 trimmed) else []
]

-- Constructors and the two special functions are skipped.
unfoldable pub is_skipped : Text → Bool
is_skipped name =
    eqb name []
    || eqb name (codes "constructor")
    || eqb name (codes "receive")
    || eqb name (codes "fallback")

unfoldable pub skip_whitespace : Text → Text
skip_whitespace [] = []
skip_whitespace (c ∷ s) = let rest = skip_whitespace s in if is_whitespace c then rest else c ∷ s

push_front : ℕ → Option (Text × Text) → Option (Text × Text)
push_front c none = none
push_front c (some (s, t)) = some (c ∷ s, t)

paren_depth : ℕ → ℕ → ℕ
paren_depth c depth = if c == b'(' then suc depth else if c == b')' then depth - 1 else depth

-- The modifiers: the text up to the brace or semicolon outside parentheses.
unfoldable pub find_mods : (depth : ℕ) → Text → Option (Text × Text)
unfolding push_front paren_depth
find_mods depth [] = none
find_mods depth (c ∷ s) =
    let later = find_mods (paren_depth c depth) s in
    if ((c == b'{') || (c == b';')) && (depth == 0) then some ([], c ∷ s) else push_front c later

is_view : Text → Bool
is_view mods =
    contains (codes " view ") mods
    || contains (codes " view\n") mods
    || ends_with (codes "view") mods
    || contains (codes " pure ") mods
    || contains (codes " pure\n") mods
    || ends_with (codes "pure") mods

signature : (name args mods visibility : Text) → FunctionSignature
unfolding is_view
signature name args mods visibility = record {
  name = name;
  args = args;
  visibility = visibility;
  returns = extract_returns mods;
  is_view_pure = is_view mods;
}

-- The signature of an external or public function, and none for any other.
with_visibility : (name args mods : Text) → Option FunctionSignature
unfolding signature
with_visibility name args mods =
    if contains (codes "external") mods
    then some (signature name args mods (codes "external"))
    else if contains (codes "public") mods
    then some (signature name args mods (codes "public"))
    else none

-- What follows the arguments; without a brace or semicolon the modifiers are empty.
scan_mods : (name args rest : Text) → Option (Text × Text) → Option FunctionSignature × Text
unfolding with_visibility
scan_mods name args rest none = (with_visibility name args [], drop_one rest)
scan_mods name args rest (some (mods, block)) = (with_visibility name args mods, drop_one block)

scan_args : (name s : Text) → Option (Text × Text) → Option FunctionSignature × Text
unfolding scan_mods
scan_args name s none = (none, drop_one s)
scan_args name s (some (upto, rest)) = scan_mods name (upto ++ codes ")") rest (find_mods 0 rest)

scan_name : (name rest : Text) → Option FunctionSignature × Text
unfolding scan_args
scan_name name rest =
    if is_skipped name
    then (none, rest)
    else let s = skip_whitespace rest in
      if peek b'(' s then scan_args name s (match_paren 0 s) else (none, s)

-- One pass of the loop, from behind the keyword: the signature that it records, if any, and where
-- the search goes on.
unfoldable pub scan_function : Text → Option FunctionSignature × Text
unfolding scan_name
scan_function after = let (name, rest) = span_ident after in scan_name name rest

record_signature : Option FunctionSignature → List FunctionSignature → List FunctionSignature
record_signature none out = out
record_signature (some f) out = f ∷ out

unfoldable pub extract_loop : (fuel : ℕ) → Text → List FunctionSignature
unfolding record_signature
extract_loop zero s = []
extract_loop (suc fuel) s = elim (split_first (codes "function ") s) [
  | none ↦ []
  | some (_, after) ↦
      let (found, rest) = scan_function after in record_signature found (extract_loop fuel rest)
]

unfoldable pub extract : Text → List FunctionSignature
extract source = let stripped = strip_comments source in extract_loop (length stripped) stripped
