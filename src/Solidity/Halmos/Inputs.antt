-- ===== src/Solidity/Halmos/Inputs.antt =====
-- The inputs of a counterexample in Halmos output (crates/vergil-solidity/src/halmos.rs).
use vergil.Prelude.{
  ℕ, Bool, false, not, ◌||◌, Option, none, some, List, [], ◌∷◌, ◌++◌, leb, ◌==◌, if◌then◌else◌,
  length, any,
}
use vergil.Prelude.Chars.{Text, codes, eqb, starts_with, strip_prefix, split_first, lines, trim}
use vergil.Prelude.Decimal.{of_codes}
use vergil.Solidity.Halmos.{NamedValue}

attach : ℕ → List Text → List Text
attach c [] = (c ∷ []) ∷ []
attach c (p ∷ ps) = (c ∷ p) ∷ ps

-- `split('_')`
split_underscores : Text → List Text
unfolding attach
split_underscores [] = [] ∷ []
split_underscores (c ∷ s) =
    let rest = split_underscores s in if c == b'_' then [] ∷ rest else attach c rest

type_keywords : List Text
type_keywords =
    codes "uint256"
    ∷ codes "uint128"
    ∷ codes "uint64"
    ∷ codes "uint32"
    ∷ codes "uint16"
    ∷ codes "uint8"
    ∷ codes "int256"
    ∷ codes "int128"
    ∷ codes "int64"
    ∷ codes "int32"
    ∷ codes "int16"
    ∷ codes "int8"
    ∷ codes "address"
    ∷ codes "bool"
    ∷ codes "bytes32"
    ∷ codes "bytes"
    ∷ []

-- The parts before the first type.
before_type : List Text → List Text
unfolding type_keywords
before_type [] = []
before_type (p ∷ ps) =
    let rest = before_type ps in if any (eqb p) type_keywords then [] else p ∷ rest

join_underscores : List Text → Text
join_underscores [] = []
join_underscores (p ∷ []) = p
join_underscores (p ∷ q ∷ ps) = p ++ (b'_' ∷ join_underscores (q ∷ ps))

first_part : List Text → Text
first_part [] = []
first_part (p ∷ ps) = p

name_of : List Text → List Text → Text
unfolding first_part join_underscores
name_of parts [] = first_part parts
name_of parts (p ∷ ps) = join_underscores (p ∷ ps)

without : Text → Option Text → Text
without s none = s
without s (some rest) = rest

unfoldable pub recover_logical_name : Text → Text
unfolding name_of without split_underscores before_type first_part
recover_logical_name raw =
    let parts = split_underscores (without raw (strip_prefix (codes "p_") raw)) in
    if leb (length parts) 2 then first_part parts else name_of parts (before_type parts)

unfoldable pub parse_cex_line : Text → Option NamedValue
parse_cex_line line = elim (split_first (codes "=") line) [
  | none ↦ none
  | some (lhs, rhs) ↦
      if starts_with (codes "0x") (trim rhs)
      then some record {
        name = of_codes (recover_logical_name (trim lhs));
        hex_value = of_codes (trim rhs);
      }
      else none
]

add_input : Option NamedValue → List NamedValue → List NamedValue
add_input none inputs = inputs
add_input (some v) inputs = v ∷ inputs

ends_section : Text → Bool
ends_section trimmed =
    (length trimmed == 0)
    || starts_with (codes "[") trimmed
    || starts_with (codes "Symbolic") trimmed

-- `in_cex` holds from the first line that begins with `Counterexample`.
inputs_in : (in_cex : Bool) → List Text → List NamedValue
unfolding add_input ends_section
inputs_in in_cex [] = []
inputs_in in_cex (l ∷ ls) =
    let trimmed = trim l in
    let header = starts_with (codes "Counterexample") trimmed in
    let later = inputs_in (in_cex || header) ls in
    if header
    then later
    else if not in_cex
    then later
    else if ends_section trimmed
    then []
    else add_input (parse_cex_line trimmed) later

unfoldable pub extract_counterexample_inputs : Text → List NamedValue
unfolding inputs_in
extract_counterexample_inputs text = inputs_in false (lines text)
