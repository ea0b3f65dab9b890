-- ===== src/Solidity/Signatures/Constructor.antt =====
-- Constructor parameters and default arguments (crates/vergil-solidity/src/signatures.rs).
use vergil.Prelude.{
  ℕ, Bool, true, false, Option, none, some, List, [], ◌∷◌, ◌++◌, ltb, leb, ◌==◌, if◌then◌else◌,
  select,
}
use vergil.Prelude.Decimal.{parse_u32}
use vergil.Prelude.Chars.{
  Text, codes, eqb, starts_with, ends_with, strip_prefix, is_whitespace, split_first,
}
use vergil.Solidity.Signatures.{match_paren, drop_one}
use vergil.Solidity.Signatures.Comments.{strip_comments}

pub record CtorParam : Type 0 where
  pub ty : Text
  pub name : Text

attach : ℕ → List Text → List Text
attach c [] = (c ∷ []) ∷ []
attach c (p ∷ ps) = (c ∷ p) ∷ ps

-- `split(',')`
unfoldable pub split_commas : Text → List Text
unfolding attach
split_commas [] = [] ∷ []
split_commas (c ∷ s) = let rest = split_commas s in if c == b',' then [] ∷ rest else attach c rest

not_empty : Text → Bool
not_empty [] = false
not_empty (c ∷ s) = true

split_spaces : Text → List Text
unfolding attach
split_spaces [] = [] ∷ []
split_spaces (c ∷ s) =
    let rest = split_spaces s in if is_whitespace c then [] ∷ rest else attach c rest

-- `split_whitespace()`
unfoldable pub split_whitespace : Text → List Text
unfolding split_spaces not_empty
split_whitespace s = select not_empty (split_spaces s)

last_of : Text → List Text → Text
last_of t [] = t
last_of t (u ∷ us) = last_of u us

param : List Text → Option CtorParam
unfolding last_of
param [] = none
param (t ∷ []) = none
param (t ∷ u ∷ us) = some record { ty = t; name = last_of u us }

keep_some : Option CtorParam → List CtorParam → List CtorParam
keep_some none ps = ps
keep_some (some p) ps = p ∷ ps

params : List Text → List CtorParam
unfolding param keep_some
params [] = []
params (p ∷ ps) = keep_some (param (split_whitespace p)) (params ps)

in_parens : Option (Text × Text) → List CtorParam
unfolding params
in_parens none = []
in_parens (some (upto, _)) = params (split_commas (drop_one upto))

from_keyword : Option (Text × Text) → List CtorParam
unfolding in_parens
from_keyword none = []
from_keyword (some (_, after)) = elim (split_first (codes "(") after) [
  | none ↦ []
  | some (_, rest) ↦ in_parens (match_paren 0 (b'(' ∷ rest))
]

unfoldable pub extract_constructor : Text → List CtorParam
unfolding from_keyword
extract_constructor source =
    from_keyword (split_first (codes "constructor") (strip_comments source))

-- The width of an unsigned type, 256 when none can be read.
unfoldable pub bits : Text → ℕ
bits ty = elim (strip_prefix (codes "uint") ty) [
  | none ↦ 256
  | some b ↦ elim (parse_u32 b) [ none ↦ 256 | some n ↦ n ]
]

unfoldable pub synthesize_ctor_arg : Text → Option Text
synthesize_ctor_arg ty =
    if ends_with (codes "[]") ty
    then none
    else if eqb ty (codes "address")
    then some (codes "address(this)")
    else if eqb ty (codes "bool")
    then some (codes "false")
    else if eqb ty (codes "string")
    then some (codes "\"X\"")
    else if eqb ty (codes "bytes")
    then some (codes "\"\"")
    else if eqb ty (codes "bytes32")
    then some (codes "bytes32(0)")
    else if starts_with (codes "uint") ty
    then some (
        if leb (bits ty) 8
        then codes "1"
        else if leb (bits ty) 16
        then codes "100"
        else if ltb (bits ty) 96
        then codes "1000"
        else codes "1000000 ether")
    else if starts_with (codes "int") ty
    then some (codes "1")
    else none

join_args : Text → Option Text → Option Text
join_args a none = none
join_args a (some rest) = some (a ++ (codes ", " ++ rest))

unfoldable pub synthesize_ctor_args : List CtorParam → Option Text
unfolding join_args
synthesize_ctor_args [] = some []
synthesize_ctor_args (p ∷ []) = synthesize_ctor_arg p.ty
synthesize_ctor_args (p ∷ q ∷ ps) =
    let rest = synthesize_ctor_args (q ∷ ps) in
    elim (synthesize_ctor_arg p.ty) [ none ↦ none | some a ↦ join_args a rest ]
