-- ===== src/Classify/Cues.antt =====
-- What the classifiers look for in a source (crates/vergil-properties/src/classify.rs). The loops
-- over the matches of a keyword are walks over the places where it stands.
use vergil.Prelude.{
  String, Bool, false, ◌&&◌, ◌||◌, none, some, List, [], ◌∷◌, ◌++◌, ltb, ◌==◌, if◌then◌else◌,
  length, any, take, ◌<>◌,
}
use vergil.Prelude.Chars.{Text, codes, contains, ends_with, split_first, strip_prefix}
use vergil.Classify.{Primitive, PrimitiveMatch}

abbrev pub mentions : Text → String → Bool
mentions source pat = contains (codes pat) source

unfoldable pub has_function_starting_with : Text → String → Bool
has_function_starting_with source prefix = mentions source ("function " <> prefix)

-- Some place right behind `keyword` passes the test.
unfoldable pub any_behind : Text → (Text → Bool) → Text → Bool
any_behind keyword test [] = false
any_behind keyword test (c ∷ s) =
    let later = any_behind keyword test s in
    elim (strip_prefix keyword (c ∷ s)) [ none ↦ later | some rest ↦ test rest || later ]

before_brace : Text → Text
before_brace [] = []
before_brace (c ∷ s) = let rest = before_brace s in if c == b'{' then [] else c ∷ rest

-- The parent stands between ` is ` and the next brace.
inherits_in : Text → Text → Bool
unfolding before_brace
inherits_in parent window = contains parent window && elim (split_first (codes " is ") window) [
  | none ↦ false
  | some (_, tail) ↦ contains parent (before_brace tail)
]

unfoldable pub has_inheritance_of : Text → String → Bool
unfolding inherits_in
has_inheritance_of source parent =
    any_behind (codes "contract ") (λ rest. inherits_in (codes parent) (take 300 rest)) source

near_uint : Text → String → Bool
near_uint source name =
    mentions source name
    && (mentions source ("uint256 public " <> name)
        || mentions source ("uint256 " <> name)
        || mentions source ("uint128 public " <> name)
        || mentions source ("uint128 " <> name)
        || mentions source ("public " <> name))

unfoldable pub has_reserves_storage : Text → Bool
unfolding near_uint
has_reserves_storage source =
    any (near_uint source)
      ("reserve0" ∷ "reserve1" ∷ "reserveX" ∷ "reserveY" ∷ "reserves0" ∷ "reserves1" ∷ [])

contract_name : Text → Text
contract_name [] = []
contract_name (c ∷ s) =
    let rest = contract_name s in if (c == b' ') || (c == b'{') then [] else c ∷ rest

is_pair_name : Text → Bool
is_pair_name name = ends_with (codes "Pair") name && ltb 4 (length name)

unfoldable pub contains_pair_contract : Text → Bool
unfolding contract_name is_pair_name
contains_pair_contract source =
    any_behind (codes "contract ") (λ rest. is_pair_name (contract_name rest)) source

-- `if b { signals.push(…) }`
abbrev pub push_if : Bool → String → List String → List String
push_if b s signals = if b then signals ++ (s ∷ []) else signals

abbrev pub one_match : {F : Type 0} → Primitive → F → List String → List (PrimitiveMatch F)
one_match p confidence signals =
    record { primitive = p; confidence = confidence; signals = signals } ∷ []
