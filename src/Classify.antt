-- ===== src/Classify.antt =====
-- The primitive classifier (crates/vergil-properties/src/classify.rs): its types. A source is the
-- list of its bytes, and `F` is the type of the confidences.
use vergil.Prelude.{
  ℕ, String, Option, none, some, List, [], ◌∷◌, if◌then◌else◌, select, find, str_eq,
}
use vergil.Prelude.Floats.{Floats}
pub mod Cues
pub mod Tokens
pub mod Detectors
pub mod Generic
pub mod Ids
pub mod Order
pub mod Examples

pub data Primitive : Type 0 where
  token_erc20 : Primitive
  token_erc721 : Primitive
  token_erc1155 : Primitive
  vault : Primitive
  lending_market : Primitive
  amm : Primitive
  vesting : Primitive
  airdrop : Primitive
  governance : Primitive
  staking : Primitive
  bridge : Primitive
  oracle : Primitive
  access_controlled_generic : Primitive

unfoldable pub id : Primitive → String
id token_erc20 = "token-erc20"
id token_erc721 = "token-erc721"
id token_erc1155 = "token-erc1155"
id vault = "vault"
id lending_market = "lending-market"
id amm = "amm"
id vesting = "vesting"
id airdrop = "airdrop"
id governance = "governance"
id staking = "staking"
id bridge = "bridge"
id oracle = "oracle"
id access_controlled_generic = "access-controlled-generic"

abbrev pub all_primitives : List Primitive
all_primitives =
    token_erc20 ∷ token_erc721 ∷ token_erc1155 ∷ vault ∷ lending_market ∷ amm ∷ vesting ∷ airdrop
    ∷ governance ∷ staking ∷ bridge ∷ oracle ∷ access_controlled_generic ∷ []

unfoldable pub from_id : String → Option Primitive
from_id s = find (λ p. str_eq (id p) s) all_primitives

pub record PrimitiveMatch (F : Type 0) : Type 0 where
  pub primitive : Primitive
  pub confidence : F
  pub signals : List String

pub record PrimitiveClassification (F : Type 0) : Type 0 where
  pub matches : List (PrimitiveMatch F)

module _ {F : Type 0} (floats : Floats F) where
  -- `max_by`: the last of the greatest, where confidences that do not compare are equal.
  top_from : PrimitiveMatch F → List (PrimitiveMatch F) → PrimitiveMatch F
  top_from best [] = best
  top_from best (m ∷ ms) = top_from (if floats.lt m.confidence best.confidence then best else m) ms

  unfoldable pub top : PrimitiveClassification F → Option (PrimitiveMatch F)
  unfolding top_from
  top c = elim c.matches [ [] ↦ none | m ∷ ms ↦ some (top_from m ms) ]

  unfoldable pub above : F → PrimitiveClassification F → List (PrimitiveMatch F)
  above threshold c = select (λ m. floats.ge m.confidence threshold) c.matches

-- A decimal literal of two places.
abbrev pub percent : {F : Type 0} → Floats F → ℕ → F
percent floats n = floats.div (floats.of_nat n) (floats.of_nat 100)
