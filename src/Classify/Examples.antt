-- ===== src/Classify/Examples.antt =====
-- Tests of the primitive classifier.
use vergil.Prelude.{
  ℕ, ◌+◌, ◌*◌, ◌/◌, ◌≡◌, refl, ◌↔◌, true, false, some, [], ◌∷◌, ◌++◌, ltb, leb, to_string,
}
use vergil.Prelude.Chars.{Text, codes}
use vergil.Prelude.Floats.{Floats}
use vergil.Classify.{
  Primitive, PrimitiveMatch, PrimitiveClassification, id, from_id, top, above, amm, vault,
  access_controlled_generic,
}
use vergil.Classify.Ids.{from_id-id_iff}
use vergil.Classify.Order.{Sublist, primitives}
use vergil.Classify.Cues.{has_inheritance_of, contains_pair_contract, has_reserves_storage}
use vergil.Classify.Detectors.{classify_amm}
use vergil.Classify.Generic.{classify}
use vergil.Classify.Generic.Laws.{particular, Defers, classify-Sublist}

-- Confidences in percent.
abbrev hundredths : Floats ℕ
hundredths = record {
  of_nat = λ n. n * 100;
  add = λ a b. a + b;
  mul = λ a b. a * b / 100;
  div = λ a b. a * 100 / b;
  lt = ltb;
  ge = λ a b. leb b a;
  cents = λ a. to_string a;
}

abbrev pair : Text
pair = codes "contract FooPair is ERC20 { uint256 public reserve0; function swap() external {} }"

inherits_erc20 : has_inheritance_of pair "ERC20" ≡ true
unfolding has_inheritance_of vergil.Classify.Cues.any_behind vergil.Prelude.Chars.strip_prefix
    vergil.Prelude.Chars.contains vergil.Prelude.Chars.starts_with vergil.Prelude.Chars.split_first
inherits_erc20 = refl

inherits_no_erc721 : has_inheritance_of pair "ERC721" ≡ false
unfolding has_inheritance_of vergil.Classify.Cues.any_behind vergil.Prelude.Chars.strip_prefix
    vergil.Prelude.Chars.contains vergil.Prelude.Chars.starts_with
inherits_no_erc721 = refl

is_a_pair : contains_pair_contract pair ≡ true
unfolding contains_pair_contract vergil.Classify.Cues.any_behind vergil.Prelude.Chars.strip_prefix
    vergil.Prelude.Chars.ends_with vergil.Prelude.Chars.starts_with
is_a_pair = refl

is_an_amm :
    classify_amm hundredths pair
    ≡ record {
      primitive = amm;
      confidence = 90;
      signals =
          "swap* function present" ∷ "reserves storage (reserve0/1 or reserveX/Y)"
          ∷ "AMM / Pair contract name" ∷ [];
    }
      ∷ []
unfolding classify_amm vergil.Prelude.Chars.contains vergil.Prelude.Chars.starts_with
    contains_pair_contract vergil.Classify.Cues.any_behind vergil.Prelude.Chars.strip_prefix
    vergil.Prelude.Chars.ends_with has_reserves_storage
    vergil.Classify.Cues.has_function_starting_with
is_an_amm = refl

from_id-id_iff_example : (from_id "amm" ≡ some amm) ↔ (id amm ≡ "amm")
from_id-id_iff_example = from_id-id_iff "amm" amm

classify-Sublist_example :
    Sublist
      (primitives (classify hundredths pair).matches)
      (particular ++ (access_controlled_generic ∷ []))
    × Defers hundredths (classify hundredths pair).matches
classify-Sublist_example = classify-Sublist hundredths pair
