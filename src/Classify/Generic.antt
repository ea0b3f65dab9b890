-- ===== src/Classify/Generic.antt =====
-- The catch-all classifier and `classify` (crates/vergil-properties/src/classify.rs).
pub mod Laws
use vergil.Prelude.{
  String, Bool, true, false, not, ◌&&◌, ◌||◌, List, [], ◌∷◌, ◌++◌, map, ◌==◌, if◌then◌else◌, length,
  any, select, ◌<>◌,
}
use vergil.Prelude.Chars.{Text, codes, contains}
use vergil.Prelude.Floats.{Floats}
use vergil.Classify.{
  Primitive, PrimitiveMatch, PrimitiveClassification, access_controlled_generic, percent,
}
use vergil.Classify.Cues.{mentions, has_inheritance_of, push_if, one_match}
use vergil.Classify.Tokens.{classify_tokens}
use vergil.Classify.Detectors.{
  classify_vault, classify_amm, classify_lending, classify_vesting, classify_airdrop,
  classify_governance, classify_staking, classify_bridge, classify_oracle,
}

strong_parents : List String
strong_parents =
    "Ownable" ∷ "Ownable2Step" ∷ "AccessControl" ∷ "AccessControlEnumerable"
    ∷ "AccessControlDefaultAdminRules" ∷ "AccessManager" ∷ "AccessManaged" ∷ "Pausable"
    ∷ "TimelockController" ∷ []

parent_signals : Text → List String
unfolding strong_parents
parent_signals source =
    map (λ parent. "inherits " <> parent) (select (has_inheritance_of source) strong_parents)

generic_signals : Text → List String → List String
generic_signals source s0 =
    let s1 =
      push_if
        ((mentions source "confirm(uint256" && mentions source "confirmed[")
          && (mentions source "executed[" || mentions source "confirmationCount"))
        "multisig confirm/confirmed/executed pattern" s0 in
    let s2 =
      push_if (mentions source "onlyOwner" || mentions source "modifier onlyOwner")
        "onlyOwner modifier" s1 in
    let s3 = push_if (mentions source "onlyRole(") "onlyRole(...) modifier" s2 in
    let s4 = push_if (mentions source "hasRole(") "hasRole(...) check" s3 in
    push_if
      (mentions source "AccessControl" && not (any (λ s. contains (codes "inherits") (codes s)) s4))
      "AccessControl reference" s4

module _ {F : Type 0} (floats : Floats F) where
  -- Another classifier is confident at 0.6 or above.
  unfoldable pub is_owned : List (PrimitiveMatch F) → Bool
  is_owned existing = any (λ m. floats.ge m.confidence (percent floats 60)) existing

  generic_matches : (owned : Bool) → (parents signals : List String) → List (PrimitiveMatch F)
  generic_matches true parents signals = []
  generic_matches false parents [] = []
  generic_matches false parents (s ∷ signals) =
      one_match access_controlled_generic (percent floats (if length parents == 0 then 65 else 85))
        (s ∷ signals)

  unfoldable pub classify_access_controlled_generic :
      Text → List (PrimitiveMatch F) → List (PrimitiveMatch F)
  unfolding parent_signals generic_signals generic_matches
  classify_access_controlled_generic source existing =
      let parents = parent_signals source in
      generic_matches (is_owned existing) parents (generic_signals source parents)

  -- The matches of the classifiers of particular primitives, in their order.
  unfoldable pub known_matches : Text → List (PrimitiveMatch F)
  known_matches source =
      classify_tokens floats source
      ++ (classify_vault floats source
          ++ (classify_amm floats source
              ++ (classify_lending floats source
                  ++ (classify_vesting floats source
                      ++ (classify_airdrop floats source
                          ++ (classify_governance floats source
                              ++ (classify_staking floats source
                                  ++ (classify_bridge floats source
                                      ++ classify_oracle floats source))))))))

  unfoldable pub classify : Text → PrimitiveClassification F
  classify source =
      let known = known_matches source in
      record { matches = known ++ classify_access_controlled_generic source known }
