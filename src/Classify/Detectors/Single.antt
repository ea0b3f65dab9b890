-- ===== src/Classify/Detectors/Single.antt =====
-- Each classifier returns at most one match, of its own primitive
-- (crates/vergil-properties/src/classify.rs).
use vergil.Prelude.{
  ℕ, String, refl, inl, inr, Option, none, some, List, [], ◌∷◌, ltb, Bool-cases, length,
}
use vergil.Prelude.Chars.{Text}
use vergil.Prelude.Floats.{Floats}
use vergil.Classify.{
  Primitive, PrimitiveMatch, vault, lending_market, amm, vesting, airdrop, governance, staking,
  bridge, oracle,
}
use vergil.Classify.Order.{Sublist, primitives}
use vergil.Classify.Detectors.{
  match_from, inherited, first_parent, vesting_parents, governor_parents, vesting_signals,
  governance_signals, classify_vault, classify_amm, classify_lending, classify_vesting,
  classify_airdrop, classify_governance, classify_staking, classify_bridge, classify_oracle,
}

module _ {F : Type 0} (floats : Floats F) where
  match_from-IsSingle :
      (needed : ℕ) (p : Primitive) (percentage : ℕ) (signals : List String)
      → Sublist (primitives (match_from floats needed p percentage signals)) (p ∷ [])
  unfolding match_from
  match_from-IsSingle needed p percentage signals =
      elim (Bool-cases (ltb (length signals) needed)) [
        | inl y ↦ rw (Sublist, y) tt
        | inr n ↦ rw (Sublist, n) (inl (refl, tt))
      ]

  inherited-IsSingle :
      (p : Primitive) (percentage : ℕ) (parent : Option String) (ms : List (PrimitiveMatch F))
      → Sublist (primitives ms) (p ∷ [])
      → Sublist (primitives (inherited floats p percentage parent ms)) (p ∷ [])
  unfolding inherited
  inherited-IsSingle p percentage none ms h = h
  inherited-IsSingle p percentage (some parent) ms h = inl (refl, tt)

  pub classify_vault-IsSingle :
      (source : Text) → Sublist (primitives (classify_vault floats source)) (vault ∷ [])
  unfolding classify_vault
  classify_vault-IsSingle source = match_from-IsSingle _ vault _ _

  pub classify_amm-IsSingle :
      (source : Text) → Sublist (primitives (classify_amm floats source)) (amm ∷ [])
  unfolding classify_amm
  classify_amm-IsSingle source = match_from-IsSingle _ amm _ _

  pub classify_lending-IsSingle :
      (source : Text) → Sublist (primitives (classify_lending floats source)) (lending_market ∷ [])
  unfolding classify_lending
  classify_lending-IsSingle source = match_from-IsSingle _ lending_market _ _

  pub classify_vesting-IsSingle :
      (source : Text) → Sublist (primitives (classify_vesting floats source)) (vesting ∷ [])
  unfolding classify_vesting
  classify_vesting-IsSingle source =
      inherited-IsSingle vesting 95 (first_parent source vesting_parents)
        (match_from floats 2 vesting 75 (vesting_signals source))
        (match_from-IsSingle 2 vesting 75 (vesting_signals source))

  pub classify_airdrop-IsSingle :
      (source : Text) → Sublist (primitives (classify_airdrop floats source)) (airdrop ∷ [])
  unfolding classify_airdrop
  classify_airdrop-IsSingle source = match_from-IsSingle _ airdrop _ _

  pub classify_governance-IsSingle :
      (source : Text) → Sublist (primitives (classify_governance floats source)) (governance ∷ [])
  unfolding classify_governance
  classify_governance-IsSingle source =
      inherited-IsSingle governance 90 (first_parent source governor_parents)
        (match_from floats 2 governance 75 (governance_signals source))
        (match_from-IsSingle 2 governance 75 (governance_signals source))

  pub classify_staking-IsSingle :
      (source : Text) → Sublist (primitives (classify_staking floats source)) (staking ∷ [])
  unfolding classify_staking
  classify_staking-IsSingle source = match_from-IsSingle _ staking _ _

  pub classify_bridge-IsSingle :
      (source : Text) → Sublist (primitives (classify_bridge floats source)) (bridge ∷ [])
  unfolding classify_bridge
  classify_bridge-IsSingle source = match_from-IsSingle _ bridge _ _

  pub classify_oracle-IsSingle :
      (source : Text) → Sublist (primitives (classify_oracle floats source)) (oracle ∷ [])
  unfolding classify_oracle
  classify_oracle-IsSingle source = match_from-IsSingle _ oracle _ _
