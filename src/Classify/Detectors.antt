-- ===== src/Classify/Detectors.antt =====
-- The classifiers of the other primitives (crates/vergil-properties/src/classify.rs).
pub mod Single
use vergil.Prelude.{
  ℕ, ◌+◌, ◌/◌, String, ◌&&◌, ◌||◌, Option, none, some, List, [], ◌∷◌, ◌++◌, ltb, leb, if◌then◌else◌,
  length, find, ◌<>◌,
}
use vergil.Prelude.Chars.{Text, codes}
use vergil.Prelude.Floats.{Floats}
use vergil.Classify.{
  Primitive, PrimitiveMatch, vault, lending_market, amm, vesting, airdrop, governance, staking,
  bridge, oracle, percent,
}
use vergil.Classify.Cues.{
  mentions, has_function_starting_with, has_inheritance_of, has_reserves_storage,
  contains_pair_contract, push_if, one_match,
}

vault_signals : Text → List String
vault_signals source =
    let s1 = push_if (has_inheritance_of source "ERC4626") "inherits ERC4626" [] in
    let s2 =
      push_if (mentions source "contract ERC4626" || mentions source "contract Vault")
        "contract named ERC4626 / Vault" s1 in
    let s3 =
      push_if (mentions source "convertToShares" && mentions source "convertToAssets")
        "convertToShares + convertToAssets" s2 in
    let s4 =
      push_if (mentions source "function totalAssets" || mentions source "totalAssets()")
        "totalAssets() surface" s3 in
    push_if (mentions source "function asset(") "asset() getter" s4

amm_signals : Text → List String
amm_signals source =
    let s1 = push_if (has_function_starting_with source "swap") "swap* function present" [] in
    let s2 =
      push_if (has_reserves_storage source) "reserves storage (reserve0/1 or reserveX/Y)" s1 in
    push_if (mentions source "contract AMM" || contains_pair_contract source)
      "AMM / Pair contract name" s2

lending_signals : Text → List String
lending_signals source =
    let s1 = push_if (has_function_starting_with source "borrow") "borrow() surface" [] in
    let s2 = push_if (has_function_starting_with source "repay") "repay() surface" s1 in
    push_if (has_function_starting_with source "liquidate") "liquidate() surface" s2

-- The first parent in the list that the source inherits.
first_parent : Text → List String → Option String
first_parent source parents = find (has_inheritance_of source) parents

vesting_parents : List String
vesting_parents = "VestingWallet" ∷ "VestingWalletCliff" ∷ "VestingWalletUpgradeable" ∷ []

vesting_signals : Text → List String
vesting_signals source =
    let s1 = push_if (has_function_starting_with source "release") "release() surface" [] in
    push_if
      (mentions source "beneficiary()"
        || mentions source "function beneficiary"
        || mentions source " beneficiary"
        || mentions source "releaseTime"
        || mentions source "releasable"
        || mentions source "vestingSchedule")
      "vesting state (beneficiary / releaseTime / releasable)" s1

airdrop_signals : Text → List String
airdrop_signals source =
    let s1 = push_if (has_function_starting_with source "claim") "claim() surface" [] in
    if mentions source "merkleRoot"
      || mentions source "merkle_root"
      || mentions source "MerkleProof"
    then s1 ++ ("merkleRoot / MerkleProof" ∷ [])
    else push_if (mentions source "claimed[" || mentions source "hasClaimed[")
        "claimed[address] mapping" s1

governor_parents : List String
governor_parents =
    "Governor" ∷ "GovernorBravo" ∷ "GovernorVotes" ∷ "GovernorVotesQuorumFraction"
    ∷ "GovernorTimelockControl" ∷ "GovernorCountingSimple" ∷ "GovernorSettings" ∷ []

governance_signals : Text → List String
governance_signals source =
    let s1 = push_if (has_function_starting_with source "propose") "propose() surface" [] in
    let s2 =
      push_if (mentions source "castVote" || mentions source "function vote(")
        "castVote / vote() surface" s1 in
    push_if
      (has_function_starting_with source "queue" || has_function_starting_with source "execute")
      "queue() / execute() surface" s2

staking_signals : Text → List String
staking_signals source =
    let s1 = push_if (has_function_starting_with source "stake") "stake() surface" [] in
    let s2 =
      push_if
        (has_function_starting_with source "unstake" || mentions source "function withdraw(uint256")
        "unstake() / withdraw() surface" s1 in
    push_if
      (mentions source "rewards" || mentions source "Rewards" || mentions source "rewardPerToken")
      "rewards state / function" s2

bridge_signals : Text → List String
bridge_signals source =
    let finalize = mentions source "finalizeDeposit" || mentions source "finalizeWithdrawal" in
    let s1 =
      push_if (has_function_starting_with source "deposit" && finalize)
        "deposit + finalize* (L1 bridge)" [] in
    push_if (mentions source "claimWithdrawal" || mentions source "proveWithdrawal")
      "claimWithdrawal / proveWithdrawal (L2 bridge)" s1

oracle_signals : Text → List String
oracle_signals source =
    let s1 =
      push_if (mentions source "latestAnswer" && mentions source "decimals()")
        "latestAnswer() + decimals() (Chainlink shape)" [] in
    push_if
      ((mentions source "getPrice" || mentions source "function price")
        && (has_function_starting_with source "update" || mentions source "postPrice"))
      "getPrice() + update() (custom oracle)" s1

module _ {F : Type 0} (floats : Floats F) where
  -- A match once there are `needed` signals.
  match_from : (needed : ℕ) → Primitive → (percentage : ℕ) → List String → List (PrimitiveMatch F)
  match_from needed p percentage signals =
      if ltb (length signals) needed then [] else one_match p (percent floats percentage) signals

  inherited : Primitive → ℕ → Option String → List (PrimitiveMatch F) → List (PrimitiveMatch F)
  inherited p percentage none otherwise = otherwise
  inherited p percentage (some parent) otherwise =
      one_match p (percent floats percentage) (("inherits " <> parent) ∷ [])

  unfoldable pub classify_vault : Text → List (PrimitiveMatch F)
  unfolding vault_signals match_from
  classify_vault source =
      let signals = vault_signals source in
      match_from 1 vault (if leb 2 (length signals) then 95 else 70) signals

  unfoldable pub classify_amm : Text → List (PrimitiveMatch F)
  unfolding amm_signals match_from
  classify_amm source =
      let signals = amm_signals source in
      match_from 1 amm (if leb 2 (length signals) then 90 else 65) signals

  unfoldable pub classify_lending : Text → List (PrimitiveMatch F)
  unfolding lending_signals match_from
  classify_lending source =
      let signals = lending_signals source in
      match_from 2 lending_market (if leb 3 (length signals) then 90 else 65) signals

  unfoldable pub classify_vesting : Text → List (PrimitiveMatch F)
  unfolding vesting_signals match_from inherited first_parent vesting_parents
  classify_vesting source =
      inherited vesting 95 (first_parent source vesting_parents)
        (match_from 2 vesting 75 (vesting_signals source))

  unfoldable pub classify_airdrop : Text → List (PrimitiveMatch F)
  unfolding airdrop_signals match_from
  classify_airdrop source = match_from 2 airdrop 75 (airdrop_signals source)

  unfoldable pub classify_governance : Text → List (PrimitiveMatch F)
  unfolding governance_signals match_from inherited first_parent governor_parents
  classify_governance source =
      inherited governance 90 (first_parent source governor_parents)
        (match_from 2 governance 75 (governance_signals source))

  unfoldable pub classify_staking : Text → List (PrimitiveMatch F)
  unfolding staking_signals match_from
  classify_staking source = match_from 2 staking 75 (staking_signals source)

  unfoldable pub classify_bridge : Text → List (PrimitiveMatch F)
  unfolding bridge_signals match_from
  classify_bridge source = match_from 1 bridge 75 (bridge_signals source)

  unfoldable pub classify_oracle : Text → List (PrimitiveMatch F)
  unfolding oracle_signals match_from
  classify_oracle source = match_from 1 oracle 75 (oracle_signals source)
