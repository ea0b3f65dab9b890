-- ===== src/Classify/Generic/Laws.antt =====
-- What `classify` returns (crates/vergil-properties/src/classify.rs).
use mathlib.Core.Path.{subst}
use vergil.Prelude.{
  String, ◌≡◌, refl, sym, ◌⊎◌, inl, inr, Bool, true, false, not, ◌||◌, List, [], ◌∷◌, ◌++◌,
  Bool-cases, all,
}
use vergil.Prelude.Chars.{Text}
use vergil.Prelude.Floats.{Floats}
use vergil.Classify.{
  Primitive, PrimitiveMatch, percent, token_erc20, token_erc721, token_erc1155, vault,
  lending_market, amm, vesting, airdrop, governance, staking, bridge, oracle,
  access_controlled_generic,
}
use vergil.Classify.Order.{
  Sublist, Sublist-append, Sublist-all, both, primitives, primitives-append,
}
use vergil.Classify.Tokens.{
  TokenScan, is_detected, scan_tokens, token_matches, classify_tokens, match_if,
}
use vergil.Classify.Detectors.{
  classify_vault, classify_amm, classify_lending, classify_vesting, classify_airdrop,
  classify_governance, classify_staking, classify_bridge,
}
use vergil.Classify.Detectors.Single.{
  classify_vault-IsSingle, classify_amm-IsSingle, classify_lending-IsSingle,
  classify_vesting-IsSingle, classify_airdrop-IsSingle, classify_governance-IsSingle,
  classify_staking-IsSingle, classify_bridge-IsSingle, classify_oracle-IsSingle,
}
use vergil.Classify.Generic.{
  parent_signals, generic_signals, generic_matches, is_owned, classify_access_controlled_generic,
  known_matches, classify,
}

-- The primitives that have a classifier of their own, in the order in which the classifiers run.
abbrev pub particular : List Primitive
particular =
    token_erc20 ∷ token_erc721 ∷ token_erc1155 ∷ vault ∷ amm ∷ lending_market ∷ vesting ∷ airdrop
    ∷ governance ∷ staking ∷ bridge ∷ oracle ∷ []

abbrev pub is_generic : Primitive → Bool
is_generic access_controlled_generic = true
is_generic _ = false

either_false : (a b : Bool) → (a || b) ≡ false → (a ≡ false) × (b ≡ false)
either_false false b h = (refl, h)
either_false true b h = cc h

or_true : (b : Bool) → (b || true) ≡ true
or_true true = refl
or_true false = refl

module _ {F : Type 0} (floats : Floats F) where
  append-Sublist :
      (ms ns : List (PrimitiveMatch F)) (ps qs : List Primitive)
      → Sublist (primitives ms) ps
      → Sublist (primitives ns) qs
      → Sublist (primitives (ms ++ ns)) (ps ++ qs)
  append-Sublist ms ns ps qs h k =
      subst (λ zs. Sublist zs (ps ++ qs)) (sym (primitives-append ms ns))
        (Sublist-append (primitives ms) ps (primitives ns) qs h k)

  match_if-Sublist :
      (b : Bool) (p : Primitive) (confidence : F) (signals : List String)
      → Sublist (primitives (match_if b p confidence signals)) (p ∷ [])
  match_if-Sublist true p confidence signals = inl (refl, tt)
  match_if-Sublist false p confidence signals = tt

  token_matches-Sublist :
      (scan : TokenScan)
      → Sublist
          (primitives (token_matches floats scan))
          (token_erc20 ∷ token_erc721 ∷ token_erc1155 ∷ [])
  unfolding token_matches
  token_matches-Sublist scan = elim (Bool-cases (is_detected scan "ERC4626")) [
    | inl y ↦ rw (Sublist, y) tt
    | inr n ↦
        rw (Sublist, n)
          (append-Sublist (match_if (is_detected scan "ERC20") token_erc20 _ _) _ (token_erc20 ∷ [])
            (token_erc721 ∷ token_erc1155 ∷ [])
            (match_if-Sublist (is_detected scan "ERC20") token_erc20 _ _)
            (append-Sublist (match_if (is_detected scan "ERC721") token_erc721 _ _) _
              (token_erc721 ∷ []) (token_erc1155 ∷ [])
              (match_if-Sublist (is_detected scan "ERC721") token_erc721 _ _)
              (match_if-Sublist (is_detected scan "ERC1155") token_erc1155 _ _)))
  ]

  known_matches-Sublist :
      (source : Text) → Sublist (primitives (known_matches floats source)) particular
  unfolding known_matches classify_tokens
  known_matches-Sublist source =
      append-Sublist (classify_tokens floats source) _
        (token_erc20 ∷ token_erc721 ∷ token_erc1155 ∷ []) _
        (token_matches-Sublist (scan_tokens source))
        (append-Sublist (classify_vault floats source) _ (vault ∷ []) _
          (classify_vault-IsSingle floats source)
          (append-Sublist (classify_amm floats source) _ (amm ∷ []) _
            (classify_amm-IsSingle floats source)
            (append-Sublist (classify_lending floats source) _ (lending_market ∷ []) _
              (classify_lending-IsSingle floats source)
              (append-Sublist (classify_vesting floats source) _ (vesting ∷ []) _
                (classify_vesting-IsSingle floats source)
                (append-Sublist (classify_airdrop floats source) _ (airdrop ∷ []) _
                  (classify_airdrop-IsSingle floats source)
                  (append-Sublist (classify_governance floats source) _ (governance ∷ []) _
                    (classify_governance-IsSingle floats source)
                    (append-Sublist (classify_staking floats source) _ (staking ∷ []) _
                      (classify_staking-IsSingle floats source)
                      (append-Sublist (classify_bridge floats source) _ (bridge ∷ []) _
                        (classify_bridge-IsSingle floats source)
                        (classify_oracle-IsSingle floats source)))))))))

  all_map :
      (test : Primitive → Bool) (ms : List (PrimitiveMatch F))
      → all test (primitives ms) ≡ true
      → all (λ m. test m.primitive) ms ≡ true
  all_map test [] h = refl
  all_map test (m ∷ ms) h =
      let (t, ts) = both (test m.primitive) (all test (primitives ms)) h in
      rw (t) (all_map test ms ts)

  abbrev surfaces : PrimitiveMatch F → Bool
  surfaces m = floats.ge m.confidence (percent floats 60)

  unowned :
      (ms : List (PrimitiveMatch F))
      → is_owned floats ms ≡ false
      → all (λ m. is_generic m.primitive || not (surfaces m)) ms ≡ true
  unfolding is_owned
  unowned [] h = refl
  unowned (m ∷ ms) h =
      let (t, ts) = either_false (surfaces m) (is_owned floats ms) h in
      rw (t, or_true (is_generic m.primitive)) (unowned ms ts)

  all-append :
      (test : PrimitiveMatch F → Bool) (ms ns : List (PrimitiveMatch F))
      → all test ms ≡ true
      → all test ns ≡ true
      → all test (ms ++ ns) ≡ true
  all-append test [] ns h k = k
  all-append test (m ∷ ms) ns h k =
      let (t, ts) = both (test m) (all test ms) h in rw (t) (all-append test ms ns ts k)

  generic_matches-Sublist :
      (owned : Bool) (parents signals : List String)
      → Sublist
          (primitives (generic_matches floats owned parents signals))
          (access_controlled_generic ∷ [])
  unfolding generic_matches
  generic_matches-Sublist true parents signals = tt
  generic_matches-Sublist false parents [] = tt
  generic_matches-Sublist false parents (s ∷ signals) = inl (refl, tt)

  generic_matches-all :
      (owned : Bool) (parents signals : List String)
      → all
          (λ m. is_generic m.primitive || not (surfaces m))
          (generic_matches floats owned parents signals)
        ≡ true
  unfolding generic_matches
  generic_matches-all true parents signals = refl
  generic_matches-all false parents [] = refl
  generic_matches-all false parents (s ∷ signals) = refl

  generic_matches-owned :
      (owned : Bool) (parents signals : List String)
      → owned ≡ true
      → all (λ m. not (is_generic m.primitive)) (generic_matches floats owned parents signals)
        ≡ true
  unfolding generic_matches
  generic_matches-owned true parents signals e = refl
  generic_matches-owned false parents signals e = cc e

  -- No match is the catch-all, or no other match has a confidence of 0.6 or above.
  abbrev pub Defers : List (PrimitiveMatch F) → Type 0
  Defers ms =
      (all (λ m. not (is_generic m.primitive)) ms ≡ true)
      ⊎ (all (λ m. is_generic m.primitive || not (floats.ge m.confidence (percent floats 60))) ms
          ≡ true)

  deferring :
      (known : List (PrimitiveMatch F)) (parents signals : List String)
      → all (λ m. not (is_generic m.primitive)) known ≡ true
      → Defers (known ++ generic_matches floats (is_owned floats known) parents signals)
  deferring known parents signals h = elim (Bool-cases (is_owned floats known)) [
    | inl y ↦ inl (
        all-append _ known (generic_matches floats (is_owned floats known) parents signals) h
          (generic_matches-owned (is_owned floats known) parents signals y))
    | inr n ↦ inr (
        all-append _ known (generic_matches floats (is_owned floats known) parents signals)
          (unowned known n) (generic_matches-all (is_owned floats known) parents signals))
  ]

  -- Classification lists each primitive at most once: the particular ones in the order of their
  -- classifiers, then the catch-all. And the catch-all defers: either no match is the catch-all, or no
  -- other match has a confidence of 0.6 or above.
  pub classify-Sublist :
      (source : Text)
      → Sublist
          (primitives (classify floats source).matches)
          (particular ++ (access_controlled_generic ∷ []))
        × Defers (classify floats source).matches
  unfolding classify classify_access_controlled_generic
  classify-Sublist source =
      let known = known_matches floats source in
      let parents = parent_signals source in
      let signals = generic_signals source parents in
      (
        append-Sublist known (generic_matches floats (is_owned floats known) parents signals)
            particular (access_controlled_generic ∷ []) (known_matches-Sublist source)
            (generic_matches-Sublist (is_owned floats known) parents signals),
        deferring known parents signals (
            all_map (λ p. not (is_generic p)) known
              (Sublist-all (λ p. not (is_generic p)) (primitives known) particular
                (known_matches-Sublist source) refl)),
      )
