-- ===== src/Solidity/Signatures/Interfaces.antt =====
-- `detect_interfaces` (crates/vergil-solidity/src/signatures.rs).
use vergil.Prelude.{
  String, Bool, not, ◌&&◌, ◌||◌, List, [], ◌∷◌, ◌++◌, map, if◌then◌else◌, any, str_eq,
}
use vergil.Prelude.Chars.{Text, codes, eqb, contains}
use vergil.Solidity.Signatures.Comments.{strip_comments}
use vergil.Solidity.Signatures.Extract.{extract}

unfoldable pub push_tag : List String → String → List String
push_tag tags t = if any (λ x. str_eq x t) tags then tags else tags ++ (t ∷ [])

tag_if : Bool → String → List String → List String
tag_if b t tags = if b then push_tag tags t else tags

-- A function of this name is part of the external surface.
unfoldable pub has : List Text → Text → Bool
has names n = any (eqb n) names

unfoldable pub is_erc721 : List Text → Bool
is_erc721 names =
    has names (codes "ownerOf")
    && (has names (codes "setApprovalForAll")
        || has names (codes "getApproved")
        || has names (codes "isApprovedForAll"))

unfoldable pub is_erc4626 : List Text → Bool
is_erc4626 names =
    has names (codes "asset")
    && (has names (codes "convertToShares")
        || has names (codes "convertToAssets")
        || has names (codes "totalAssets")
        || has names (codes "deposit") && has names (codes "redeem"))

unfoldable pub is_erc20 : List Text → Bool
is_erc20 names =
    (has names (codes "allowance") && has names (codes "transfer"))
    && (has names (codes "transferFrom") && not (is_erc721 names))

token_tags : List Text → List String
unfolding tag_if
token_tags names =
    let tags = tag_if (is_erc721 names) "ERC721" [] in
    if is_erc4626 names
    then push_tag (push_tag tags "ERC4626") "ERC20"
    else tag_if (is_erc20 names) "ERC20" tags

-- `text` is the source without comments.
mixin_tags : List Text → Text → List String → List String
unfolding tag_if
mixin_tags names text tags =
    let h = λ (n : String). has names (codes n) in
    let t = λ (s : String). contains (codes s) text in
    let t1 = tag_if (h "transferOwnership" || h "owner") "Ownable" tags in
    let t2 = tag_if (h "acceptOwnership" || h "pendingOwner") "Ownable2Step" t1 in
    let t3 = tag_if (h "paused" || t "whenNotPaused") "Pausable" t2 in
    let t4 = tag_if (h "hasRole" && h "grantRole") "AccessControl" t3 in
    let multisig =
      h "confirmTransaction"
      || h "executeTransaction"
      || h "submitTransaction"
      || h "required" && t "isOwner" in
    let t5 = tag_if multisig "Multisig" t4 in
    let timelock =
      h "getMinDelay" || h "schedule" || h "release" && (h "beneficiary" || t "releaseTime") in
    let t6 = tag_if timelock "Timelock" t5 in
    let t7 = tag_if (t "nonReentrant" || t "ReentrancyGuard") "ReentrancyGuard" t6 in
    tag_if (h "cap") "Capped" t7

unfoldable pub detect_interfaces : Text → List String
unfolding token_tags mixin_tags
detect_interfaces source =
    let names = map (λ f. f.name) (extract source) in
    mixin_tags names (strip_comments source) (token_tags names)
