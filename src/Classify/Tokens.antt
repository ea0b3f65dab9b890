-- ===== src/Classify/Tokens.antt =====
-- The token classifier (crates/vergil-properties/src/classify.rs).
use vergil.Prelude.{
  String, Bool, true, false, not, ◌&&◌, ◌||◌, none, some, List, [], ◌∷◌, ◌++◌, if◌then◌else◌, any,
}
use vergil.Prelude.Chars.{Text}
use vergil.Prelude.Floats.{Floats}
use vergil.Prelude.Maps.{TreeMap, lookup, insert}
use vergil.Solidity.Signatures.Interfaces.{detect_interfaces}
use vergil.Classify.{Primitive, PrimitiveMatch, token_erc20, token_erc721, token_erc1155, percent}
use vergil.Classify.Cues.{mentions, has_inheritance_of, one_match}

-- The interfaces found so far, a set, and the notes that go with them.
pub record TokenScan : Type 0 where
  pub detected : TreeMap (Unit {0})
  pub notes : List String

detected_set : List String → TreeMap (Unit {0})
detected_set [] = []
detected_set (t ∷ ts) = insert t tt (detected_set ts)

start : List String → TokenScan
unfolding detected_set
start [] = record { detected = []; notes = [] }
start (t ∷ ts) = record { detected = detected_set (t ∷ ts); notes = "detect_interfaces match" ∷ [] }

-- A cue that holds marks an interface and adds its notes.
mark : Bool → String → List String → TokenScan → TokenScan
mark b interface notes scan =
    if b
    then record { detected = insert interface tt scan.detected; notes = scan.notes ++ notes }
    else scan

erc20_parents : List String
erc20_parents =
    "ERC20" ∷ "ERC20Burnable" ∷ "ERC20Capped" ∷ "ERC20Pausable" ∷ "ERC20Permit" ∷ "ERC20Votes"
    ∷ "ERC20Wrapper" ∷ "ERC20FlashMint" ∷ "ERC1363" ∷ "ERC20PresetMinterPauser"
    ∷ "ERC20PresetFixedSupply" ∷ []

erc721_parents : List String
erc721_parents =
    "ERC721" ∷ "ERC721Burnable" ∷ "ERC721Enumerable" ∷ "ERC721Pausable" ∷ "ERC721URIStorage"
    ∷ "ERC721Votes" ∷ "ERC721Wrapper" ∷ "ERC721Royalty" ∷ "ERC721Consecutive" ∷ "ERC721Holder" ∷ []

erc1155_parents : List String
erc1155_parents =
    "ERC1155" ∷ "ERC1155Burnable" ∷ "ERC1155Pausable" ∷ "ERC1155Supply" ∷ "ERC1155URIStorage"
    ∷ "ERC1155Holder" ∷ []

unfoldable pub has_erc4626_shape : Text → Bool
has_erc4626_shape source =
    mentions source "convertToShares"
    || mentions source "convertToAssets"
    || mentions source "totalAssets" && mentions source "totalShares"

unfoldable pub has_erc721_shape : Text → Bool
has_erc721_shape source =
    mentions source "ownerOf"
    && (mentions source "safeTransferFrom" || mentions source "setApprovalForAll")

unfoldable pub has_erc1155_shape : Text → Bool
has_erc1155_shape source =
    mentions source "safeBatchTransferFrom" && mentions source "balanceOfBatch"

has_public_balanceof : Text → Bool
has_public_balanceof source =
    mentions source "public balanceOf"
    || mentions source "public balances"
    || mentions source "balanceOf["

has_totalsupply : Text → Bool
has_totalsupply source =
    mentions source "public totalSupply"
    || mentions source "totalSupply()"
    || mentions source "uint256 public totalSupply"

-- The interfaces that the shape of the source shows.
scan_shapes : Text → TokenScan → TokenScan
unfolding mark has_public_balanceof has_totalsupply
scan_shapes source s0 =
    let allowance = mentions source "public allowance" in
    let balanceof = has_public_balanceof source in
    let transfer = mentions source "function transfer(" in
    let transferfrom = mentions source "function transferFrom(" in
    let no_erc721 = not (has_erc721_shape source) in
    let s1 =
      mark ((transfer && transferfrom) && (allowance && no_erc721)) "ERC20"
        ("public allowance + transfer + transferFrom" ∷ []) s0 in
    let s2 = mark ((balanceof && transfer) && (allowance && no_erc721)) "ERC20" [] s1 in
    let s3 =
      mark ((transfer && balanceof) && (has_totalsupply source && no_erc721)) "ERC20"
        ("minimal ERC20: transfer + balanceOf + totalSupply" ∷ []) s2 in
    let s4 = mark (has_erc721_shape source) "ERC721" [] s3 in
    let s5 =
      mark (has_erc1155_shape source) "ERC1155" ("safeBatchTransferFrom + balanceOfBatch" ∷ [])
        s4 in
    mark (has_erc4626_shape source) "ERC4626" [] s5

-- The interfaces that the source inherits.
scan_parents : Text → TokenScan → TokenScan
unfolding mark erc20_parents erc721_parents erc1155_parents
scan_parents source s0 =
    let s1 =
      mark (any (has_inheritance_of source) erc20_parents) "ERC20" ("inherits OZ ERC20-family" ∷ [])
        s0 in
    let s2 =
      mark (any (has_inheritance_of source) erc721_parents) "ERC721"
        ("inherits OZ ERC721-family" ∷ []) s1 in
    let s3 =
      mark (any (has_inheritance_of source) erc1155_parents) "ERC1155"
        ("inherits OZ ERC1155-family" ∷ []) s2 in
    mark (has_inheritance_of source "ERC4626") "ERC4626" [] s3

unfoldable pub scan_tokens : Text → TokenScan
unfolding start scan_shapes scan_parents
scan_tokens source = scan_parents source (scan_shapes source (start (detect_interfaces source)))

unfoldable pub is_detected : TokenScan → String → Bool
is_detected scan t = elim (lookup t scan.detected) [ none ↦ false | some _ ↦ true ]

abbrev pub match_if : {F : Type 0} → Bool → Primitive → F → List String → List (PrimitiveMatch F)
match_if b p confidence signals = if b then one_match p confidence signals else []

module _ {F : Type 0} (floats : Floats F) where
  -- A vault is no token.
  unfoldable pub token_matches : TokenScan → List (PrimitiveMatch F)
  token_matches scan =
      if is_detected scan "ERC4626"
      then []
      else match_if (is_detected scan "ERC20") token_erc20 (percent floats 95)
          ("ERC20 interface" ∷ scan.notes)
        ++ (match_if (is_detected scan "ERC721") token_erc721 (percent floats 95)
              ("ERC721 interface (ownerOf + approval surface)" ∷ [])
            ++ match_if (is_detected scan "ERC1155") token_erc1155 (percent floats 95)
                ("safeBatchTransferFrom + balanceOfBatch present" ∷ []))

  unfoldable pub classify_tokens : Text → List (PrimitiveMatch F)
  classify_tokens source = token_matches (scan_tokens source)
