-- ===== src/Fingerprint.antt =====
-- The fingerprint of a project (crates/vergil-core/src/fingerprint.rs): its sources, interfaces,
-- primitives and oracles.
use vergil.Prelude.{
  String, Bool, false, not, ◌&&◌, ◌||◌, Option, none, some, List, [], ◌∷◌, ◌++◌, map, if◌then◌else◌,
  any, find, str_eq, Result, ok, err, ◌>>=◌, ok_or, map_err,
}
use vergil.Prelude.Chars.{Text, codes, contains}
use vergil.Prelude.Floats.{Floats}
use vergil.Prelude.Maps.{TreeMap, insert}
use vergil.Solidity.Halmos.{FilePath, join}
use vergil.Solidity.Signatures.Interfaces.{detect_interfaces}
use vergil.Classify.{Primitive, PrimitiveMatch, PrimitiveClassification, id, top}
use vergil.Classify.Cues.{mentions}
use vergil.Classify.Tokens.{has_erc4626_shape, has_erc721_shape, has_erc1155_shape}
use vergil.Classify.Generic.{classify}
use vergil.Fingerprint.Sources.{Node, Nodes, collect_contract_sources}
pub mod Sources
pub mod Examples

pub record AvailableOracles : Type 0 where
  pub tests : Bool
  pub natspec : Bool
  pub readme : Option FilePath
  pub recognized_fork : Option String

pub record Fingerprint (F : Type 0) : Type 0 where
  pub project_root : FilePath
  pub interfaces : List String
  pub primitives : List String
  pub available_oracles : AvailableOracles
  pub contract_sources : List FilePath
  pub primitive_classification : PrimitiveClassification F

pub data FingerprintError : Type 0 where
  not_a_project : FilePath → FingerprintError
  io : (path : FilePath) (source : String) → FingerprintError

-- What one of the two parsers finds in a project: whether there is a test or a block, no directory,
-- or an unreadable file.
pub data OracleScan : Type 0 where
  parsed : (nonempty : Bool) → OracleScan
  not_a_directory : OracleScan
  unreadable : (path : FilePath) (source : String) → OracleScan

-- The project on disk. `src` is the tree under src/, if that is a directory, and `listing` the entries
-- of the root.
pub record Project : Type 0 where
  pub canonicalize : FilePath → Option FilePath
  pub is_dir : FilePath → Bool
  pub is_file : FilePath → Bool
  pub src : Option Nodes
  pub listing : Nodes
  pub read_to_string : FilePath → Result String Text
  pub parse_tests : FilePath → OracleScan
  pub parse_natspec_dir : FilePath → OracleScan

keys : TreeMap (Unit {0}) → List String
keys [] = []
keys ((k, _) ∷ m) = k ∷ keys m

as_set : List String → TreeMap (Unit {0})
as_set [] = []
as_set (t ∷ ts) = insert t tt (as_set ts)

insert_if : Bool → String → TreeMap (Unit {0}) → TreeMap (Unit {0})
insert_if b t set = if b then insert t tt set else set

-- The interfaces that functions declare, and those that the shape of the storage implies.
unfoldable pub sorted_interfaces : Text → List String
unfolding keys as_set insert_if
sorted_interfaces joined =
    let allowance = mentions joined "public allowance" in
    let balanceof =
      mentions joined "public balanceOf"
      || mentions joined "public balances"
      || mentions joined "balanceOf[" in
    let transfer = mentions joined "function transfer(" in
    let transferfrom = mentions joined "function transferFrom(" in
    let no_erc721 = not (has_erc721_shape joined) in
    let s0 = as_set (detect_interfaces joined) in
    let s1 = insert_if ((transfer && transferfrom) && (allowance && no_erc721)) "ERC20" s0 in
    let s2 = insert_if ((balanceof && transfer) && (allowance && no_erc721)) "ERC20" s1 in
    let s3 = insert_if (has_erc721_shape joined) "ERC721" s2 in
    let s4 = insert_if (has_erc1155_shape joined) "ERC1155" s3 in
    let s5 = insert_if (has_erc4626_shape joined) "ERC4626" s4 in
    keys (insert_if (has_erc4626_shape joined) "ERC20" s5)

token_primitive : List String → TreeMap (Unit {0})
token_primitive interfaces =
    let has = λ (needle : String). any (λ s. str_eq s needle) interfaces in
    if has "ERC4626"
    then insert "vault" tt []
    else if has "ERC20"
    then insert "token-erc20" tt []
    else if has "ERC721"
    then insert "token-erc721" tt []
    else if has "ERC1155"
    then insert "token-erc1155" tt []
    else []

unfoldable pub detect_primitives : List String → Text → List String
unfolding token_primitive keys insert_if
detect_primitives interfaces joined =
    let lending =
      mentions joined "function borrow("
      && (mentions joined "function repay(" && mentions joined "function liquidate(") in
    let amm =
      mentions joined "function swap("
      && (mentions joined "reserves0" || mentions joined "reserve0") in
    keys (insert_if amm "amm" (insert_if lending "lending-market" (token_primitive interfaces)))

unfoldable pub join_sources :
    (FilePath → Result String Text) → List FilePath → Result FingerprintError Text
join_sources read [] = ok []
join_sources read (path ∷ paths) =
    map_err (io path) (read path) >>= λ s. join_sources read paths >>= λ rest. ok (s ++ (10 ∷ rest))

has_oracle : OracleScan → Result FingerprintError Bool
has_oracle (parsed nonempty) = ok nonempty
has_oracle not_a_directory = ok false
has_oracle (unreadable path source) = err (io path source)

unfoldable pub detect_available_oracles :
    Project → FilePath → Result FingerprintError AvailableOracles
unfolding has_oracle
detect_available_oracles project root = has_oracle (project.parse_tests root) >>= λ tests.
    has_oracle (project.parse_natspec_dir root) >>= λ natspec. ok record {
      tests = tests;
      natspec = natspec;
      readme = find project.is_file (map (join root) ("README.md" ∷ "README" ∷ "readme.md" ∷ []));
      recognized_fork = none;
    }

module _ {F : Type 0} (floats : Floats F) where
  -- The best match, and the older heuristic when there is none.
  primitives_of : Option (PrimitiveMatch F) → (otherwise : List String) → List String
  primitives_of (some m) otherwise = id m.primitive ∷ []
  primitives_of none otherwise = otherwise

  describe :
      Project
      → FilePath
      → (sources : List FilePath) → Text
      → Result FingerprintError (Fingerprint F)
  unfolding primitives_of
  describe project root sources joined = detect_available_oracles project root >>= λ oracles.
      ok record {
        project_root = root;
        interfaces = sorted_interfaces joined;
        primitives =
            primitives_of (top floats (classify floats joined))
              (detect_primitives (sorted_interfaces joined) joined);
        available_oracles = oracles;
        contract_sources = sources;
        primitive_classification = classify floats joined;
      }

  unfoldable pub fingerprint : Project → FilePath → Result FingerprintError (Fingerprint F)
  unfolding describe
  fingerprint project path = ok_or (project.canonicalize path) (not_a_project path) >>= λ root.
      if not (project.is_dir root) || not (project.is_file (join root "foundry.toml"))
      then err (not_a_project root)
      else let sources = collect_contract_sources root project.src project.listing in
        join_sources project.read_to_string sources >>= λ joined.
        describe project root sources joined
