-- ===== src/Catalog/Properties.antt =====
-- The property catalog (crates/vergil-properties/src/catalog.rs): manifests, templates, `Catalog`.
use vergil.Prelude.{
  ℕ, String, Bool, true, false, ◌&&◌, Option, none, some, List, [], ◌∷◌, if◌then◌else◌, length, any,
  Result, ok, err, ◌>>=◌, ok_or, map_err,
}
use vergil.Prelude.Chars.{Text, codes, starts_with, to_ascii_uppercase}
use vergil.Prelude.Maps.{TreeMap, lookup, values}
use vergil.Catalog.Files.{Disk, join, resolve_under, walk_template_dirs}
use vergil.Catalog.Loading.{Loader, load_all}

pub data CostClass : Type 0 where
  trivial : CostClass
  cheap : CostClass
  medium : CostClass
  hard : CostClass

unfoldable pub as_str : CostClass → String
as_str trivial = "trivial"
as_str cheap = "cheap"
as_str medium = "medium"
as_str hard = "hard"

pub data Tier : Type 0 where
  vendored : Tier
  original : Tier
  reference_only : Tier

pub record Provenance : Type 0 where
  pub tier : Tier
  pub source : String
  pub inspired_by : Option String
  pub license : String
  pub upstream_commit : Option String

pub record StorageSlotReq : Type 0 where
  pub name : String
  pub solidity_type : String

pub record Requires : Type 0 where
  pub storage_slots : List StorageSlotReq
  pub modifiers : List String
  pub external_call_handling : Option String

pub record AppliesTo : Type 0 where
  pub interfaces : List String

pub record EncodingPaths : Type 0 where
  pub halmos : String
  pub smtchecker : Option String

pub record PropertyManifest : Type 0 where
  pub id : String
  pub description : String
  pub cost_class : CostClass
  pub applies_to : AppliesTo
  pub requires : Requires
  pub encoding : EncodingPaths
  pub provenance : Provenance

pub record PropertyTemplate : Type 0 where
  pub manifest : PropertyManifest
  pub dir : String
  pub halmos_source : String
  pub smtchecker_source : String

pub data TemplateError : Type 0 where
  io : (path source : String) → TemplateError
  yaml : (path source : String) → TemplateError
  missing_encoding : (id file dir : String) → TemplateError
  escaping_path : (id file : String) → TemplateError
  license_tier_violation : (id : String) (tier : Tier) (license : String) → TemplateError
  duplicate_id : (id : String) → TemplateError

pub record Catalog : Type 0 where
  pub by_id : TreeMap PropertyTemplate

forbidden_for_vendored : List Text
forbidden_for_vendored =
    codes "GPL"
    ∷ codes "GPL-2.0"
    ∷ codes "GPL-3.0"
    ∷ codes "AGPL"
    ∷ codes "AGPL-3.0"
    ∷ codes "BUSL"
    ∷ codes "BUSL-1.1"
    ∷ []

-- The license, in upper case, starts with one that the tool must not distribute.
unfoldable pub is_forbidden : String → Bool
unfolding forbidden_for_vendored
is_forbidden license =
    any (λ f. starts_with f (to_ascii_uppercase (codes license))) forbidden_for_vendored

unfoldable pub is_shipped : Tier → Bool
is_shipped vendored = true
is_shipped original = true
is_shipped reference_only = false

unfoldable pub lint_template : PropertyTemplate → Result TemplateError (Unit {0})
lint_template t =
    let p = t.manifest.provenance in
    if is_shipped p.tier && is_forbidden p.license
    then err (license_tier_violation t.manifest.id p.tier p.license)
    else ok tt

-- A declared file: its path is checked before it is read.
read_encoding : Disk → (id dir file : String) → Result TemplateError String
read_encoding disk id dir file = ok_or (resolve_under dir file) (escaping_path id file) >>= λ path.
    map_err (λ _. missing_encoding id file dir) (disk.read_to_string path)

read_optional : Disk → (id dir : String) → Option String → Result TemplateError String
read_optional disk id dir none = ok ""
read_optional disk id dir (some file) = read_encoding disk id dir file

module _ (disk : Disk) (from_slice : List ℕ → Result String PropertyManifest) where
  unfoldable pub load_template : String → Result TemplateError PropertyTemplate
  unfolding read_encoding read_optional
  load_template dir =
      map_err (io (join dir "manifest.yaml")) (disk.read (join dir "manifest.yaml")) >>= λ bytes.
      map_err (yaml (join dir "manifest.yaml")) (from_slice bytes) >>= λ manifest.
      read_encoding disk manifest.id dir manifest.encoding.halmos >>= λ halmos_source.
      read_optional disk manifest.id dir manifest.encoding.smtchecker >>= λ smtchecker_source.
      ok record {
        manifest = manifest;
        dir = dir;
        halmos_source = halmos_source;
        smtchecker_source = smtchecker_source;
      }

  abbrev pub loader : Loader TemplateError PropertyTemplate
  loader = record {
    load_template = load_template;
    lint = lint_template;
    id = λ t. t.manifest.id;
    duplicate = duplicate_id;
  }

  unfoldable pub load : String → Result TemplateError Catalog
  load dir = walk_template_dirs io disk dir >>= λ dirs.
      load_all loader [] dirs >>= λ by_id. ok record { by_id = by_id }

unfoldable pub len : Catalog → ℕ
len catalog = length catalog.by_id

unfoldable pub get : String → Catalog → Option PropertyTemplate
get id catalog = lookup id catalog.by_id

unfoldable pub iter : Catalog → List PropertyTemplate
iter catalog = values catalog.by_id
