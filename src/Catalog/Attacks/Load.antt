-- ===== src/Catalog/Attacks/Load.antt =====
-- Loading and linting of attack templates (crates/vergil-properties/src/attack_catalog.rs).
use vergil.Prelude.{
  ℕ, String, Bool, true, false, ◌&&◌, Option, none, some, List, [], ◌==◌, if◌then◌else◌, length,
  Result, ok, err, ◌>>=◌, ok_or, map_err,
}
use vergil.Prelude.Chars.{codes, trim}
use vergil.Catalog.Files.{Disk, join, resolve_under, walk_template_dirs}
use vergil.Catalog.Loading.{Loader, load_all}
use vergil.Catalog.Properties.{is_forbidden, is_shipped}
use vergil.Catalog.Attacks.{
  AttackManifest, AttackTemplate, AttackError, AttackCatalog, AttackEncoding, AttackFixtures,
  SmtStatus, Decidability, decidable, frontier, document_only, io, yaml, missing_encoding,
  missing_fixture, escaping_path, duplicate_id, frontier_missing_over_approx,
  license_tier_violation,
}
pub mod Laws

unfoldable pub read_under :
    Disk → (dir id rel : String) → (is_fixture : Bool) → Result AttackError String
read_under disk dir id rel is_fixture =
    ok_or (resolve_under dir rel) (escaping_path id rel) >>= λ path.
    map_err (λ _. if is_fixture then missing_fixture id rel dir else missing_encoding id rel dir)
      (disk.read_to_string path)

is_document_only : SmtStatus → Bool
is_document_only document_only = true
is_document_only _ = false

read_smtchecker : Disk → (dir id : String) → Option String → Result AttackError String
read_smtchecker disk dir id none = ok ""
read_smtchecker disk dir id (some rel) = read_under disk dir id rel false

-- The two encodings: required unless the template is documentation only.
read_encoding :
    Disk
    → (dir id : String) → Option AttackEncoding
    → (document_only : Bool) → Result AttackError (String × String)
unfolding read_smtchecker
read_encoding disk dir id (some enc) _ = read_under disk dir id enc.halmos false >>= λ h.
    read_smtchecker disk dir id enc.smtchecker >>= λ s. ok (h, s)
read_encoding disk dir id none true = ok ("", "")
read_encoding disk dir id none false = err (missing_encoding id "encoding section in manifest" dir)

-- The two fixtures: required unless the template is documentation only.
read_fixtures :
    Disk
    → (dir id : String) → Option AttackFixtures
    → (document_only : Bool) → Result AttackError (String × String)
read_fixtures disk dir id (some fx) _ = read_under disk dir id fx.vulnerable true >>= λ v.
    read_under disk dir id fx.clean true >>= λ c. ok (v, c)
read_fixtures disk dir id none true = ok ("", "")
read_fixtures disk dir id none false = err (missing_fixture id "fixtures section in manifest" dir)

assemble : Disk → String → AttackManifest → Result AttackError AttackTemplate
unfolding read_encoding read_fixtures is_document_only
assemble disk dir manifest =
    let documented = is_document_only manifest.decidability.smt_status in
    read_encoding disk dir manifest.id manifest.encoding documented >>= λ e.
    read_fixtures disk dir manifest.id manifest.fixtures documented >>= λ f. ok record {
      manifest = manifest;
      dir = dir;
      halmos_source = e.0;
      smtchecker_source = e.1;
      vulnerable_source = f.0;
      clean_source = f.1;
    }

-- `.as_ref().map(|s| s.trim().is_empty()).unwrap_or(true)`
is_blank : Option String → Bool
is_blank none = true
is_blank (some s) = length (trim (codes s)) == 0

unfoldable pub lacks_over_approximation : Decidability → Bool
unfolding is_blank
lacks_over_approximation d = elim d.smt_status [
  | frontier ↦ is_blank d.over_approximation
  | _ ↦ false
]

unfoldable pub lint_attack_template : AttackTemplate → Result AttackError (Unit {0})
lint_attack_template t =
    let p = t.manifest.provenance in
    if lacks_over_approximation t.manifest.decidability
    then err (frontier_missing_over_approx t.manifest.id)
    else if is_shipped p.tier && is_forbidden p.license
    then err (license_tier_violation t.manifest.id p.tier p.license)
    else ok tt

module _ (disk : Disk) (from_slice : List ℕ → Result String AttackManifest) where
  unfoldable pub load_template : String → Result AttackError AttackTemplate
  unfolding assemble
  load_template dir =
      map_err (io (join dir "manifest.yaml")) (disk.read (join dir "manifest.yaml")) >>= λ bytes.
      map_err (yaml (join dir "manifest.yaml")) (from_slice bytes) >>= λ manifest.
      assemble disk dir manifest

  abbrev pub loader : Loader AttackError AttackTemplate
  loader = record {
    load_template = load_template;
    lint = lint_attack_template;
    id = λ t. t.manifest.id;
    duplicate = duplicate_id;
  }

  unfoldable pub load : String → Result AttackError AttackCatalog
  load dir = walk_template_dirs io disk dir >>= λ dirs.
      load_all loader [] dirs >>= λ by_id. ok record { by_id = by_id }
