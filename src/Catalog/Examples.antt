-- ===== src/Catalog/Examples.antt =====
-- Tests of the catalogs on a directory with two templates.
use vergil.Prelude.{
  map, ℕ, String, ◌≡◌, refl, true, not, Option, none, some, List, [], ◌∷◌, map, ◌==◌, if◌then◌else◌,
  length, All, str_eq, Result, ok, err,
}
use vergil.Catalog.Files.{Disk, join, resolve_under}
use vergil.Catalog.Files
use vergil.Catalog.Properties.{Tier, vendored, reference_only, is_forbidden}
use vergil.Catalog.Attacks.{
  AttackManifest, AttackTemplate, AttackCatalog, AttackEncoding, AttackFixtures, SmtStatus,
  decidable, frontier, document_only, either, mixed, high, iter, len, escaping_path,
  frontier_missing_over_approx,
}
use vergil.Catalog.Attacks.Load.{load, load_template, loader, lint_attack_template}
use vergil.Catalog.Attacks.Load.Laws.{load-IsLoaded, load_template-IsContained, IsContained}
use vergil.Catalog.Attacks.Activation.{
  StaticFacts, ActivationResult, new, with_interface, with_pattern, activate,
}
use vergil.Catalog.Attacks.Load
use vergil.Catalog.Files.Listed.{with_manifest}
use vergil.Catalog.Loading.{IsLoaded}
use vergil.Catalog.Attacks.Activation.Laws.{IsSplit, activate-IsSplit}
use vergil.Catalog.Attacks.Activation

abbrev manifest :
    String
    → SmtStatus
    → Option AttackEncoding
    → Option AttackFixtures
    → List String
    → AttackManifest
manifest id status encoding fixtures interfaces = record {
  id = id;
  name = id;
  category = "reentrancy";
  severity = high;
  decidability = record {
    smt_status = status;
    over_approximation = none;
    expected_solver = either;
    expected_theory = mixed;
  };
  applies_to = record { interfaces = interfaces; primitives = []; patterns = [] };
  requires = record { storage_slots = []; modifiers = []; external_call_handling = none };
  negation_property = "no state change after an external call";
  encoding = encoding;
  fixtures = fixtures;
  provenance = record {
    tier = vendored;
    source = "SWC-107";
    license = "MIT";
    references = [];
    real_world = [];
  };
  mitigation = "checks, effects, interactions";
  engineering_notes = none;
}

abbrev reentrancy : AttackManifest
reentrancy =
    manifest "reentrancy" decidable (some record { halmos = "h.tmpl"; smtchecker = none })
      (some record { vulnerable = "v.sol"; clean = "c.sol" }) ("ERC20" ∷ [])

abbrev governance : AttackManifest
governance = manifest "governance" document_only none none ("any" ∷ [])

abbrev outside : AttackManifest
outside =
    manifest "outside" decidable (some record { halmos = "../h.tmpl"; smtchecker = none })
      (some record { vulnerable = "v.sol"; clean = "c.sol" }) []

abbrev disk : Disk
disk = record {
  read_dir = λ root. ok (ok "b" ∷ ok "notes.md" ∷ ok "a" ∷ []);
  is_dir = λ p. not (str_eq p "t/notes.md");
  is_file = λ p. true;
  read = λ p.
      if str_eq p "t/a/manifest.yaml"
      then ok (1 ∷ [])
      else if str_eq p "t/b/manifest.yaml"
      then ok (2 ∷ [])
      else ok (3 ∷ []);
  read_to_string = λ p. if str_eq p "t/a/h.tmpl" then ok "check_reentrancy" else ok "contract";
}

abbrev from_slice : List ℕ → Result String AttackManifest
from_slice [] = err "empty"
from_slice (b ∷ bs) = if b == 1 then ok reentrancy else if b == 2 then ok governance else ok outside

abbrev reentrancy_template : AttackTemplate
reentrancy_template = record {
  manifest = reentrancy;
  dir = "t/a";
  halmos_source = "check_reentrancy";
  smtchecker_source = "";
  vulnerable_source = "contract";
  clean_source = "contract";
}

abbrev governance_template : AttackTemplate
governance_template = record {
  manifest = governance;
  dir = "t/b";
  halmos_source = "";
  smtchecker_source = "";
  vulnerable_source = "";
  clean_source = "";
}

abbrev two_attacks : AttackCatalog
two_attacks = record {
  by_id = ("governance", governance_template) ∷ ("reentrancy", reentrancy_template) ∷ [];
}

loads_two : load disk from_slice "t" ≡ ok two_attacks
unfolding load Files.walk_template_dirs vergil.Catalog.Loading.load_all Files.sort_paths join
    Files.is_absolute vergil.Prelude.Chars.starts_with vergil.Prelude.Chars.ends_with load_template
    Load.read_under resolve_under vergil.Prelude.Chars.contains lint_attack_template
    Load.lacks_over_approximation vergil.Catalog.Properties.is_shipped is_forbidden
    vergil.Prelude.Chars.to_ascii_uppercase vergil.Prelude.Maps.lookup Files.escapes
    vergil.Catalog.Loading.add_template vergil.Prelude.Maps.insert
loads_two = refl

refuses_outside : load_template disk from_slice "t/c" ≡ err (escaping_path "outside" "../h.tmpl")
unfolding load_template join Files.is_absolute Files.escapes vergil.Prelude.Chars.starts_with
    vergil.Prelude.Chars.ends_with Load.read_under resolve_under vergil.Prelude.Chars.contains
refuses_outside = refl

loads_reentrancy : load_template disk from_slice "t/a" ≡ ok reentrancy_template
unfolding load_template join Files.is_absolute Files.escapes vergil.Prelude.Chars.starts_with
    vergil.Prelude.Chars.ends_with Load.read_under resolve_under vergil.Prelude.Chars.contains
loads_reentrancy = refl

abbrev unexplained : AttackTemplate
unexplained = record {
  manifest = manifest "unexplained" frontier none none [];
  dir = "t/d";
  halmos_source = "";
  smtchecker_source = "";
  vulnerable_source = "";
  clean_source = "";
}

refuses_unexplained :
    lint_attack_template unexplained ≡ err (frontier_missing_over_approx "unexplained")
unfolding lint_attack_template Load.lacks_over_approximation
refuses_unexplained = refl

forbids_agpl : is_forbidden "agpl-3.0-only" ≡ true
unfolding is_forbidden vergil.Prelude.Chars.to_ascii_uppercase vergil.Prelude.Chars.starts_with
forbids_agpl = refl

activates_one :
    map
      (λ t. t.manifest.id)
      (activate (λ _. "[]") two_attacks (with_interface "ERC721" new)).templates
    ≡ "governance" ∷ []
unfolding activate iter Activation.matches_applies_to Activation.contains_any_tag Activation.has
    vergil.Prelude.Maps.lookup with_interface vergil.Prelude.Maps.insert new
activates_one = refl

load_template-IsContained_example : IsContained disk "t/a" reentrancy_template
load_template-IsContained_example =
    load_template-IsContained disk from_slice "t/a" reentrancy_template loads_reentrancy

load-IsLoaded_example :
    (names : List String) × (disk.read_dir "t" ≡ ok (map ok names))
    × All (IsLoaded (loader disk from_slice) two_attacks.by_id) (with_manifest disk "t" names)
    × (len two_attacks ≡ length (with_manifest disk "t" names))
load-IsLoaded_example = load-IsLoaded disk from_slice "t" two_attacks loads_two

activate-IsSplit_example :
    IsSplit
      (activate (λ _. "[]") two_attacks (with_interface "ERC721" new))
      (iter two_attacks)
      (with_interface "ERC721" new)
activate-IsSplit_example = activate-IsSplit (λ _. "[]") two_attacks (with_interface "ERC721" new)
