-- ===== src/Catalog/Attacks.antt =====
-- The attack catalog (crates/vergil-properties/src/attack_catalog.rs): its data types.
use vergil.Prelude.{ℕ, String, Bool, Option, List, length}
use vergil.Prelude.Maps.{TreeMap, lookup, values}
use vergil.Catalog.Properties.{StorageSlotReq, Tier}
pub mod Load
pub mod Activation

pub data Severity : Type 0 where
  informational : Severity
  low : Severity
  medium : Severity
  high : Severity
  critical : Severity

unfoldable pub as_str : Severity → String
as_str informational = "informational"
as_str low = "low"
as_str medium = "medium"
as_str high = "high"
as_str critical = "critical"

pub data SmtStatus : Type 0 where
  decidable : SmtStatus
  frontier : SmtStatus
  document_only : SmtStatus

pub data ExpectedSolver : Type 0 where
  z3 : ExpectedSolver
  cvc5 : ExpectedSolver
  either : ExpectedSolver

pub data ExpectedTheory : Type 0 where
  lia : ExpectedTheory
  bv : ExpectedTheory
  uf : ExpectedTheory
  mixed : ExpectedTheory

pub record Decidability : Type 0 where
  pub smt_status : SmtStatus
  pub over_approximation : Option String
  pub expected_solver : ExpectedSolver
  pub expected_theory : ExpectedTheory

pub record AppliesTo : Type 0 where
  pub interfaces : List String
  pub primitives : List String
  pub patterns : TreeMap Bool

pub data ModifierPresence : Type 0 where
  required : ModifierPresence
  optional : ModifierPresence
  absent_required : ModifierPresence

pub record AttackRequires : Type 0 where
  pub storage_slots : List StorageSlotReq
  pub modifiers : TreeMap ModifierPresence
  pub external_call_handling : Option String

pub record AttackEncoding : Type 0 where
  pub halmos : String
  pub smtchecker : Option String

pub record AttackFixtures : Type 0 where
  pub vulnerable : String
  pub clean : String

pub record RealWorldExploit : Type 0 where
  pub name : String
  pub year : Option ℕ
  pub loss_usd_approx : Option ℕ
  pub chain : Option String
  pub url : Option String

pub record AttackProvenance : Type 0 where
  pub tier : Tier
  pub source : String
  pub license : String
  pub references : List String
  pub real_world : List RealWorldExploit

pub record AttackManifest : Type 0 where
  pub id : String
  pub name : String
  pub category : String
  pub severity : Severity
  pub decidability : Decidability
  pub applies_to : AppliesTo
  pub requires : AttackRequires
  pub negation_property : String
  pub encoding : Option AttackEncoding
  pub fixtures : Option AttackFixtures
  pub provenance : AttackProvenance
  pub mitigation : String
  pub engineering_notes : Option String

pub record AttackTemplate : Type 0 where
  pub manifest : AttackManifest
  pub dir : String
  pub halmos_source : String
  pub smtchecker_source : String
  pub vulnerable_source : String
  pub clean_source : String

pub data AttackError : Type 0 where
  io : (path source : String) → AttackError
  yaml : (path source : String) → AttackError
  missing_encoding : (id file dir : String) → AttackError
  missing_fixture : (id file dir : String) → AttackError
  escaping_path : (id file : String) → AttackError
  duplicate_id : (id : String) → AttackError
  frontier_missing_over_approx : (id : String) → AttackError
  license_tier_violation : (id : String) (tier : Tier) (license : String) → AttackError

pub record AttackCatalog : Type 0 where
  pub by_id : TreeMap AttackTemplate

unfoldable pub len : AttackCatalog → ℕ
len catalog = length catalog.by_id

unfoldable pub get : String → AttackCatalog → Option AttackTemplate
get id catalog = lookup id catalog.by_id

unfoldable pub iter : AttackCatalog → List AttackTemplate
iter catalog = values catalog.by_id
