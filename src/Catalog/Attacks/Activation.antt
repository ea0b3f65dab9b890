-- ===== src/Catalog/Attacks/Activation.antt =====
-- Static facts and `activate` (crates/vergil-properties/src/attack_catalog.rs).
use vergil.Prelude.{
  String, Bool, true, false, not, ◌&&◌, none, some, List, [], ◌∷◌, ◌==◌, if◌then◌else◌, length, any,
  ◌<>◌, str_eq, Result, ok, err, ◌>>=◌,
}
use vergil.Prelude.Maps.{TreeMap, lookup, insert}
use vergil.Catalog.Attacks.{AppliesTo, AttackTemplate, AttackCatalog, iter}
pub mod Laws

-- `BTreeSet<String>`
abbrev pub TreeSet : Type 0
TreeSet = TreeMap (Unit {0})

unfoldable pub has : TreeSet → String → Bool
has tags t = elim (lookup t tags) [ some _ ↦ true | none ↦ false ]

pub record StaticFacts : Type 0 where
  pub interfaces : TreeSet
  pub primitives : TreeSet
  pub patterns : TreeMap Bool

unfoldable pub new : StaticFacts
new = record { interfaces = []; primitives = []; patterns = [] }

unfoldable pub with_interface : String → StaticFacts → StaticFacts
with_interface i facts = record {
  interfaces = insert i tt facts.interfaces;
  primitives = facts.primitives;
  patterns = facts.patterns;
}

unfoldable pub with_primitive : String → StaticFacts → StaticFacts
with_primitive p facts = record {
  interfaces = facts.interfaces;
  primitives = insert p tt facts.primitives;
  patterns = facts.patterns;
}

unfoldable pub with_pattern : String → Bool → StaticFacts → StaticFacts
with_pattern k v facts = record {
  interfaces = facts.interfaces;
  primitives = facts.primitives;
  patterns = insert k v facts.patterns;
}

pub record SkippedTemplate : Type 0 where
  pub id : String
  pub reason : String

pub record ActivationResult : Type 0 where
  pub templates : List AttackTemplate
  pub skipped : List SkippedTemplate

unfoldable pub contains_any_tag : List String → Bool
contains_any_tag tags = any (λ t. str_eq t "any") tags

display : Bool → String
display true = "true"
display false = "false"

unfoldable pub same : Bool → Bool → Bool
same true b = b
same false b = not b

unfoldable pub got : StaticFacts → String → Bool
got facts k = elim (lookup k facts.patterns) [ some v ↦ v | none ↦ false ]

match_patterns : StaticFacts → TreeMap Bool → Result String (Unit {0})
unfolding display same
match_patterns facts [] = ok tt
match_patterns facts ((k, want) ∷ rest) =
    let later = match_patterns facts rest in
    if same (got facts k) want
    then later
    else err (
        "pattern "
        <> k
        <> "="
        <> display want
        <> " not satisfied (got "
        <> display (got facts k)
        <> ")")

-- One list of tags against the facts: `any` and the empty list match everything.
match_tags :
    (debug : List String → String)
    → (what : String) → List String
    → TreeSet
    → Result String (Unit {0})
match_tags debug what tags facts =
    if not (length tags == 0) && not (contains_any_tag tags)
    then if any (has facts) tags
      then ok tt
      else err ("no overlap with required " <> what <> " " <> debug tags)
    else ok tt

-- `debug` is `{:?}` of a list of strings.
unfoldable pub matches_applies_to :
    (debug : List String → String) → AppliesTo → StaticFacts → Result String (Unit {0})
unfolding match_tags match_patterns
matches_applies_to debug a facts =
    match_tags debug "interfaces" a.interfaces facts.interfaces >>= λ _.
    match_tags debug "primitives" a.primitives facts.primitives >>= λ _.
    match_patterns facts a.patterns

record_match : AttackTemplate → Result String (Unit {0}) → ActivationResult → ActivationResult
record_match t (ok _) out = record { templates = t ∷ out.templates; skipped = out.skipped }
record_match t (err reason) out = record {
  templates = out.templates;
  skipped = record { id = t.manifest.id; reason = reason } ∷ out.skipped;
}

activate_all : (debug : List String → String) → List AttackTemplate → StaticFacts → ActivationResult
unfolding record_match
activate_all debug [] facts = record { templates = []; skipped = [] }
activate_all debug (t ∷ ts) facts =
    record_match t (matches_applies_to debug t.manifest.applies_to facts)
      (activate_all debug ts facts)

unfoldable pub activate :
    (debug : List String → String) → AttackCatalog → StaticFacts → ActivationResult
unfolding activate_all
activate debug catalog facts = activate_all debug (iter catalog) facts
