-- ===== src/Catalog/Attacks/Activation/Laws.antt =====
-- What `activate` selects (crates/vergil-properties/src/attack_catalog.rs).
use vergil.Prelude.{
  String, ◌≡◌, refl, sym, ap, ◌∙◌, Bool, true, false, not, ◌&&◌, ◌||◌, List, [], ◌∷◌, map, ◌==◌,
  if◌then◌else◌, length, any, all, select, Result, ok, err, ◌>>=◌,
}
use vergil.Prelude.Maps.{TreeMap}
use vergil.Catalog.Attacks.{AttackTemplate, AttackCatalog, iter}
use vergil.Catalog.Attacks.Activation.{
  TreeSet, has, StaticFacts, ActivationResult, contains_any_tag, got, same, match_patterns,
  match_tags, matches_applies_to, record_match, activate_all, activate,
}

-- The tags allow a contract with these tags: there are none, `any` is one, or they overlap.
abbrev pub allows : List String → TreeSet → Bool
allows tags facts = (length tags == 0) || contains_any_tag tags || any (has facts) tags

-- Every pattern flag has the value that the template asks for; an absent flag counts as false.
abbrev pub agrees : TreeMap Bool → StaticFacts → Bool
agrees patterns facts = all (λ entry. same (got facts entry.0) entry.1) patterns

abbrev pub applies : AttackTemplate → StaticFacts → Bool
applies t facts =
    let a = t.manifest.applies_to in
    allows a.interfaces facts.interfaces
    && (allows a.primitives facts.primitives && agrees a.patterns facts)

abbrev pub succeeds : {A : Type 0} → Result String A → Bool
succeeds (ok _) = true
succeeds (err _) = false

decided :
    (none_asked any_asked overlap : Bool) (reason : String)
    → succeeds (
        if not none_asked && not any_asked
        then if overlap then ok tt else err reason
        else ok (tt {0}))
      ≡ (none_asked || any_asked || overlap)
decided true a o r = refl
decided false true o r = refl
decided false false true r = refl
decided false false false r = refl

chained : (p q : Result String (Unit {0})) → succeeds (p >>= λ _. q) ≡ (succeeds p && succeeds q)
chained (ok _) q = refl
chained (err _) q = refl

branched :
    (b : Bool) (q : Result String (Unit {0})) (reason : String)
    → succeeds (if b then q else err reason) ≡ (b && succeeds q)
branched true q r = refl
branched false q r = refl

match_tags-succeeds :
    (debug : List String → String) (what : String) (tags : List String) (facts : TreeSet)
    → succeeds (match_tags debug what tags facts) ≡ allows tags facts
unfolding match_tags
match_tags-succeeds debug what tags facts =
    decided (length tags == 0) (contains_any_tag tags) (any (has facts) tags) _

match_patterns-succeeds :
    (facts : StaticFacts) (patterns : TreeMap Bool)
    → succeeds (match_patterns facts patterns) ≡ agrees patterns facts
unfolding match_patterns
match_patterns-succeeds facts [] = refl
match_patterns-succeeds facts ((k, want) ∷ rest) =
    branched (same (got facts k) want) (match_patterns facts rest) _
    ∙ ap (λ b. same (got facts k) want && b) (match_patterns-succeeds facts rest)

matches-applies :
    (debug : List String → String) (t : AttackTemplate) (facts : StaticFacts)
    → succeeds (matches_applies_to debug t.manifest.applies_to facts) ≡ applies t facts
unfolding matches_applies_to
matches-applies debug t facts =
    let a = t.manifest.applies_to in
    let i = match_tags debug "interfaces" a.interfaces facts.interfaces in
    let p = match_tags debug "primitives" a.primitives facts.primitives in
    let m = match_patterns facts a.patterns in
    chained i (p >>= λ _. m)
    ∙ rw
        (
          chained p m,
          match_tags-succeeds debug "interfaces" a.interfaces facts.interfaces,
          match_tags-succeeds debug "primitives" a.primitives facts.primitives,
          match_patterns-succeeds facts a.patterns,
        )
        refl

abbrev pub ids : List AttackTemplate → List String
ids ts = map (λ t. t.manifest.id) ts

abbrev pub IsSplit : ActivationResult → List AttackTemplate → StaticFacts → Type 0
IsSplit out ts facts =
    (out.templates ≡ select (λ t. applies t facts) ts)
    × (map (λ s. s.id) out.skipped ≡ ids (select (λ t. not (applies t facts)) ts))

recorded :
    (r : Result String (Unit {0})) (t : AttackTemplate) (ts : List AttackTemplate)
    (facts : StaticFacts) (out : ActivationResult)
    → succeeds r ≡ applies t facts
    → IsSplit out ts facts
    → IsSplit (record_match t r out) (t ∷ ts) facts
unfolding record_match
recorded (ok _) t ts facts out e (a, b) = rw (sym e) (ap (λ xs. t ∷ xs) a, b)
recorded (err reason) t ts facts out e (a, b) = rw (sym e) (a, ap (λ xs. t.manifest.id ∷ xs) b)

activate_all-IsSplit :
    (debug : List String → String) (ts : List AttackTemplate) (facts : StaticFacts)
    → IsSplit (activate_all debug ts facts) ts facts
unfolding activate_all
activate_all-IsSplit debug [] facts = (refl, refl)
activate_all-IsSplit debug (t ∷ ts) facts =
    recorded (matches_applies_to debug t.manifest.applies_to facts) t ts facts
      (activate_all debug ts facts) (matches-applies debug t facts)
      (activate_all-IsSplit debug ts facts)

-- Activation splits the templates of the catalog in two, each in the catalog's order: those whose
-- interfaces, primitives and patterns all allow the contract are returned, and each other template is
-- skipped under its identifier.
pub activate-IsSplit :
    (debug : List String → String) (catalog : AttackCatalog) (facts : StaticFacts)
    → IsSplit (activate debug catalog facts) (iter catalog) facts
unfolding activate
activate-IsSplit debug catalog facts = activate_all-IsSplit debug (iter catalog) facts
