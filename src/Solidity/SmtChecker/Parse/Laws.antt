-- ===== src/Solidity/SmtChecker/Parse/Laws.antt =====
-- When solc's diagnostics count as a proof (crates/vergil-solidity/src/smtchecker.rs).
use vergil.Prelude.{
  ℕ, suc, String, ◌≡◌, refl, sym, ap, ◌∙◌, inl, inr, Bool, true, false, not, ◌&&◌, ◌||◌, Option,
  none, some, List, [], ◌∷◌, if◌then◌else◌, Bool-cases, any, all, find, Result, ok,
}
use vergil.Prelude.Chars.{Text, codes, eqb, contains}
use vergil.Solidity.SmtChecker.{SmtCheckerResult, verified}
use vergil.Solidity.SmtChecker.Parse.{
  SolcDiagnostic, is_chc_message, is_safe, violates, is_undecided, tally, tallied, findings,
  is_hard, classify_all, classify_parsed, parse_standard_json,
}

abbrev pub is_verified : SmtCheckerResult → Bool
is_verified (verified _ _ _) = true
is_verified _ = false

-- The diagnostic does not stand against a proof: one of the model checker calls itself safe, or it
-- neither reports a violation nor says that something is undecided; any other is no error.
abbrev pub allows_proof : SolcDiagnostic → Bool
allows_proof d =
    if is_chc_message d.message
    then is_safe d.message || (not (violates d.message) && not (is_undecided d.message))
    else not (eqb d.severity (codes "error"))

counted :
    (b c : Bool) (n m l k i : ℕ)
    → is_verified
        (tallied (if b then (n, m, suc k) else if c then (l, i, suc k) else (l, m, suc k)))
      ≡ true
unfolding tallied
counted true c n m l k i = refl
counted false true n m l k i = refl
counted false false n m l k i = refl

and_assoc : (a b c : Bool) → (a && (b && c)) ≡ ((a && b) && c)
and_assoc true b c = refl
and_assoc false b c = refl

and_false : (b : Bool) → (b && false) ≡ false
and_false true = refl
and_false false = refl

not_found : Option SolcDiagnostic → Bool
not_found none = true
not_found (some _) = false

engaged :
    (ds : List SolcDiagnostic)
    → is_verified (tallied (tally ds)) ≡ any (λ d. is_chc_message d.message) ds
unfolding tally tallied
engaged [] = refl
engaged (d ∷ ds) = elim (Bool-cases (is_chc_message d.message)) [
  | inl y ↦ rw (y) (
      counted (contains (codes "proved safe") d.message)
        (contains (codes "check is safe") d.message) _ _ _ _ _)
  | inr n ↦ rw (n) (engaged ds)
]

-- A diagnostic of the model checker allows a proof.
allows_finding : SolcDiagnostic → Bool
allows_finding d =
    not (is_chc_message d.message)
    || (is_safe d.message || (not (violates d.message) && not (is_undecided d.message)))

found :
    (chc safe v u : Bool) (w x r : SmtCheckerResult)
    → is_verified w ≡ false
    → is_verified x ≡ false
    → is_verified (if not chc || safe then r else if v then w else if u then x else r)
      ≡ ((not chc || (safe || (not v && not u))) && is_verified r)
found false s v u w x r e f = refl
found true true v u w x r e f = refl
found true false true u w x r e f = e
found true false false true w x r e f = f
found true false false false w x r e f = refl

findings-is_verified :
    (to_lowercase : Text → Text) (ds : List SolcDiagnostic) (r : SmtCheckerResult)
    → is_verified (findings to_lowercase ds r) ≡ (all allows_finding ds && is_verified r)
unfolding findings allows_finding
findings-is_verified to_lowercase [] r = refl
findings-is_verified to_lowercase (d ∷ ds) r =
    found (is_chc_message d.message) (is_safe d.message) (violates d.message)
      (is_undecided d.message) _ _ (findings to_lowercase ds r) refl refl
    ∙ ap (λ b. allows_finding d && b) (findings-is_verified to_lowercase ds r)
    ∙ and_assoc (allows_finding d) (all allows_finding ds) (is_verified r)

step :
    (d : SolcDiagnostic) (chc severe x : Bool) (f : Option SolcDiagnostic)
    (findings_allow proof : Bool)
    → proof ≡ (not_found f && findings_allow)
    → ((if chc then x else not severe) && proof)
      ≡ (not_found (if severe && not chc then some d else f) && ((not chc || x) && findings_allow))
unfolding not_found
step d true true true f a p e = e
step d true true false f a p e = sym (and_false (not_found f))
step d true false true f a p e = e
step d true false false f a p e = sym (and_false (not_found f))
step d false true x f a p e = refl
step d false false x f a p e = e

combined :
    (ds : List SolcDiagnostic)
    → all allows_proof ds ≡ (not_found (find is_hard ds) && all allows_finding ds)
unfolding allows_finding is_hard not_found
combined [] = refl
combined (d ∷ ds) =
    step d (is_chc_message d.message) (eqb d.severity (codes "error")) _ (find is_hard ds)
      (all allows_finding ds) (all allows_proof ds) (combined ds)

classified :
    (to_lowercase : Text → Text) (ds : List SolcDiagnostic) (hard : Option SolcDiagnostic)
    → is_verified (classify_all to_lowercase hard ds)
      ≡ ((not_found hard && all allows_finding ds) && any (λ d. is_chc_message d.message) ds)
unfolding classify_all not_found
classified to_lowercase ds none =
    findings-is_verified to_lowercase ds (tallied (tally ds))
    ∙ ap (λ b. all allows_finding ds && b) (engaged ds)
classified to_lowercase ds (some d) = refl

-- A run counts as verified exactly when the output is JSON, the model checker has reported anything at
-- all, and no diagnostic stands against it: none of the compiler's own is an error, and each of the
-- model checker's calls itself safe or neither reports a violation nor says that something is undecided.
pub parse_standard_json-is_verified :
    (to_lowercase : Text → Text) (from_str : Text → Result String (List SolcDiagnostic))
    (json : Text) (ds : List SolcDiagnostic)
    → from_str json ≡ ok ds
    → is_verified (parse_standard_json to_lowercase from_str json)
      ≡ (all allows_proof ds && any (λ d. is_chc_message d.message) ds)
unfolding parse_standard_json classify_parsed
parse_standard_json-is_verified to_lowercase from_str json ds e =
    ap (λ r. is_verified (classify_parsed to_lowercase r)) e
    ∙ classified to_lowercase ds (find is_hard ds)
    ∙ ap (λ b. b && any (λ d. is_chc_message d.message) ds) (sym (combined ds))
