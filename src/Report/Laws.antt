-- ===== src/Report/Laws.antt =====
-- What the headline means, and that no property is left out of the report
-- (crates/vergil-cli/src/output/verdict.rs).
use vergil.Prelude.{
  ℕ, suc, ◌+◌, ◌≡◌, refl, Bool, true, false, none, some, List, [], ◌∷◌, length, any, all, select,
  if◌then◌else◌, inl, inr, arith, Bool-cases, ◌↔◌, ◌||◌, ◌&&◌, not, ◌<◌,
}
use vergil.Report.{
  PropertyVerdict, verified, unknown, error, PropertyOutcome, StratifiedInputs, Headline,
  verified_in_scope, format_verdict, headline_of, is_refuted, is_verified, is_unknown_or_error,
  is_frontier_unknown, is_per_run_unknown, refutes, verifies, leaves_open, leaves_frontier,
  leaves_per_run,
}

or_true : (b : Bool) → false ≡ not (b || true)
or_true true = refl
or_true false = refl

all_verified_of :
    (v : PropertyVerdict) (rest r u : Bool)
    → rest ≡ not (r || u)
    → (verifies v && rest) ≡ not ((refutes v || r) || (leaves_open v || u))
all_verified_of (verified b d) rest r u h = h
all_verified_of (PropertyVerdict.refuted b c t) rest r u h = refl
all_verified_of (unknown d f) rest r u h = or_true r
all_verified_of (error d) rest r u h = or_true r

all_verified :
    (ps : List PropertyOutcome)
    → all is_verified ps ≡ not (any is_refuted ps || any is_unknown_or_error ps)
all_verified [] = refl
all_verified (p ∷ ps) = all_verified_of p.verdict _ _ _ (all_verified ps)

verified-positive : (ps : List PropertyOutcome) → any is_verified ps ≡ true → 0 < length ps
verified-positive [] h = cc h
verified-positive (p ∷ ps) h = omega arith

verified_first :
    (ps : List PropertyOutcome)
    → 0 < length ps
    → all is_verified ps ≡ true
    → any is_verified ps ≡ true
verified_first [] n h = absurd (omega (arith, n))
verified_first (p ∷ ps) n h = elim (Bool-cases (is_verified p)) [
  | inl y ↦ rw y refl
  | inr no_verdict ↦ cc (rw no_verdict at h)
]

headline_of-cases :
    (r u v a : Bool)
    → a ≡ not (r || u)
    → ((headline_of r u v ≡ Headline.refuted) ↔ (r ≡ true))
      × (headline_of r u v ≡ verified_in_scope → (v ≡ true) × (a ≡ true))
      × (v ≡ true → a ≡ true → headline_of r u v ≡ verified_in_scope)
unfolding headline_of
headline_of-cases true u v a h = ((λ e. refl, λ e. refl), (λ e. cc e), λ ev ea. cc (h, ea))
headline_of-cases false true v a h = ((λ e. cc e, λ e. cc e), (λ e. cc e), λ ev ea. cc (h, ea))
headline_of-cases false false true a h = ((λ e. cc e, λ e. cc e), (λ e. (refl, h)), λ ev ea. refl)
headline_of-cases false false false a h = ((λ e. cc e, λ e. cc e), (λ e. cc e), λ ev ea. cc ev)

-- The headline is Refuted exactly when some property is refuted, and Verified-in-scope exactly when
-- there is a property and every property is verified.
pub format_verdict-headline_iff :
    (inputs : StratifiedInputs)
    → (((format_verdict inputs).headline ≡ Headline.refuted)
        ↔ (any is_refuted inputs.properties ≡ true))
      × (((format_verdict inputs).headline ≡ verified_in_scope)
          ↔ ((0 < length inputs.properties) × (all is_verified inputs.properties ≡ true)))
unfolding format_verdict
format_verdict-headline_iff inputs =
    let ps = inputs.properties in
    let (red, green, back) =
      headline_of-cases (any is_refuted ps) (any is_unknown_or_error ps) (any is_verified ps)
        (all is_verified ps) (all_verified ps) in
    (
      red,
      (
        (λ e. let (v, a) = green e in (verified-positive ps v, a)),
        (λ h. back (verified_first ps h.0 h.1) h.1),
      ),
    )

sections_of :
    (v : PropertyVerdict) (p : PropertyOutcome) (a b c d : List PropertyOutcome) (n : ℕ)
    → length a + length b + length c + length d ≡ n
    → length (if verifies v then p ∷ a else a)
        + length (if refutes v then p ∷ b else b)
        + length (if leaves_frontier v then p ∷ c else c)
        + length (if leaves_per_run v then p ∷ d else d)
      ≡ suc n
sections_of (verified b' d') p a b c d n h = omega (arith, h)
sections_of (PropertyVerdict.refuted b' c' t) p a b c d n h = omega (arith, h)
sections_of (unknown d' none) p a b c d n h = omega (arith, h)
sections_of (unknown d' (some x)) p a b c d n h = omega (arith, h)
sections_of (error d') p a b c d n h = omega (arith, h)

-- The proven, the refuted, the frontier and the per-run list of the report together have as many
-- entries as there are properties.
sections-total :
    (ps : List PropertyOutcome)
    → length (select is_verified ps)
        + length (select is_refuted ps)
        + length (select is_frontier_unknown ps)
        + length (select is_per_run_unknown ps)
      ≡ length ps
sections-total [] = omega arith
sections-total (p ∷ ps) =
    sections_of p.verdict p (select is_verified ps) (select is_refuted ps)
      (select is_frontier_unknown ps) (select is_per_run_unknown ps) (length ps) (sections-total ps)
