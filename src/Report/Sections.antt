-- ===== src/Report/Sections.antt =====
-- The Markdown report (crates/vergil-cli/src/output/verdict.rs, `report_md`).
pub mod Markdown
use Prim.Native.String
use vergil.Prelude.{
  ℕ, zero, suc, String, Bool, true, false, Option, none, some, List, [], ◌∷◌, ◌<>◌, length, select,
  if◌then◌else◌, to_string, is_empty, ◌||◌, not,
}
use vergil.Proof.{
  Source, user_intent, attack_catalog, conformance, tests, nat_spec, structural, Tier, zero_config,
  intent,
}
use vergil.Report.{
  AvailableOraclesSummary, PropertyVerdict, verified, unknown, error, PropertyOutcome,
  SkippedTemplateSummary, PerTemplateFailureSummary, DocumentOnlyTemplate,
  LowConfidencePrimitiveSummary, PrimitiveClassificationSummary, LowConfidenceStructuralSummary,
  StratifiedInputs, Headline, verified_in_scope, incomplete, headline_text, VerdictOutput,
  is_refuted, is_verified, is_frontier_unknown, is_per_run_unknown,
}

-- One `push_str` for each element of a list.
concat : {A : Type 0} → (A → String) → List A → String
concat f [] = ""
concat f (x ∷ xs) = f x <> concat f xs

joined_after : String → List String → String
joined_after s [] = s
joined_after s (t ∷ ts) = s <> (", " <> joined_after t ts)

join_or_none : List String → String
join_or_none [] = "(none)"
join_or_none (s ∷ ss) = joined_after s ss

when : Bool → String → String
when b s = if b then s else ""

when_some : {A : Type 0} → Option A → (A → String) → String
when_some none f = ""
when_some (some a) f = f a

bool_text : Bool → String
bool_text true = "true"
bool_text false = "false"

source_label : Source → String
source_label user_intent = "user-intent"
source_label attack_catalog = "attack-catalog"
source_label conformance = "conformance"
source_label tests = "tests"
source_label nat_spec = "natspec"
source_label structural = "structural"

tier_label : Tier → String
tier_label zero_config = "zero-config"
tier_label intent = "intent"

-- `&sha[..sha.len().min(12)]`, on the ASCII text of a digest
first_chars : ℕ → String → String
first_chars zero s = ""
first_chars (suc n) String.[] = ""
first_chars (suc n) (String.◌∷◌ c s) = String.◌∷◌ c (first_chars n s)

property_line : PropertyOutcome → String → String
property_line p backend =
    "- `"
    <> (p.name
        <> ("` — tier: "
            <> (tier_label p.tier
                <> (", source: "
                    <> (source_label p.source
                        <> (", backend: "
                            <> (backend
                                <> when_some p.template_ref
                                    (λ t. ", template: `" <> (t <> "`")))))))))

intent_line : PropertyOutcome → String
intent_line p = when_some p.intent_text (λ i. "    > " <> (i <> "\n"))

-- Only called on a verified property; the source is unreachable on any other.
render_proven_property : PropertyOutcome → String
unfolding property_line intent_line when_some
render_proven_property p = elim p.verdict [
  | verified backend sha ↦
      property_line p backend
      <> (when_some sha (λ s. ", smt: `" <> (first_chars 12 s <> "…`")) <> ("\n" <> intent_line p))
  | _ ↦ ""
]

-- Only called on a refuted property.
render_refuted_property : PropertyOutcome → String
render_refuted_property p = elim p.verdict [
  | PropertyVerdict.refuted backend cex_file trace ↦
      property_line p backend
      <> ("\n"
          <> (intent_line p
              <> ("    - Counterexample: `"
                  <> (cex_file
                      <> ("` (runnable `forge test --match-path` target)\n"
                          <> when (not (is_empty trace)) ("    - Trace: " <> (trace <> "\n")))))))
  | _ ↦ ""
]

-- A list of the section on what was not checked: absent when it is empty.
bullets : {A : Type 0} → String → (A → String) → List A → String
bullets title f [] = ""
bullets title f (x ∷ xs) = "- **" <> (to_string (length (x ∷ xs)) <> (title <> concat f (x ∷ xs)))

is_nonempty : {A : Type 0} → List A → Bool
is_nonempty [] = false
is_nonempty (x ∷ xs) = true

frontier_line : PropertyOutcome → String
frontier_line p = elim p.verdict [
  | unknown detail (some approx) ↦
      "    - `"
      <> (p.name
          <> ("` (template: `"
              <> (elim p.template_ref [ none ↦ "(none)" | some t ↦ t ]
                  <> ("`)\n      Over-approximation: " <> (approx <> "\n")))))
  | _ ↦ ""
]

detail_of : PropertyVerdict → String
detail_of (unknown detail f) = detail
detail_of (error detail) = detail
detail_of _ = ""

per_run_line : PropertyOutcome → String
per_run_line p = "    - `" <> (p.name <> ("` — " <> (detail_of p.verdict <> "\n")))

structural_pending : String
structural_pending =
    "- **Structural mining (Phase 5)** — not yet implemented. The V1.5 stack will mine conservation / monotonicity / access-policy / invariant-constant / two-step-pattern candidates from solc + Slither once Phase 5 lands.\n"

abbrev pub scope_note : String
scope_note =
    "\n_The \"Verified-in-scope\" headline above means every property this run CHECKED was proven by the solver. It does NOT mean the contract is safe. Properties listed above as skipped / Phase-5-pending / document-only were not checked at all._\n"

-- The local flag `any`: something is listed.
lists_something : StratifiedInputs → Bool
unfolding is_nonempty
lists_something v =
    v.phase5_structural_pending
    || is_nonempty v.skipped_templates
    || is_nonempty (select is_frontier_unknown v.properties)
    || is_nonempty (select is_per_run_unknown v.properties)
    || is_nonempty v.document_only_templates
    || is_nonempty v.per_template_failures

in_scope : Headline → Bool
in_scope verified_in_scope = true
in_scope _ = false

render_not_checked : StratifiedInputs → Headline → String
unfolding lists_something in_scope when bullets
render_not_checked v headline =
    when v.phase5_structural_pending structural_pending
    <> (bullets " attack-catalog templates skipped** — applicability preconditions did not match:\n"
          (λ (s : SkippedTemplateSummary). "    - `" <> (s.id <> ("` — " <> (s.reason <> "\n"))))
          v.skipped_templates
        <> (bullets
              " frontier-template Unknowns** — the property is fundamentally hard for the underlying SMT theory; the run only verified the declared over-approximation. SPEC §4.3.\n"
              frontier_line (select is_frontier_unknown v.properties)
            <> (bullets
                  " per-run Unknowns or errors** — solver budget exhausted or dispatch failure, not a frontier-template structural issue (SPEC §4.3 distinction):\n"
                  per_run_line (select is_per_run_unknown v.properties)
                <> (bullets
                      " document-only templates** — no SMT encoding ships; these are named in the catalog for awareness only.\n"
                      (λ (d : DocumentOnlyTemplate).
                        "    - `" <> (d.id <> ("` — " <> (d.name <> "\n"))))
                      v.document_only_templates
                    <> (bullets
                          " attack-catalog templates failed synthesis** — the LLM could not render a check_ function for the template against this contract surface:\n"
                          (λ (f : PerTemplateFailureSummary).
                            "    - `" <> (f.template_id <> ("` — " <> (f.reason <> "\n"))))
                          v.per_template_failures
                        <> (when (not (lists_something v))
                              "_All selected oracles produced verdicts; no skipped templates, frontier Unknowns, or deferred sources to report._\n"
                            <> (when (in_scope headline) scope_note <> "\n")))))))
