-- ===== src/Report/Sections/Markdown.antt =====
-- The whole Markdown report (crates/vergil-cli/src/output/verdict.rs, `report_md`).
pub mod Scope
use vergil.Prelude.{
  String, Bool, true, false, Option, none, some, List, [], ◌∷◌, ◌<>◌, length, select, to_string,
}
use vergil.Report.{
  PropertyOutcome, LowConfidencePrimitiveSummary, PrimitiveClassificationSummary,
  LowConfidenceStructuralSummary, StratifiedInputs, headline_text, VerdictOutput, is_refuted,
  is_verified,
}
use vergil.Report.Sections.{
  concat, join_or_none, when_some, bool_text, render_proven_property, render_refuted_property,
  render_not_checked,
}

classification : PrimitiveClassificationSummary → String
classification c =
    "Suggested classification: "
    <> (c.top
        <> (" ("
            <> (c.top_confidence
                <> (") — signals: "
                    <> (c.top_signals
                        <> ("\n"
                            <> concat
                                (λ (low : LowConfidencePrimitiveSummary).
                                  "  · also considered: "
                                  <> (low.primitive
                                      <> (" ("
                                          <> (low.confidence
                                              <> (") — " <> (low.signals <> "\n"))))))
                                c.low_confidence))))))

header : VerdictOutput → String
unfolding classification
header out =
    let v = out.inputs in
    let oracles = v.fingerprint.available_oracles in
    concat (λ (s : String). s)
      ("# Vergil verdict\n\n"
        ∷ "**Headline:** "
        ∷ headline_text out.headline
        ∷ "\n\n"
        ∷ "Project: `"
        ∷ v.project_path
        ∷ "`\n"
        ∷ "Interfaces: "
        ∷ join_or_none v.fingerprint.interfaces
        ∷ "\n"
        ∷ "Primitives: "
        ∷ join_or_none v.fingerprint.primitives
        ∷ "\n"
        ∷ "Oracles available: tests="
        ∷ bool_text oracles.tests
        ∷ " natspec="
        ∷ bool_text oracles.natspec
        ∷ " readme="
        ∷ bool_text oracles.readme
        ∷ "\n"
        ∷ when_some v.primitive_classification classification
        ∷ "\n"
        ∷ [])

-- A section that says so when it has no property.
section : String → String → (PropertyOutcome → String) → List PropertyOutcome → String
section title nothing f [] = "## " <> (title <> (" (0)\n\n" <> nothing))
section title nothing f (p ∷ ps) =
    "## " <> (title <> (" (" <> (to_string (length (p ∷ ps)) <> (")\n\n" <> concat f (p ∷ ps)))))

suggestion : LowConfidenceStructuralSummary → String
suggestion f =
    "- **"
    <> (f.miner
        <> ("** (confidence "
            <> (f.confidence
                <> (")"
                    <> (when_some f.fn_or_var (λ t. " `" <> (t <> "`"))
                        <> (": " <> (f.description <> "\n")))))))

suggestions : List LowConfidenceStructuralSummary → String
unfolding suggestion
suggestions [] = ""
suggestions (f ∷ fs) =
    "## Suggested additional invariants ("
    <> (to_string (length (f ∷ fs))
        <> (")\n\n_Mined by structural analysis at low confidence; NOT auto-verified. Review and promote to a manual intent if you want them in the next run._\n\n"
            <> (concat suggestion (f ∷ fs) <> "\n")))

reproduce : String → String
reproduce project_path =
    "## Reproduce\n\nRe-verify independently via `vergil prove "
    <> (project_path
        <> "/vergil-out/proof.json`. SMT queries are re-dispatched through the alternate solver (cvc5 by default; override with `--solver z3` / `--solver bitwuzla`). No LLM is invoked on the re-check path.\n")

pub report_md : VerdictOutput → String
unfolding header section suggestions reproduce
report_md out =
    let v = out.inputs in
    header out
    <> (section "Proven" "_No properties verified in this run._\n\n" render_proven_property
          (select is_verified v.properties)
        <> (section "Refuted" "_No counterexamples found._\n\n" render_refuted_property
              (select is_refuted v.properties)
            <> (suggestions v.low_confidence_structural
                <> ("## Not checked\n\n"
                    <> (render_not_checked v out.headline <> reproduce v.project_path)))))
