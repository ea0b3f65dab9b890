-- ===== src/Report/Sections/Markdown/Scope.antt =====
-- What the report always says about its scope (crates/vergil-cli/src/output/verdict.rs).
use text.Mathlib.TextLemmas.{append_assoc, nil-append}
use vergil.Prelude.{◌≡◌, ap, ◌∙◌, sym, String, ◌<>◌}
use vergil.Report.{StratifiedInputs, verified_in_scope, format_verdict}
use vergil.Report.Sections.{render_not_checked, when, in_scope, scope_note}
use vergil.Report.Sections.Markdown.{report_md}

-- The text `t` stands in the text `s`.
abbrev pub Contains : String → String → Type 0
Contains s t = (before : String) × (after : String) × (s ≡ before <> (t <> after))

Contains-right : (u s t : String) → Contains s t → Contains (u <> s) t
Contains-right u s t (a, b, e) = (u <> a, b, ap (λ x. u <> x) e ∙ sym (append_assoc u a (t <> b)))

Contains-left : (s u t : String) → Contains s t → Contains (s <> u) t
Contains-left s u t (a, b, e) = (
  a,
  b <> u,
  ap (λ x. x <> u) e ∙ (append_assoc a (t <> b) u ∙ ap (λ x. a <> x) (append_assoc t b u)),
)

Contains-self : (t u : String) → Contains (t <> u) t
Contains-self t u = ("", u, sym (nil-append (t <> u)))

not_checked-Contains :
    (v : StratifiedInputs) → Contains (render_not_checked v verified_in_scope) scope_note
unfolding render_not_checked when in_scope
not_checked-Contains v = Contains-right _ _ _ (
    Contains-right _ _ _ (
      Contains-right _ _ _ (
        Contains-right _ _ _ (
          Contains-right _ _ _
            (Contains-right _ _ _ (Contains-right _ _ _ (Contains-self scope_note "\n")))))))

-- A report with the headline Verified-in-scope has the note that the contract is not thereby safe.
pub report_md-scope :
    (inputs : StratifiedInputs)
    → (format_verdict inputs).headline ≡ verified_in_scope
    → Contains (report_md (format_verdict inputs)) scope_note
unfolding report_md format_verdict
report_md-scope inputs e = Contains-right _ _ _ (
    Contains-right _ _ _ (
      Contains-right _ _ _ (
        Contains-right _ _ _
          (Contains-right _ _ _ (Contains-left _ _ _ (rw e (not_checked-Contains inputs)))))))
