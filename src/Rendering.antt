-- ===== src/Rendering.antt =====
-- Templates with `{{ key }}` markers: the renderer of attack templates
-- (crates/vergil-properties/src/template_render.rs) and that of prompts
-- (crates/vergil-llm/src/prompts.rs). Texts are lists of code points.
use vergil.Prelude.{
  ℕ, zero, suc, String, Option, none, some, List, [], ◌∷◌, ◌++◌, if◌then◌else◌, length, Result, ok,
  err, ◌>>=◌,
}
use vergil.Prelude.Chars.{Text, codes, eqb, contains, split_first, trim}
pub mod Laws
pub mod Examples

-- The variables, the latest binding first: `BTreeMap::insert` replaces an earlier one.
abbrev pub RenderContext : Type 0
RenderContext = List (Text × Text)

unfoldable pub new : RenderContext
new = []

unfoldable pub set : Text → Text → RenderContext → RenderContext
set k v ctx = (k, v) ∷ ctx

unfoldable pub insert : Text → Text → RenderContext → RenderContext
insert k v ctx = (k, v) ∷ ctx

insert_all : List (Text × Text) → RenderContext → RenderContext
insert_all [] ctx = ctx
insert_all ((k, v) ∷ pairs) ctx = insert_all pairs (insert k v ctx)

unfoldable pub from_pairs : List (Text × Text) → RenderContext
unfolding insert_all
from_pairs pairs = insert_all pairs []

unfoldable pub get : Text → RenderContext → Option Text
get k [] = none
get k ((j, v) ∷ ctx) = if eqb j k then some v else get k ctx

pub data RenderError : Type 0 where
  undefined_variable : Text → RenderError
  unterminated : RenderError

pub data PromptError : Type 0 where
  missing_var : (key : Text) (prompt : String) → PromptError
  unrendered_placeholder : (prompt : String) (text : Text) → PromptError

pub record Prompt : Type 0 where
  pub name : String
  pub body : Text

-- What a loop that substitutes says of a missing key, and of a marker that is not closed.
pub record Failures (E : Type 0) : Type 0 where
  pub missing : Text → E
  pub open_marker : Text → E

unfoldable pub append_ok : {E : Type 0} → Text → Result E Text → Result E Text
append_ok s (ok t) = ok (s ++ t)
append_ok s (err e) = err e

module _ {E : Type 0} (failures : Failures E) (ctx : RenderContext) where
  -- One marker: the text before it, what is between the braces, and how the rest is rendered.
  unfoldable pub substitute :
      (before rest : Text) → Option (Text × Text) → (Text → Result E Text) → Result E Text
  unfolding append_ok
  substitute before rest none render_rest = err (failures.open_marker rest)
  substitute before rest (some (key, after)) render_rest = elim (get (trim key) ctx) [
    | none ↦ err (failures.missing (trim key))
    | some value ↦ append_ok (before ++ value) (render_rest after)
  ]

  -- The loop of both renderers, on fuel.
  unfoldable pub render_loop : (fuel : ℕ) → Text → Result E Text
  unfolding substitute
  render_loop zero rest = ok rest
  render_loop (suc fuel) rest = elim (split_first (codes "{{") rest) [
    | none ↦ ok rest
    | some (before, after) ↦
        substitute before rest (split_first (codes "}}") after) (render_loop fuel)
  ]

unfoldable pub render : Text → RenderContext → Result RenderError Text
render template ctx =
    render_loop record { missing = undefined_variable; open_marker = λ _. unterminated } ctx
      (length template) template

checked : Prompt → Text → Result PromptError Text
checked prompt out =
    if contains (codes "{{") out then err (unrendered_placeholder prompt.name out) else ok out

-- `Prompt::render`
unfoldable pub render_prompt : Prompt → RenderContext → Result PromptError Text
unfolding checked
render_prompt prompt vars =
    render_loop
      record {
        missing = λ key. missing_var key prompt.name;
        open_marker = λ rest. unrendered_placeholder prompt.name rest;
      }
      vars (length prompt.body) prompt.body
    >>= λ out. checked prompt out
