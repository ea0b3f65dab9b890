-- ===== src/Rendering/Examples.antt =====
-- Tests of the renderers.
use vergil.Prelude.{◌≡◌, refl, some, [], ◌∷◌, ◌++◌, ok, err}
use vergil.Prelude.Chars
use vergil.Prelude.Chars.{Text, codes}
use vergil.Rendering
use vergil.Rendering.Laws.{render-ByMarker}
use vergil.Rendering.{
  RenderContext, new, set, get, from_pairs, render, render_prompt, undefined_variable, unterminated,
  unrendered_placeholder,
}

abbrev vars : RenderContext
vars = set (codes "a") (codes "A") (set (codes "b") (codes "{{") new)

test_order : render (codes "{{a}}-{{ b }}-{{a}}") vars ≡ ok (codes "A-{{-A")
unfolding render Rendering.render_loop Chars.split_first Chars.strip_prefix get set Chars.eqb
    Chars.trim
test_order = refl

test_undefined : render (codes "x {{missing}}") vars ≡ err (undefined_variable (codes "missing"))
unfolding render Rendering.render_loop Chars.split_first Chars.strip_prefix get set Chars.eqb
    Chars.trim new
test_undefined = refl

test_open : render (codes "{{a}}{{x") vars ≡ err unterminated
unfolding render Rendering.render_loop Chars.split_first Chars.strip_prefix get set Chars.eqb
    Chars.trim
test_open = refl

test_last :
    get (codes "a") (from_pairs ((codes "a", codes "1") ∷ (codes "a", codes "2") ∷ []))
    ≡ some (codes "2")
unfolding get from_pairs Rendering.insert Chars.eqb
test_last = refl

test_prompt :
    render_prompt record { name = "p"; body = codes "{{b}}" } vars
    ≡ err (unrendered_placeholder "p" (codes "{{"))
unfolding render_prompt Rendering.render_loop Chars.split_first Chars.strip_prefix get set Chars.eqb
    Chars.trim Chars.contains Chars.starts_with
test_prompt = refl

render-ByMarker_example :
    (render (codes "x ") vars ≡ ok (codes "x "))
    × (render (codes "x " ++ codes "{{" ++ codes " a ") vars ≡ err unterminated)
    × (render (codes "x " ++ codes "{{" ++ (codes " a " ++ codes "}}" ++ codes "{{b}}")) vars
        ≡ ok (codes "x A{{"))
unfolding render Rendering.render_loop Chars.split_first Chars.strip_prefix get set Chars.eqb
    Chars.trim
render-ByMarker_example = render-ByMarker vars (codes "x ") (codes " a ") (codes "{{b}}") refl refl
