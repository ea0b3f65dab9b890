-- ===== src/Rendering/Laws.antt =====
-- How the renderer takes a template apart, marker by marker.
use vergil.Prelude.{
  ℕ, zero, suc, ◌≤◌, ◌≡◌, refl, sym, ap, inl, inr, Bool, false, none, some, [], ◌∷◌, ◌++◌, arith,
  ◌==◌, Bool-cases, Option-cases, Result-cases, length, any, ok, err, ◌>>=◌, ok_or,
}
use vergil.Prelude.Chars.{
  Text, codes, strip_prefix, strip_prefix-append, split_first, length-split_first, trim,
}
use vergil.Rendering.{
  RenderContext, RenderError, Failures, substitute, get, render, render_loop, append_ok,
  undefined_variable, unterminated,
}

-- Whether a text has the character.
abbrev pub has : ℕ → Text → Bool
has p s = any (λ c. p == c) s

-- A pattern is found behind a text without its first character.
split_first-append :
    (p : ℕ) (ps before after : Text)
    → has p before ≡ false
    → split_first (p ∷ ps) (before ++ (p ∷ ps) ++ after) ≡ some (before, after)
unfolding split_first strip_prefix
split_first-append p ps [] after h = rw (split_first, strip_prefix-append (p ∷ ps) after) refl
split_first-append p ps (c ∷ before) after h = elim (Bool-cases (p == c)) [
  | inl e ↦ absurd (cc (rw (e) at h))
  | inr e ↦
      rw (split_first, strip_prefix, e, split_first-append p ps before after (rw (e) at h)) refl
]

split_first-none : (p : ℕ) (ps s : Text) → has p s ≡ false → split_first (p ∷ ps) s ≡ none
unfolding split_first strip_prefix
split_first-none p ps [] h = refl
split_first-none p ps (c ∷ s) h = elim (Bool-cases (p == c)) [
  | inl e ↦ absurd (cc (rw (e) at h))
  | inr e ↦ rw (split_first, strip_prefix, e, split_first-none p ps s (rw (e) at h)) refl
]

module _ {E : Type 0} (failures : Failures E) (ctx : RenderContext) where
  nothing_left : (fuel : ℕ) → render_loop failures ctx fuel [] ≡ ok []
  unfolding render_loop split_first strip_prefix
  nothing_left zero = refl
  nothing_left (suc fuel) = refl

  -- More fuel than the length of the text changes nothing.
  render_loop-enough :
      (fuel more : ℕ) (s : Text)
      → length s ≤ fuel
      → length s ≤ more
      → render_loop failures ctx fuel s ≡ render_loop failures ctx more s
  unfolding render_loop substitute append_ok
  render_loop-enough zero zero s h k = refl
  render_loop-enough zero (suc more) [] h k = sym (nothing_left (suc more))
  render_loop-enough (suc fuel) zero [] h k = nothing_left (suc fuel)
  render_loop-enough zero (suc more) (c ∷ s) h k = absurd (omega (arith, h))
  render_loop-enough (suc fuel) zero (c ∷ s) h k = absurd (omega (arith, k))
  render_loop-enough (suc fuel) (suc more) s h k =
      elim (Option-cases (split_first (codes "{{") s)) [
        | inl e ↦ rw (render_loop, e) refl
        | inr ((a, b), e) ↦ elim (Option-cases (split_first (codes "}}") b)) [
          | inl m ↦ rw (render_loop, e, substitute, m) refl
          | inr ((name, t), m) ↦ elim (Option-cases (get (trim name) ctx)) [
            | inl g ↦ rw (render_loop, e, substitute, m, g) refl
            | inr (v, g) ↦
                let opened = length-split_first b'{' (codes "{") s a b e in
                let closed = length-split_first b'}' (codes "}") b name t m in
                rw (render_loop, e, substitute, m, g)
                  (ap (append_ok (a ++ v)) (
                    render_loop-enough fuel more t (omega (arith, h, opened, closed))
                      (omega (arith, k, opened, closed))))
          ]
        ]
      ]

  -- A text without a brace is its own rendering.
  render_loop-plain :
      (fuel : ℕ) (s : Text) → has b'{' s ≡ false → render_loop failures ctx fuel s ≡ ok s
  unfolding render_loop
  render_loop-plain zero s h = refl
  render_loop-plain (suc fuel) s h = rw (render_loop, split_first-none b'{' (codes "{") s h) refl

  render_loop-open :
      (fuel : ℕ) (s a b : Text)
      → split_first (codes "{{") s ≡ some (a, b)
      → has b'}' b ≡ false
      → length s ≤ fuel
      → render_loop failures ctx fuel s ≡ err (failures.open_marker s)
  unfolding render_loop substitute
  render_loop-open zero s a b e h l =
      absurd (omega (arith, l, length-split_first b'{' (codes "{") s a b e))
  render_loop-open (suc fuel) s a b e h l =
      rw (render_loop, e, substitute, split_first-none b'}' (codes "}") b h) refl

  -- One marker: the key is looked up and the rest is rendered.
  render_loop-marker :
      (fuel : ℕ) (s a b name t : Text)
      → split_first (codes "{{") s ≡ some (a, b)
      → split_first (codes "}}") b ≡ some (name, t)
      → length s ≤ fuel
      → render_loop failures ctx fuel s ≡ (
          ok_or (get (trim name) ctx) (failures.missing (trim name)) >>= λ v.
          render_loop failures ctx (length t) t >>= λ out. ok (a ++ v ++ out))
  unfolding render_loop substitute append_ok
  render_loop-marker zero s a b name t e m l =
      absurd (omega (arith, l, length-split_first b'{' (codes "{") s a b e))
  render_loop-marker (suc fuel) s a b name t e m l =
      let opened = length-split_first b'{' (codes "{") s a b e in
      let closed = length-split_first b'}' (codes "}") b name t m in
      let rest =
        render_loop-enough fuel (length t) t (omega (arith, l, opened, closed)) (omega arith) in
      elim (Option-cases (get (trim name) ctx)) [
        | inl g ↦ rw (render_loop, e, substitute, m, g) refl
        | inr (v, g) ↦ elim (Result-cases (render_loop failures ctx (length t) t)) [
          | inl (out, o) ↦ rw (render_loop, e, substitute, m, g, rest, o, append_ok) refl
          | inr (x, o) ↦ rw (render_loop, e, substitute, m, g, rest, o, append_ok) refl
        ]
      ]

-- The text before the first marker holds no opening brace and the key no closing one. Then the text
-- alone renders to itself; with a marker that is not closed behind it, rendering fails as
-- unterminated; and with a closed marker, rendering fails with the trimmed key when that is not bound,
-- and otherwise gives the text and the value as they are, followed by the rendering of what is behind
-- the marker.
pub render-ByMarker :
    (ctx : RenderContext) (before key after : Text)
    → has b'{' before ≡ false
    → has b'}' key ≡ false
    → (render before ctx ≡ ok before)
      × (render (before ++ codes "{{" ++ key) ctx ≡ err unterminated)
      × (render (before ++ codes "{{" ++ (key ++ codes "}}" ++ after)) ctx ≡ (
          ok_or (get (trim key) ctx) (undefined_variable (trim key)) >>= λ v.
          render after ctx >>= λ out. ok (before ++ v ++ out)))
unfolding render
render-ByMarker ctx before key after h k =
    let failures : Failures RenderError = record {
      missing = undefined_variable;
      open_marker = λ _. unterminated;
    } in
    let behind = key ++ codes "}}" ++ after in
    let found = split_first-append b'{' (codes "{") before in
    (
      render_loop-plain failures ctx (length before) before h,
      render_loop-open failures ctx (length (before ++ codes "{{" ++ key))
          (before ++ codes "{{" ++ key) before key (found key h) k (omega arith),
      render_loop-marker failures ctx (length (before ++ codes "{{" ++ behind))
          (before ++ codes "{{" ++ behind) before behind key after (found behind h)
          (split_first-append b'}' (codes "}") key after k) (omega arith),
    )
