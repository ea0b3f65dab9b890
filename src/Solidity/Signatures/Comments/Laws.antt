-- ===== src/Solidity/Signatures/Comments/Laws.antt =====
-- What the positions of `project_index` mean (crates/vergil-solidity/src/signatures.rs).
use mathlib.Core.Path.{subst}
use vergil.Prelude.{
  ℕ, zero, suc, ◌+◌, ◌<◌, ◌≡◌, refl, sym, ap, ◌∙◌, inl, inr, Bool, true, false, ◌&&◌, Option, some,
  [], ◌∷◌, arith, ltb, ◌==◌, Bool-cases, ==_iff, all, All,
}
use vergil.Prelude.Chars.{Text}
use vergil.Solidity.Signatures.Comments.{
  Place, code, line, opening, opened, block, closing, next, is_shown, push, strip_from,
  strip_comments, overshoot, at_loop_head, project_from, project_index,
}

abbrev pub drop : ℕ → Text → Text
drop zero s = s
drop (suc n) [] = []
drop (suc n) (c ∷ s) = drop n s

-- Every byte is below 128.
abbrev pub IsAscii : Text → Type 0
IsAscii s = All (λ c. c < 128) s

-- The Boolean test decides it.
pub all-IsAscii : (s : Text) → all (λ c. ltb c 128) s ≡ true → IsAscii s
all-IsAscii [] h = tt
all-IsAscii (c ∷ s) h = elim (Bool-cases (ltb c 128)) [
  | inl y ↦ (ground (arith, y), all-IsAscii s (rw y at h))
  | inr n ↦ cc (rw n at h)
]

drop-nil : (n : ℕ) → drop n [] ≡ []
drop-nil zero = refl
drop-nil (suc n) = refl

pub push-ascii : (c : ℕ) (out : Text) → c < 128 → push c out ≡ c ∷ out
unfolding push
push-ascii c out h = ground arith

-- Where the outer loop runs, the rest is stripped as a text of its own.
restarts :
    (p : Place) (c : ℕ) (s : Text)
    → at_loop_head p c ≡ true
    → strip_from p (c ∷ s) ≡ strip_from code (c ∷ s)
unfolding at_loop_head strip_from next is_shown
restarts code c s h = refl
restarts line c s h = rw ((==_iff c 10).0 h) refl
restarts opening c s h = cc h
restarts opened c s h = cc h
restarts block c s h = cc h
restarts closing c s h = cc h

-- `d` bytes of the source are behind the first `left` bytes of what is stripped.
abbrev pub IsBehind : Place → Text → (left d : ℕ) → Type 0
IsBehind p s left d = drop left (strip_from p s) ≡ strip_from code (drop d s)

abbrev Reached : Place → Text → (left i r : ℕ) → Type 0
Reached p s left i r = (d : ℕ) × (r ≡ i + d) × IsBehind p s left d

step_shown :
    (p : Place) (c : ℕ) (s : Text) (left i r : ℕ)
    → c < 128
    → is_shown p c s ≡ true
    → Reached (next p c s) s left (suc i) r
    → Reached p (c ∷ s) (suc left) i r
unfolding strip_from
step_shown p c s left i r a h (d, e, f) =
    (suc d, omega (arith, e), rw (h, push-ascii c (strip_from (next p c s) s) a) f)

step_hidden :
    (p : Place) (c : ℕ) (s : Text) (left i r : ℕ)
    → is_shown p c s ≡ false
    → Reached (next p c s) s left (suc i) r
    → Reached p (c ∷ s) left i r
unfolding strip_from
step_hidden p c s left i r h (d, e, f) = (suc d, omega (arith, e), rw h f)

and_false : (b : Bool) → (b && false) ≡ false
and_false true = refl
and_false false = refl

not_yet : (n l : ℕ) → (n == n + suc l) ≡ false
not_yet n l = ground arith

shift : (n l : ℕ) → n + suc l ≡ suc n + l
shift n l = omega arith

zero_plus : (k : ℕ) → k ≡ 0 + k
zero_plus k = omega arith

now : (n : ℕ) → (n == n + 0) ≡ true
now n = ground arith

here : (i r : ℕ) → some i ≡ some r → r ≡ i + 0
here i r e = ground arith

hidden-not_head : (p : Place) (c : ℕ) (s : Text) → at_loop_head p c ≡ false → is_shown p c s ≡ false
unfolding is_shown at_loop_head
hidden-not_head code c s h = cc h
hidden-not_head line c s h = h
hidden-not_head opening c s h = h
hidden-not_head opened c s h = h
hidden-not_head block c s h = h
hidden-not_head closing c s h = h

some-injective : {A : Type 0} {a b : A} {o : Option A} → o ≡ some a → o ≡ some b → b ≡ a
some-injective e f = cc (e, f)

projected :
    (p : Place) (s : Text)
    → IsAscii s
    → (left i n r : ℕ) → project_from p s (n + left) i n ≡ some r
    → Reached p s left i r
unfolding project_from strip_from
projected p [] a left i n r e = elim (Bool-cases (n == n + left)) [
  | inl y ↦ (
    overshoot p,
    some-injective refl (rw y at e),
    rw (drop-nil (overshoot p), drop-nil left) refl,
  )
  | inr m ↦ cc (rw m at e)
]
projected p (c ∷ s) (a, later) zero i n r e = elim (Bool-cases (at_loop_head p c)) [
  | inl h ↦ (0, here i r (rw (h, now n) at e), restarts p c s h)
  | inr h ↦
      let hidden = hidden-not_head p c s h in
      step_hidden p c s zero i r hidden
        (projected (next p c s) s later zero (suc i) n r (rw (h, hidden) at e))
]
projected p (c ∷ s) (a, later) (suc left) i n r e = elim (Bool-cases (is_shown p c s)) [
  | inl h ↦ step_shown p c s left i r a h (
      projected (next p c s) s later left (suc i) (suc n) r
        (rw (not_yet n left, and_false (at_loop_head p c), h, shift n left) at e))
  | inr h ↦ step_hidden p c s (suc left) i r h (
      projected (next p c s) s later (suc left) (suc i) n r
        (rw (not_yet n left, and_false (at_loop_head p c), h) at e))
]

-- For an ASCII source, the position that `project_index` finds for a position of the stripped text
-- has the same code behind it: stripping the source from there gives the stripped text from its own
-- position on.
pub project_index-IsBehind :
    (source : Text) (stripped_idx i : ℕ)
    → IsAscii source
    → project_index source stripped_idx ≡ some i
    → drop stripped_idx (strip_comments source) ≡ strip_comments (drop i source)
unfolding project_index strip_comments
project_index-IsBehind source k i a e =
    let (d, r, f) =
      projected code source a k 0 0 i
        (subst (λ j. project_from code source j 0 0 ≡ some i) (zero_plus k) e) in
    f ∙ ap (λ j. strip_from code (drop j source)) (sym (r ∙ sym (zero_plus d)))
