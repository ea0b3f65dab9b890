-- ===== src/Prelude/Chars.antt =====
-- Texts that the program walks: lists of code points, with the operations of `str` that it uses.
use Prim.Native.Nat.{ℕ, ◌+◌, ◌-◌, ◌<◌}
use Prim.Native.Char.{code}
use Prim.Native.String.{String}
use mathlib.Core.Path.{◌≡◌, refl, ap, ◌∙◌}
use mathlib.Core.Logic.{inl, inr}
use mathlib.Core.Bool.{Bool, true, false, ◌&&◌, ◌||◌}
use mathlib.Core.List.{List, [], ◌∷◌, ◌++◌, reverse, map}
use mathlib.Core.Option.{Option, none, some}
use native.Mathlib.Omega.{arith}
use vergil.Prelude.Lists.{length, length-append}
use vergil.Prelude.Tests.{Option-cases, ◌==◌, leb, if◌then◌else◌}

abbrev pub Text : Type 0
Text = List ℕ

-- The code points of a literal.
abbrev pub codes : String → Text
codes String.[] = []
codes (String.◌∷◌ c s) = code c ∷ codes s

unfoldable pub eqb : Text → Text → Bool
eqb [] [] = true
eqb (a ∷ s) (b ∷ t) = (a == b) && eqb s t
eqb _ _ = false

pub eqb→eq : (s t : Text) → eqb s t ≡ true → s ≡ t
unfolding eqb
eqb→eq [] [] h = refl
eqb→eq (a ∷ s) (b ∷ t) h = ground (arith, eqb→eq s t)
eqb→eq [] (b ∷ t) h = ground arith
eqb→eq (a ∷ s) [] h = ground arith

pub eqb_refl : (s : Text) → eqb s s ≡ true
unfolding eqb
eqb_refl [] = refl
eqb_refl (a ∷ s) = ground (arith, eqb_refl s)

-- `str::strip_prefix`
unfoldable pub strip_prefix : Text → Text → Option Text
strip_prefix [] s = some s
strip_prefix (p ∷ ps) [] = none
strip_prefix (p ∷ ps) (c ∷ s) = if p == c then strip_prefix ps s else none

pub strip_prefix-append : (p s : Text) → strip_prefix p (p ++ s) ≡ some s
unfolding strip_prefix
strip_prefix-append [] s = refl
strip_prefix-append (c ∷ p) s = ground (arith, strip_prefix-append p s)

pub strip_prefix-eq-some : (p s : Text) {r : Text} → strip_prefix p s ≡ some r → s ≡ p ++ r
unfolding strip_prefix
strip_prefix-eq-some [] s h = ground arith
strip_prefix-eq-some (c ∷ p) [] h = ground arith
strip_prefix-eq-some (c ∷ p) (d ∷ s) {r = r} h = ground (arith, strip_prefix-eq-some p s {r = r})

-- `char::is_whitespace`
unfoldable pub is_whitespace : ℕ → Bool
is_whitespace c =
    leb 9 c && leb c 13
    || (c == 32)
    || (c == 0x85)
    || (c == 0xa0)
    || (c == 0x1680)
    || leb 0x2000 c && leb c 0x200a
    || (c == 0x2028)
    || (c == 0x2029)
    || (c == 0x202f)
    || (c == 0x205f)
    || (c == 0x3000)

unfoldable pub trim_start : Text → Text
trim_start [] = []
trim_start (c ∷ s) = let rest = trim_start s in if is_whitespace c then rest else c ∷ s

-- `str::trim`
unfoldable pub trim : Text → Text
unfolding trim_start is_whitespace
trim s = reverse (trim_start (reverse (trim_start s)))

lower : ℕ → ℕ
lower c = if leb b'A' c && leb c b'Z' then c + 32 else c

-- `str::to_ascii_lowercase`
unfoldable pub to_ascii_lowercase : Text → Text
unfolding lower
to_ascii_lowercase s = map lower s

upper : ℕ → ℕ
upper c = if leb b'a' c && leb c b'z' then c - 32 else c

-- `str::to_ascii_uppercase`
unfoldable pub to_ascii_uppercase : Text → Text
unfolding upper
to_ascii_uppercase s = map upper s

-- `str::starts_with`
unfoldable pub starts_with : Text → Text → Bool
starts_with [] s = true
starts_with (p ∷ ps) [] = false
starts_with (p ∷ ps) (c ∷ s) = (p == c) && starts_with ps s

-- `str::contains`
unfoldable pub contains : Text → Text → Bool
contains pat [] = starts_with pat []
contains pat (c ∷ s) = starts_with pat (c ∷ s) || contains pat s

-- `str::ends_with`
unfoldable pub ends_with : Text → Text → Bool
ends_with pat s = starts_with (reverse pat) (reverse s)

-- The text before and after the first occurrence of a pattern: `find` and the two slices.
unfoldable pub split_first : Text → Text → Option (Text × Text)
split_first pat [] = elim (strip_prefix pat []) [ none ↦ none | some r ↦ some ([], r) ]
split_first pat (c ∷ s) = elim (strip_prefix pat (c ∷ s)) [
  | some r ↦ some ([], r)
  | none ↦ elim (split_first pat s) [ none ↦ none | some (a, b) ↦ some (c ∷ a, b) ]
]

same_rest :
    {o : Option (Text × Text)} {a b c d : Text}
    → o ≡ some (a, b)
    → o ≡ some (c, d)
    → length b ≡ length d
same_rest e f = ap length (cc (e, f))

length-strip_prefix : (p s r : Text) → strip_prefix p s ≡ some r → length s ≡ length p + length r
length-strip_prefix p s r e = ap length (strip_prefix-eq-some p s e) ∙ length-append p r

-- What follows a pattern is shorter than the text it was found in.
pub length-split_first :
    (p : ℕ) (pat s a b : Text) → split_first (p ∷ pat) s ≡ some (a, b) → length b < length s
unfolding split_first strip_prefix
length-split_first p pat [] a b e = cc e
length-split_first p pat (c ∷ s) a b e = elim (Option-cases (strip_prefix (p ∷ pat) (c ∷ s))) [
  | inl n ↦ elim (Option-cases (split_first (p ∷ pat) s)) [
    | inl m ↦ cc (rw (split_first, n, m) at e)
    | inr ((q, r), m) ↦
        omega
          (arith, length-split_first p pat s q r m, same_rest refl (rw (split_first, n, m) at e))
  ]
  | inr (r, y) ↦
      omega (
        arith,
        length-strip_prefix (p ∷ pat) (c ∷ s) r y,
        same_rest refl (rw (split_first, y) at e),
      )
]

attach : ℕ → List Text → List Text
attach c [] = (c ∷ []) ∷ []
attach c (l ∷ ls) = (c ∷ l) ∷ ls

opens_line_feed : Text → Bool
opens_line_feed [] = false
opens_line_feed (c ∷ s) = c == 10

-- `str::lines`: the texts between line feeds, without a carriage return before the line feed.
unfoldable pub lines : Text → List Text
unfolding attach opens_line_feed
lines [] = []
lines (c ∷ s) =
    let rest = lines s in
    if c == 10 then [] ∷ rest else if (c == 13) && opens_line_feed s then rest else attach c rest

lines_crlf : lines (codes "a\n\nb\n") ≡ codes "a" ∷ [] ∷ codes "b" ∷ []
unfolding lines
lines_crlf = refl

trim_both : trim (codes "  unsat ") ≡ codes "unsat"
unfolding trim reverse
trim_both = refl
