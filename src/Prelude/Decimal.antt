-- ===== src/Prelude/Decimal.antt =====
-- Decimal numbers in texts, and texts as native strings.
use Prim.Native.Nat.{ℕ, ◌+◌, ◌-◌, ◌*◌, ◌^◌, compare}
use Prim.Native.Char.{Char, char, nul}
use Prim.Native.String.{String}
use mathlib.Core.Path.{◌≡◌, refl}
use mathlib.Core.Logic.{inl, inr}
use mathlib.Core.Bool.{◌&&◌}
use mathlib.Core.List.{[], ◌∷◌}
use mathlib.Core.Option.{Option, none, some}
use vergil.Prelude.Tests.{if◌then◌else◌, ltb, leb}
use vergil.Prelude.Maps.{Ordering-cases}
use vergil.Prelude.Chars.{Text, codes, eqb, strip_prefix}

digits : Text → ℕ → Option ℕ
digits [] n = some n
digits (c ∷ s) n = if leb b'0' c && leb c b'9' then digits s (n * 10 + (c - b'0')) else none

without_plus : Text → Option Text → Text
without_plus s none = s
without_plus s (some r) = r

-- `str::parse::<u32>`
unfoldable pub parse_u32 : Text → Option ℕ
unfolding digits without_plus
parse_u32 s =
    let t = without_plus s (strip_prefix (codes "+") s) in
    if eqb t []
    then none
    else elim (digits t 0) [ none ↦ none | some n ↦ if ltb n (2 ^ 32) then some n else none ]

-- The character of a code point; the null character for a number that is none.
of_code : ℕ → Char
of_code n = elim (Ordering-cases (compare n 55296)) [
  | inl l ↦ char n (rw l tt)
  | inr (inl e) ↦ nul
  | inr (inr g) ↦ elim (Ordering-cases (compare 57343 n)) [
    | inl l ↦ elim (Ordering-cases (compare n 1114112)) [
      | inl m ↦ char n (rw (g, l, m) tt)
      | inr _ ↦ nul
    ]
    | inr _ ↦ nul
  ]
]

-- The native string of a text.
unfoldable pub of_codes : Text → String
unfolding of_code
of_codes [] = String.[]
of_codes (c ∷ s) = String.◌∷◌ (of_code c) (of_codes s)

of_codes_example : of_codes (codes "0x1é→") ≡ "0x1é→"
unfolding of_codes Ordering-cases
of_codes_example = refl
