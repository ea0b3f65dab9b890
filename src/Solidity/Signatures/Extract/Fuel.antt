-- ===== src/Solidity/Signatures/Extract/Fuel.antt =====
-- The loop of `extract` ends: the text that is left grows shorter with each pass
-- (crates/vergil-solidity/src/signatures.rs).
use vergil.Prelude.{
  ℕ, zero, suc, ◌≤◌, ◌≡◌, refl, sym, ap, inl, inr, ◌&&◌, ◌||◌, Option, none, some, [], ◌∷◌, ◌++◌,
  arith, ◌==◌, Bool-cases, Option-cases, length,
}
use vergil.Prelude.Chars.{Text, codes, split_first, length-split_first, strip_prefix, is_whitespace}
use vergil.Solidity.Signatures.{is_ident, span_ident, match_paren, prepend_some, deeper, drop_one}
use vergil.Solidity.Signatures.Comments.{peek}
use vergil.Solidity.Signatures.Extract.{
  is_skipped, skip_whitespace, find_mods, push_front, paren_depth, scan_mods, scan_args, scan_name,
  scan_function, record_signature, extract_loop,
}

-- What follows is no longer than `n`.
abbrev FitsIn : ℕ → Option (Text × Text) → Type 0
FitsIn n none = Unit {0}
FitsIn n (some (_, rest)) = length rest ≤ n

FitsIn-suc :
    (n : ℕ) (o : Option (Text × Text)) (c : ℕ) → FitsIn n o → FitsIn (suc n) (prepend_some c o)
unfolding prepend_some
FitsIn-suc n none c h = tt
FitsIn-suc n (some (_, rest)) c h = omega (arith, h)

match_paren-FitsIn : (depth : ℕ) (s : Text) → FitsIn (length s) (match_paren depth s)
unfolding match_paren
match_paren-FitsIn depth [] = tt
match_paren-FitsIn depth (c ∷ s) = elim (Bool-cases ((c == b')') && (depth == 1))) [
  | inl y ↦ rw (y) (omega arith)
  | inr n ↦ rw (n) (
      FitsIn-suc (length s) (match_paren (deeper c depth) s) c
        (match_paren-FitsIn (deeper c depth) s))
]

push_front-FitsIn :
    (n : ℕ) (o : Option (Text × Text)) (c : ℕ) → FitsIn n o → FitsIn (suc n) (push_front c o)
unfolding push_front
push_front-FitsIn n none c h = tt
push_front-FitsIn n (some (_, rest)) c h = omega (arith, h)

find_mods-FitsIn : (depth : ℕ) (s : Text) → FitsIn (length s) (find_mods depth s)
unfolding find_mods
find_mods-FitsIn depth [] = tt
find_mods-FitsIn depth (c ∷ s) = elim (Bool-cases (((c == b'{') || (c == b';')) && (depth == 0))) [
  | inl y ↦ rw (y) (omega arith)
  | inr n ↦ rw (n) (
      push_front-FitsIn (length s) (find_mods (paren_depth c depth) s) c
        (find_mods-FitsIn (paren_depth c depth) s))
]

length-drop_one : (s : Text) → length (drop_one s) ≤ length s
unfolding drop_one
length-drop_one [] = omega arith
length-drop_one (c ∷ s) = omega arith

length-span_ident : (s : Text) → length (span_ident s).1 ≤ length s
unfolding span_ident
length-span_ident [] = omega arith
length-span_ident (c ∷ s) = elim (Bool-cases (is_ident c)) [
  | inl y ↦ rw (y) (omega (arith, length-span_ident s))
  | inr n ↦ rw (n) (omega arith)
]

length-skip_whitespace : (s : Text) → length (skip_whitespace s) ≤ length s
unfolding skip_whitespace
length-skip_whitespace [] = omega arith
length-skip_whitespace (c ∷ s) = elim (Bool-cases (is_whitespace c)) [
  | inl y ↦ rw (y) (omega (arith, length-skip_whitespace s))
  | inr n ↦ rw (n) (omega arith)
]

widened : (o : Option (Text × Text)) (m n : ℕ) → m ≤ n → FitsIn m o → FitsIn n o
widened none m n h f = tt
widened (some (_, rest)) m n h f = omega (arith, h, f)

length-scan_mods :
    (name args rest : Text) (mods : Option (Text × Text)) (n : ℕ)
    → length rest ≤ n
    → FitsIn n mods
    → length (scan_mods name args rest mods).1 ≤ n
unfolding scan_mods
length-scan_mods name args rest none n h f = omega (arith, h, length-drop_one rest)
length-scan_mods name args rest (some (mods, block)) n h f = omega (arith, f, length-drop_one block)

length-scan_args :
    (name s : Text) (closed : Option (Text × Text)) (n : ℕ)
    → length s ≤ n
    → FitsIn n closed
    → length (scan_args name s closed).1 ≤ n
unfolding scan_args
length-scan_args name s none n h f = omega (arith, h, length-drop_one s)
length-scan_args name s (some (upto, rest)) n h f =
    length-scan_mods name (upto ++ codes ")") rest (find_mods 0 rest) n f
      (widened (find_mods 0 rest) (length rest) n f (find_mods-FitsIn 0 rest))

length-scan_name : (name rest : Text) → length (scan_name name rest).1 ≤ length rest
unfolding scan_name
length-scan_name name rest = elim (Bool-cases (is_skipped name)) [
  | inl y ↦ rw (y) (omega arith)
  | inr n ↦
      let s = skip_whitespace rest in
      elim (Bool-cases (peek b'(' s)) [
        | inl y ↦
            let shorter = length-skip_whitespace rest in
            rw (n, y)
              (length-scan_args name s (match_paren 0 s) (length rest) shorter (
                widened (match_paren 0 s) (length s) (length rest) shorter
                  (match_paren-FitsIn 0 s)))
        | inr m ↦ rw (n, m) (length-skip_whitespace rest)
      ]
]

length-scan_function : (after : Text) → length (scan_function after).1 ≤ length after
unfolding scan_function
length-scan_function after =
    let (name, rest) = span_ident after in
    omega (arith, length-scan_name name rest, length-span_ident after)

nothing_left : (fuel : ℕ) → extract_loop fuel [] ≡ []
unfolding extract_loop split_first strip_prefix
nothing_left zero = refl
nothing_left (suc fuel) = refl

pub extract_loop-enough :
    (fuel more : ℕ) (s : Text)
    → length s ≤ fuel
    → length s ≤ more
    → extract_loop fuel s ≡ extract_loop more s
unfolding extract_loop
extract_loop-enough zero zero s h k = refl
extract_loop-enough zero (suc more) [] h k = sym (nothing_left (suc more))
extract_loop-enough (suc fuel) zero [] h k = nothing_left (suc fuel)
extract_loop-enough zero (suc more) (c ∷ s) h k = absurd (omega (arith, h))
extract_loop-enough (suc fuel) zero (c ∷ s) h k = absurd (omega (arith, k))
extract_loop-enough (suc fuel) (suc more) s h k =
    elim (Option-cases (split_first (codes "function ") s)) [
      | inl e ↦ rw (extract_loop, e) refl
      | inr ((a, b), e) ↦
          let shorter = length-split_first b'f' (codes "unction ") s a b e in
          let scanned = length-scan_function b in
          rw (extract_loop, e)
            (ap (record_signature (scan_function b).0) (
              extract_loop-enough fuel more (scan_function b).1 (omega (arith, h, shorter, scanned))
                (omega (arith, k, shorter, scanned))))
    ]
