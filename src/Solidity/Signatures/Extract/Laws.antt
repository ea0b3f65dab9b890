-- ===== src/Solidity/Signatures/Extract/Laws.antt =====
-- What `extract` records (crates/vergil-solidity/src/signatures.rs).
use vergil.Prelude.{
  ◌≤◌, arith, length, ℕ, zero, suc, ◌≤◌, ◌≡◌, refl, ◌⊎◌, inl, inr, true, false, Option, none, some,
  List, [], ◌∷◌, ◌++◌, arith, Bool-cases, Option-cases, length, all, All,
}
use vergil.Prelude.Chars.{Text, codes, contains, split_first}
use vergil.Solidity.Signatures.{is_ident, span_ident, match_paren}
use vergil.Solidity.Signatures.Comments.{peek, strip_comments}
use vergil.Solidity.Signatures.Extract.Declared.{IsDeclared, extract_loop-AllDeclared}
use vergil.Solidity.Signatures.Extract.Fuel.{extract_loop-enough}
use vergil.Solidity.Signatures.Extract.{
  FunctionSignature, is_skipped, skip_whitespace, find_mods, signature, with_visibility, scan_mods,
  scan_args, scan_name, scan_function, record_signature, extract_loop, extract,
}

-- A function that the synthesizer may call: a name of identifier characters that is not a
-- constructor's or a special function's, and an external or public visibility.
abbrev pub IsCallable : FunctionSignature → Type 0
IsCallable f =
    (all is_ident f.name ≡ true)
    × (is_skipped f.name ≡ false)
    × ((f.visibility ≡ codes "external") ⊎ (f.visibility ≡ codes "public"))

-- What one pass records, if it records anything, is callable.
abbrev Found : Option FunctionSignature → Type 0
Found none = Unit {0}
Found (some f) = IsCallable f

span_ident-all : (s : Text) → all is_ident (span_ident s).0 ≡ true
unfolding span_ident
span_ident-all [] = refl
span_ident-all (c ∷ s) = elim (Bool-cases (is_ident c)) [
  | inl y ↦ rw (y, y) (span_ident-all s)
  | inr n ↦ rw (n) refl
]

with_visibility-Found :
    (name args mods : Text)
    → all is_ident name ≡ true
    → is_skipped name ≡ false
    → Found (with_visibility name args mods)
unfolding with_visibility signature
with_visibility-Found name args mods i k = elim (Bool-cases (contains (codes "external") mods)) [
  | inl y ↦ rw (y) (i, k, inl refl)
  | inr n ↦ elim (Bool-cases (contains (codes "public") mods)) [
    | inl y ↦ rw (n, y) (i, k, inr refl)
    | inr m ↦ rw (n, m) tt
  ]
]

scan_mods-Found :
    (name args rest : Text) (mods : Option (Text × Text))
    → all is_ident name ≡ true
    → is_skipped name ≡ false
    → Found (scan_mods name args rest mods).0
unfolding scan_mods
scan_mods-Found name args rest none i k = with_visibility-Found name args [] i k
scan_mods-Found name args rest (some (mods, block)) i k = with_visibility-Found name args mods i k

scan_args-Found :
    (name s : Text) (closed : Option (Text × Text))
    → all is_ident name ≡ true
    → is_skipped name ≡ false
    → Found (scan_args name s closed).0
unfolding scan_args
scan_args-Found name s none i k = tt
scan_args-Found name s (some (upto, rest)) i k =
    scan_mods-Found name (upto ++ codes ")") rest (find_mods 0 rest) i k

scan_name-Found : (name rest : Text) → all is_ident name ≡ true → Found (scan_name name rest).0
unfolding scan_name
scan_name-Found name rest i = elim (Bool-cases (is_skipped name)) [
  | inl y ↦ rw (y) tt
  | inr n ↦ elim (Bool-cases (peek b'(' (skip_whitespace rest))) [
    | inl y ↦
        let s = skip_whitespace rest in rw (n, y) (scan_args-Found name s (match_paren 0 s) i n)
    | inr m ↦ rw (n, m) tt
  ]
]

recorded :
    (found : Option FunctionSignature) (out : List FunctionSignature)
    → Found found
    → All IsCallable out
    → All IsCallable (record_signature found out)
unfolding record_signature
recorded none out h hs = hs
recorded (some f) out h hs = (h, hs)

extract_loop-AllCallable : (fuel : ℕ) (s : Text) → All IsCallable (extract_loop fuel s)
unfolding extract_loop scan_function
extract_loop-AllCallable zero s = tt
extract_loop-AllCallable (suc fuel) s = elim (Option-cases (split_first (codes "function ") s)) [
  | inl e ↦ rw (All, e) tt
  | inr (p, e) ↦
      let (name, rest) = span_ident p.1 in
      rw (All, e)
        (recorded (scan_function p.1).0 (extract_loop fuel (scan_function p.1).1)
          (scan_name-Found name rest (span_ident-all p.1))
          (extract_loop-AllCallable fuel (scan_function p.1).1))
]

-- Every signature that `extract` returns has a name of identifier characters that is not empty and not
-- `constructor`, `receive` or `fallback`, and is external or public; and the stripped source declares
-- it so: somewhere stand `function `, the name, white space, the arguments and then modifiers, up to
-- the first brace or semicolon outside parentheses, that contain the visibility, where external goes
-- before public. The loop has ended: no larger fuel than the length of the stripped text finds another
-- signature.
pub extract-AllCallable :
    (source : Text) (fuel : ℕ)
    → length (strip_comments source) ≤ fuel
    → All IsCallable (extract source)
      × All (IsDeclared (strip_comments source)) (extract source)
      × (extract_loop fuel (strip_comments source) ≡ extract source)
unfolding extract
extract-AllCallable source fuel h =
    let stripped = strip_comments source in
    (
      extract_loop-AllCallable (length stripped) stripped,
      extract_loop-AllDeclared (length stripped) stripped [] stripped refl,
      extract_loop-enough fuel (length stripped) stripped h (omega arith),
    )
