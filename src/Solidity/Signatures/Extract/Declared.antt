-- ===== src/Solidity/Signatures/Extract/Declared.antt =====
-- Where the source declares the signatures that `extract` records
-- (crates/vergil-solidity/src/signatures.rs).
use vergil.Prelude.{
  ℕ, zero, suc, ◌-◌, ◌≡◌, refl, sym, ap, ◌∙◌, ◌⊎◌, inl, inr, Bool, true, false, not, ◌&&◌, ◌||◌,
  Option, none, some, List, [], ◌∷◌, ◌++◌, append_assoc, ◌==◌, if◌then◌else◌, Bool-cases,
  Option-cases, ==_iff, all, All,
}
use vergil.Prelude.Chars.{
  Text, codes, contains, starts_with, split_first, strip_prefix, strip_prefix-eq-some,
  is_whitespace,
}
use vergil.Solidity.Signatures.{
  is_ident, prepend, span_ident, match_paren, prepend_some, deeper, drop_one,
}
use vergil.Solidity.Signatures.Comments.{peek}
use vergil.Solidity.Signatures.Extract.{
  FunctionSignature, is_skipped, skip_whitespace, find_mods, push_front, paren_depth, signature,
  with_visibility, scan_mods, scan_args, scan_name, scan_function, record_signature, extract_loop,
}

-- No brace and no semicolon stands outside parentheses.
abbrev pub stays_in : (depth : ℕ) → Text → Bool
stays_in depth [] = true
stays_in depth (c ∷ s) =
    not (((c == b'{') || (c == b';')) && (depth == 0))
    && stays_in (if c == b'(' then suc depth else if c == b')' then depth - 1 else depth) s

-- The visibility that the modifiers name; external goes before public.
abbrev pub IsVisible : (mods visibility : Text) → Type 0
IsVisible mods visibility =
    ((contains (codes "external") mods ≡ true) × (visibility ≡ codes "external"))
    ⊎ ((contains (codes "external") mods ≡ false)
        × (contains (codes "public") mods ≡ true)
        × (visibility ≡ codes "public"))

-- The text is a declaration of the function behind its keyword: the name, white space, the arguments,
-- and the modifiers up to the first brace or semicolon outside parentheses, which name the visibility.
abbrev pub IsAt : Text → FunctionSignature → Type 0
IsAt after f =
    (gap : Text) × (mods : Text) × (rest : Text) × (after
      ≡ f.name ++ (gap ++ (f.args ++ (mods ++ rest))))
    × (all is_whitespace gap ≡ true)
    × (stays_in 0 mods ≡ true)
    × ((peek b'{' rest || peek b';' rest) ≡ true)
    × IsVisible mods f.visibility

-- Somewhere the source has the keyword and then the declaration.
abbrev pub IsDeclared : Text → FunctionSignature → Type 0
IsDeclared source f =
    (before : Text) × (after : Text) × (source ≡ before ++ (codes "function " ++ after))
    × IsAt after f

and_left : (a b : Bool) → (a && b) ≡ true → a ≡ true
and_left true b h = refl
and_left false b h = h

abbrev EndsWith : Text → Text → Type 0
EndsWith s t = (x : Text) × (s ≡ x ++ t)

under : (s x t r : Text) → s ≡ x ++ t → EndsWith t r → EndsWith s r
under s x t r e (y, f) = (x ++ y, e ∙ ap (λ z. x ++ z) f ∙ sym (append_assoc x y r))

drop_one-ends : (s : Text) → EndsWith s (drop_one s)
unfolding drop_one
drop_one-ends [] = ([], refl)
drop_one-ends (c ∷ s) = (c ∷ [], refl)

abbrev Joins : Text → Text → Option (Text × Text) → Type 0
Joins pat s none = Unit {0}
Joins pat s (some (a, b)) = s ≡ a ++ (pat ++ b)

split_first-Joins : (pat s : Text) → Joins pat s (split_first pat s)
unfolding split_first
split_first-Joins pat [] = elim (Option-cases (strip_prefix pat [])) [
  | inl n ↦ rw (split_first, n) tt
  | inr (r, e) ↦ rw (split_first, e) (strip_prefix-eq-some pat [] e)
]
split_first-Joins pat (c ∷ s) = elim (Option-cases (strip_prefix pat (c ∷ s))) [
  | inl n ↦
      let later = split_first-Joins pat s in
      elim (Option-cases (split_first pat s)) [
        | inl m ↦ rw (split_first, n, m) tt
        | inr ((a, b), m) ↦ rw (split_first, n, m) (ap (λ t. c ∷ t) (rw (Joins, m) at later))
      ]
  | inr (r, e) ↦ rw (split_first, e) (strip_prefix-eq-some pat (c ∷ s) e)
]

span_ident-joined : (s : Text) → s ≡ (span_ident s).0 ++ (span_ident s).1
unfolding span_ident prepend
span_ident-joined [] = refl
span_ident-joined (c ∷ s) = elim (Bool-cases (is_ident c)) [
  | inl y ↦ rw (y) (ap (λ t. c ∷ t) (span_ident-joined s))
  | inr n ↦ rw (n) refl
]

skip_whitespace-joined :
    (s : Text) → (gap : Text) × (s ≡ gap ++ skip_whitespace s) × (all is_whitespace gap ≡ true)
unfolding skip_whitespace
skip_whitespace-joined [] = ([], refl, refl)
skip_whitespace-joined (c ∷ s) = elim (Bool-cases (is_whitespace c)) [
  | inl y ↦
      let (gap, e, w) = skip_whitespace-joined s in rw (y) (c ∷ gap, ap (λ t. c ∷ t) e, rw (y) w)
  | inr n ↦ rw (n) ([], refl, refl)
]

abbrev Closes : Text → Option (Text × Text) → Type 0
Closes s none = Unit {0}
Closes s (some (upto, rest)) = s ≡ (upto ++ codes ")") ++ rest

prepend-Closes :
    (c : ℕ) (s : Text) (o : Option (Text × Text)) → Closes s o → Closes (c ∷ s) (prepend_some c o)
unfolding prepend_some
prepend-Closes c s none h = tt
prepend-Closes c s (some (u, r)) h = ap (λ t. c ∷ t) h

match_paren-Closes : (depth : ℕ) (s : Text) → Closes s (match_paren depth s)
unfolding match_paren
match_paren-Closes depth [] = tt
match_paren-Closes depth (c ∷ s) = elim (Bool-cases ((c == b')') && (depth == 1))) [
  | inl y ↦ rw (y) (ap (λ d. d ∷ s) ((==_iff c b')').0 (and_left (c == b')') (depth == 1) y)))
  | inr n ↦
      rw (n) (
        prepend-Closes c s (match_paren (deeper c depth) s) (match_paren-Closes (deeper c depth) s))
]

-- The modifiers and what stands behind them.
abbrev Bounds : (depth : ℕ) → Text → Option (Text × Text) → Type 0
Bounds depth s none = Unit {0}
Bounds depth s (some (mods, rest)) =
    (s ≡ mods ++ rest) × (stays_in depth mods ≡ true) × ((peek b'{' rest || peek b';' rest) ≡ true)

push_front-Bounds :
    (c depth : ℕ) (s : Text) (o : Option (Text × Text))
    → (((c == b'{') || (c == b';')) && (depth == 0)) ≡ false
    → Bounds (paren_depth c depth) s o
    → Bounds depth (c ∷ s) (push_front c o)
unfolding push_front paren_depth
push_front-Bounds c depth s none n h = tt
push_front-Bounds c depth s (some (m, r)) n (e, i, p) = (ap (λ t. c ∷ t) e, rw (n) i, p)

find_mods-Bounds : (depth : ℕ) (s : Text) → Bounds depth s (find_mods depth s)
unfolding find_mods peek
find_mods-Bounds depth [] = tt
find_mods-Bounds depth (c ∷ s) = elim (Bool-cases (((c == b'{') || (c == b';')) && (depth == 0))) [
  | inl y ↦ rw (y) (refl, refl, and_left ((c == b'{') || (c == b';')) (depth == 0) y)
  | inr n ↦ rw (n) (
      push_front-Bounds c depth s (find_mods (paren_depth c depth) s) n
        (find_mods-Bounds (paren_depth c depth) s))
]

-- What one pass records stands at the text, and the search goes on in what follows.
abbrev Recorded : Text → Option FunctionSignature → Type 0
Recorded after none = Unit {0}
Recorded after (some f) = IsAt after f

abbrev Scanned : Text → Option FunctionSignature × Text → Type 0
Scanned after found = Recorded after found.0 × EndsWith after found.1

with_visibility-Recorded :
    (after name gap args mods rest : Text)
    → after ≡ name ++ (gap ++ (args ++ (mods ++ rest)))
    → all is_whitespace gap ≡ true
    → stays_in 0 mods ≡ true
    → (peek b'{' rest || peek b';' rest) ≡ true
    → Recorded after (with_visibility name args mods)
unfolding with_visibility signature
with_visibility-Recorded after name gap args mods rest e w i p =
    elim (Bool-cases (contains (codes "external") mods)) [
      | inl y ↦ rw (with_visibility, y) (gap, mods, rest, e, w, i, p, inl (y, refl))
      | inr n ↦ elim (Bool-cases (contains (codes "public") mods)) [
        | inl y ↦ rw (with_visibility, n, y) (gap, mods, rest, e, w, i, p, inr (n, y, refl))
        | inr m ↦ rw (with_visibility, n, m) tt
      ]
    ]

unmodified : (after name args : Text) → Recorded after (with_visibility name args [])
unfolding with_visibility contains starts_with
unmodified after name args = tt

scan_mods-Scanned :
    (after name gap args rest : Text) (mods : Option (Text × Text))
    → after ≡ name ++ (gap ++ (args ++ rest))
    → all is_whitespace gap ≡ true
    → Bounds 0 rest mods
    → EndsWith after rest
    → Scanned after (scan_mods name args rest mods)
unfolding scan_mods
scan_mods-Scanned after name gap args rest none e w b (x, f) =
    (unmodified after name args, under after x rest (drop_one rest) f (drop_one-ends rest))
scan_mods-Scanned after name gap args rest (some (mods, block)) e w (j, i, p) (x, f) = (
  with_visibility-Recorded after name gap args mods block
      (e ∙ ap (λ t. name ++ (gap ++ (args ++ t))) j) w i p,
  under after x rest (drop_one block) f
      (under rest mods block (drop_one block) j (drop_one-ends block)),
)

scan_args-Scanned :
    (after name gap s : Text) (closed : Option (Text × Text))
    → after ≡ name ++ (gap ++ s)
    → all is_whitespace gap ≡ true
    → Closes s closed
    → Scanned after (scan_args name s closed)
unfolding scan_args
scan_args-Scanned after name gap s none e w c = (
  tt,
  under after name (gap ++ s) (drop_one s) e
      (under (gap ++ s) gap s (drop_one s) refl (drop_one-ends s)),
)
scan_args-Scanned after name gap s (some (upto, rest)) e w c =
    scan_mods-Scanned after name gap (upto ++ codes ")") rest (find_mods 0 rest)
      (e ∙ ap (λ t. name ++ (gap ++ t)) c) w (find_mods-Bounds 0 rest)
      (under after name (gap ++ s) rest e (under (gap ++ s) gap s rest refl (upto ++ codes ")", c)))

scan_name-Scanned :
    (after name rest : Text) → after ≡ name ++ rest → Scanned after (scan_name name rest)
unfolding scan_name
scan_name-Scanned after name rest e = elim (Bool-cases (is_skipped name)) [
  | inl y ↦ rw (scan_name, y) (tt, (name, e))
  | inr n ↦
      let (gap, g, w) = skip_whitespace-joined rest in
      let s = skip_whitespace rest in
      let found : after ≡ name ++ (gap ++ s) = e ∙ ap (λ t. name ++ t) g in
      elim (Bool-cases (peek b'(' s)) [
        | inl y ↦
            rw (scan_name, n, y)
              (scan_args-Scanned after name gap s (match_paren 0 s) found w
                (match_paren-Closes 0 s))
        | inr m ↦ rw (scan_name, n, m) (tt, under after name rest s e (gap, g))
      ]
]

scan_function-Scanned : (after : Text) → Scanned after (scan_function after)
unfolding scan_function
scan_function-Scanned after =
    scan_name-Scanned after (span_ident after).0 (span_ident after).1 (span_ident-joined after)

record_signature-All :
    (source before after : Text) (found : Option FunctionSignature) (out : List FunctionSignature)
    → source ≡ before ++ (codes "function " ++ after)
    → Recorded after found
    → All (IsDeclared source) out
    → All (IsDeclared source) (record_signature found out)
unfolding record_signature
record_signature-All source before after none out e h hs = hs
record_signature-All source before after (some f) out e h hs = ((before, after, e, h), hs)

pub extract_loop-AllDeclared :
    (fuel : ℕ) (source before s : Text)
    → source ≡ before ++ s
    → All (IsDeclared source) (extract_loop fuel s)
unfolding extract_loop
extract_loop-AllDeclared zero source before s e = tt
extract_loop-AllDeclared (suc fuel) source before s e =
    let joined = split_first-Joins (codes "function ") s in
    elim (Option-cases (split_first (codes "function ") s)) [
      | inl n ↦ rw (All, extract_loop, n) tt
      | inr ((a, after), m) ↦
          let (here, (x, ends)) = scan_function-Scanned after in
          let keyword : source ≡ (before ++ a) ++ (codes "function " ++ after) =
            e
            ∙ ap (λ t. before ++ t) (rw (Joins, m) at joined)
            ∙ sym (append_assoc before a (codes "function " ++ after)) in
          let (y, left) =
            under source (before ++ a) (codes "function " ++ after) (scan_function after).1 keyword
              (under (codes "function " ++ after) (codes "function ") after (scan_function after).1
                refl (x, ends)) in
          rw (All, extract_loop, m)
            (record_signature-All source (before ++ a) after (scan_function after).0
              (extract_loop fuel (scan_function after).1) keyword here
              (extract_loop-AllDeclared fuel source y (scan_function after).1 left))
    ]
