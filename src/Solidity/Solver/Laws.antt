-- ===== src/Solidity/Solver/Laws.antt =====
-- Laws of the solver names and of the output parser (crates/vergil-solidity/src/solver.rs).
use vergil.Prelude.{
  ◌≡◌, ◌≢◌, ◌↔◌, refl, ap, ◌∙◌, none, some, inl, inr, ok, List, [], ◌∷◌, ◌++◌, All, arith,
  Option-cases,
}
use vergil.Prelude.Chars.{Text, codes, eqb, eqb→eq, eqb_refl, lines, trim, to_ascii_lowercase}
use vergil.Solidity.Solver.{
  Solver, z3, cvc5, bitwuzla, solver_text, named, from_name, unsat, parse_verdict, first_verdict,
  settle_line,
}

named-eq-some : (s : Text) (v : Solver) → named s ≡ some v → s ≡ solver_text v
unfolding named solver_text
named-eq-some s v h =
    ground (arith, eqb→eq s (codes "z3"), eqb→eq s (codes "cvc5"), eqb→eq s (codes "bitwuzla"))

named-solver_text : (v : Solver) → named (solver_text v) ≡ some v
unfolding named solver_text eqb
named-solver_text z3 = refl
named-solver_text cvc5 = refl
named-solver_text bitwuzla = refl

-- A name selects a solver exactly when its ASCII lower-case form is that solver's binary name.
pub from_name_iff :
    (s : Text) (v : Solver) → (from_name s ≡ some v) ↔ (to_ascii_lowercase s ≡ solver_text v)
unfolding from_name
from_name_iff s v =
    (λ h. named-eq-some (to_ascii_lowercase s) v h, λ e. ap named e ∙ named-solver_text v)

-- The line is none of the three verdict words.
abbrev pub IsSilent : Text → Type 0
IsSilent line =
    (trim line ≢ codes "unsat") × (trim line ≢ codes "sat") × (trim line ≢ codes "unknown")

settle-eq-unsat : (all : List Text) (t : Text) → settle_line all t ≡ some unsat → t ≡ codes "unsat"
unfolding settle_line
settle-eq-unsat all t h = ground (arith, eqb→eq t (codes "unsat"))

settle-unsat : (all : List Text) → settle_line all (codes "unsat") ≡ some unsat
unfolding settle_line eqb
settle-unsat all = refl

settle-eq-none :
    (all : List Text) (t : Text)
    → settle_line all t ≡ none
    → (t ≢ codes "unsat") × (t ≢ codes "sat") × (t ≢ codes "unknown")
unfolding settle_line
settle-eq-none all t h =
    ground (arith, eqb_refl (codes "unsat"), eqb_refl (codes "sat"), eqb_refl (codes "unknown"))

settle_silent :
    (all : List Text) (t : Text)
    → t ≢ codes "unsat"
    → t ≢ codes "sat"
    → t ≢ codes "unknown"
    → settle_line all t ≡ none
unfolding settle_line
settle_silent all t a b c =
    ground (arith, eqb→eq t (codes "unsat"), eqb→eq t (codes "sat"), eqb→eq t (codes "unknown"))

-- Where the verdict `v` was found among the lines.
abbrev pub FoundUnsat : List Text → Type 0
FoundUnsat ls =
    (before : List Text) × (line : Text) × (after : List Text) × (ls ≡ before ++ line ∷ after)
    × (trim line ≡ codes "unsat")
    × All IsSilent before

first_verdict-unsat : (all ls : List Text) → first_verdict all ls ≡ some unsat → FoundUnsat ls
unfolding first_verdict
first_verdict-unsat all [] h = absurd (cc)
first_verdict-unsat all (l ∷ ls) h = elim (Option-cases (settle_line all (trim l))) [
  | inl e ↦
      let found = first_verdict-unsat all ls (ground arith) in
      (
        l ∷ found.0,
        found.1,
        found.2,
        ap (λ k. l ∷ k) found.3,
        found.4,
        (settle-eq-none all (trim l) e, found.5),
      )
  | inr (v, e) ↦ ([], l, ls, refl, settle-eq-unsat all (trim l) (ground arith), tt)
]

unsat-first_verdict :
    (all before : List Text) (line : Text) (after : List Text)
    → trim line ≡ codes "unsat"
    → All IsSilent before
    → first_verdict all (before ++ line ∷ after) ≡ some unsat
unfolding first_verdict
unsat-first_verdict all [] line after e _ =
    rw (e, first_verdict) (rw (settle-unsat all, first_verdict))
unsat-first_verdict all (l ∷ before) line after e ((a, b, c), silent) =
    rw (settle_silent all (trim l) a b c, first_verdict)
      (unsat-first_verdict all before line after e silent)

-- A solver run counts as UNSAT exactly when its output has a line that reads `unsat` once trimmed
-- and every line before it is none of `unsat`, `sat` and `unknown`.
pub parse_verdict-unsat_iff :
    (name stdout stderr : Text)
    → (parse_verdict name stdout stderr ≡ ok unsat) ↔ FoundUnsat (lines stdout)
unfolding parse_verdict
parse_verdict-unsat_iff name stdout stderr = (
  λ h. first_verdict-unsat (lines stdout) (lines stdout) (ground arith),
  λ f. let e = unsat-first_verdict (lines stdout) f.0 f.1 f.2 f.4 f.5 in ground arith,
)
