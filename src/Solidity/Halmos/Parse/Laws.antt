-- ===== src/Solidity/Halmos/Parse/Laws.antt =====
-- What a parsed Halmos output says (crates/vergil-solidity/src/halmos.rs).
use vergil.Prelude.{
  sym, ℕ, String, ◌≡◌, refl, ◌∙◌, inl, inr, Bool, true, false, Option, none, some, List, [], ◌∷◌,
  if◌then◌else◌, Bool-cases, any, find,
}
use vergil.Prelude.Chars.{Text, codes, contains, lines}
use vergil.Solidity.Halmos.{
  HalmosResult, verified, counterexample, unknown, timeout, error, ErrorStage, build,
}
use vergil.Solidity.Halmos.Lines.{
  strip_ansi, find_status_line, tagged, says_build_failed, parse_build_error,
}
use vergil.Solidity.Halmos.Parse.{is_found, settle_failed, settle_built, settle, parse}

abbrev pub is_verified : HalmosResult → Bool
is_verified (verified _ _ _ _) = true
is_verified _ = false

abbrev pub is_counterexample : HalmosResult → Bool
is_counterexample (counterexample _ _) = true
is_counterexample _ = false

-- Some line has the tag.
abbrev pub reports : Text → Text → Bool
reports text tag = any (contains (tagged tag)) (lines text)

found-any : (test : Text → Bool) (ls : List Text) → is_found (find test ls) ≡ any test ls
unfolding is_found
found-any test [] = refl
found-any test (l ∷ ls) = elim (Bool-cases (test l)) [
  | inl y ↦ rw (y) refl
  | inr n ↦ rw (n) (found-any test ls)
]

found-reports : (text tag : Text) → is_found (find_status_line text tag) ≡ reports text tag
unfolding find_status_line
found-reports text tag = found-any (contains (tagged tag)) (lines text)

-- What a result says, without its details.
pub data Kind : Type 0 where
  passed timed_out undecided failed build_error runtime_error : Kind

abbrev kind_of_stage : ErrorStage → Kind
kind_of_stage build = build_error
kind_of_stage _ = runtime_error

abbrev pub kind_of : HalmosResult → Kind
kind_of (verified _ _ _ _) = passed
kind_of (counterexample _ _) = failed
kind_of (unknown _ _ _) = undecided
kind_of (timeout _ _) = timed_out
kind_of (error stage _) = kind_of_stage stage

-- The first of the tags in the order in which they count.
abbrev pub first_tag : Text → Kind
first_tag text =
    if reports text (codes "PASS")
    then passed
    else if reports text (codes "TIMEOUT")
    then timed_out
    else if reports text (codes "UNKNOWN")
    then undecided
    else if reports text (codes "FAIL")
    then failed
    else runtime_error

-- What holds of every choice holds of the one that is taken.
everywhere :
    (P : HalmosResult → Type 0) (a b c d : Bool) (v w x y z : HalmosResult)
    → P v
    → P w
    → P x
    → P y
    → P z
    → P (if a then v else if b then w else if c then x else if d then y else z)
everywhere P true b c d v w x y z p q r s t = p
everywhere P false true c d v w x y z p q r s t = q
everywhere P false false true d v w x y z p q r s t = r
everywhere P false false false true v w x y z p q r s t = s
everywhere P false false false false v w x y z p q r s t = t

abbrev pub digest : HalmosResult → Option String
digest (verified _ _ _ sha) = sha
digest _ = none

built-digest :
    (property : String) (ms : ℕ) (text : Text) (pass : Option Text)
    → digest (settle_built property ms text pass) ≡ none
unfolding settle_built settle_failed
built-digest property ms text none =
    everywhere (λ r. digest r ≡ none) (is_found (find_status_line text (codes "TIMEOUT")))
      (is_found (find_status_line text (codes "UNKNOWN")))
      (is_found (find_status_line text (codes "FAIL")))
      (is_found (find_status_line text (codes "ERROR"))) _ _ _ _ _ refl refl refl refl refl
built-digest property ms text (some p) = refl

settled :
    (millis : Text → Option ℕ) (text : Text) (failed : Option Text)
    → digest (settle millis text failed) ≡ none
unfolding settle
settled millis text (some message) = refl
settled millis text none = built-digest _ _ text (find_status_line text (codes "PASS"))

-- Parsing finds no digest.
pub parse-digest : (millis : Text → Option ℕ) (raw : Text) → digest (parse millis raw) ≡ none
unfolding parse settle
parse-digest millis raw = settled millis (strip_ansi raw) (parse_build_error (strip_ansi raw))

chosen :
    (a b c d : Bool) (w x y u v : HalmosResult)
    → kind_of w ≡ timed_out
    → kind_of x ≡ undecided
    → kind_of y ≡ failed
    → kind_of u ≡ runtime_error
    → kind_of v ≡ runtime_error
    → kind_of (if a then w else if b then x else if c then y else if d then u else v)
      ≡ (if a then timed_out else if b then undecided else if c then failed else runtime_error)
chosen true b c d w x y u v k l m n o = k
chosen false true c d w x y u v k l m n o = l
chosen false false true d w x y u v k l m n o = m
chosen false false false true w x y u v k l m n o = n
chosen false false false false w x y u v k l m n o = o

failed-kind :
    (property : String) (ms : ℕ) (text : Text)
    → reports text (codes "PASS") ≡ false
    → kind_of (settle_failed property ms text) ≡ first_tag text
unfolding settle_failed
failed-kind property ms text n =
    chosen (is_found (find_status_line text (codes "TIMEOUT")))
      (is_found (find_status_line text (codes "UNKNOWN")))
      (is_found (find_status_line text (codes "FAIL")))
      (is_found (find_status_line text (codes "ERROR"))) _ _ _ _ _ refl refl refl refl refl
    ∙ rw
        (
          found-reports text (codes "TIMEOUT"),
          found-reports text (codes "UNKNOWN"),
          found-reports text (codes "FAIL"),
          n,
        )
        refl

built-kind :
    (property : String) (ms : ℕ) (text : Text) (pass : Option Text)
    → is_found pass ≡ reports text (codes "PASS")
    → kind_of (settle_built property ms text pass) ≡ first_tag text
unfolding settle_built is_found
built-kind property ms text none e = failed-kind property ms text (sym e)
built-kind property ms text (some p) e = rw (sym e) refl

-- The kind of a parsed output is a build error where the build has failed, and otherwise that of the
-- first of the tags PASS, TIMEOUT, UNKNOWN and FAIL, in this order, that stands on any line, and a
-- runtime error where none does. So an output with PASS is verified also if another line has FAIL.
pub parse-kind_of :
    (millis : Text → Option ℕ) (raw : Text)
    → kind_of (parse millis raw)
      ≡ (if says_build_failed (strip_ansi raw) then build_error else first_tag (strip_ansi raw))
unfolding parse settle parse_build_error
parse-kind_of millis raw =
    let text = strip_ansi raw in
    elim (Bool-cases (says_build_failed text)) [
      | inl y ↦ rw (y) refl
      | inr n ↦ rw (n) (
          built-kind _ _ text (find_status_line text (codes "PASS"))
            (found-reports text (codes "PASS")))
    ]
