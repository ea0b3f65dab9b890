-- ===== src/Mutation/Examples.antt =====
-- A scoring run at concrete inputs (crates/vergil-mutation/src/scorer.rs).
use vergil.Prelude.{ℕ, ◌+◌, ◌≡◌, refl, String, [], ◌∷◌, ok, err, ◌<>◌, str_eq, if◌then◌else◌, ◌==◌}
use vergil.Mutation.{Mutant, MutationVerdict, MutationScore, Host, score}
use vergil.Mutation.Laws.{score-restored}

abbrev mutant : String → Mutant
mutant name = record {
  id = name;
  description = "";
  diff = "";
  name = name;
  original = "Token.sol";
  sourceroot = "/";
}

-- The state is the content of Token.sol, as a number; the first mutant's file has content 7, the
-- second cannot be read, and the others have content 8. The runner spoils the file it runs on.
abbrev host : Host ℕ ℕ
host = record {
  read = λ path w.
      if str_eq path "Token.sol"
      then ok w
      else if str_eq path "out/1"
      then ok 7
      else if str_eq path "out/2"
      then err "no such file"
      else ok 8;
  write = λ path body w. (ok tt, body);
  run = λ path w. (if w == 7 then ok MutationVerdict.killed else ok MutationVerdict.survived, 0);
  join = λ dir name. dir <> ("/" <> name);
}

abbrev scored : MutationScore
scored = record { total = 3; killed = 1; survived = 1; inconclusive = 1 }

score_run :
    (score host "out" "Token.sol" (mutant "1" ∷ mutant "2" ∷ mutant "3" ∷ []) 5).0 ≡ ok scored
unfolding score
score_run = refl

score-restored_example :
    (host.read "Token.sol"
        (score host "out" "Token.sol" (mutant "1" ∷ mutant "2" ∷ mutant "3" ∷ []) 5).1
      ≡ ok 5)
    × (scored.total ≡ 3)
    × (scored.killed + scored.survived + scored.inconclusive ≡ scored.total)
score-restored_example =
    score-restored host "out" "Token.sol" (λ body w h. refl)
      (mutant "1" ∷ mutant "2" ∷ mutant "3" ∷ []) 5 scored score_run
