-- ===== src/Mutation.antt =====
-- Mutation scoring (crates/vergil-mutation/src/scorer.rs): each mutant overwrites the contract, the
-- specification runs against it, and the contract is restored. `W` is the state of the outside.
pub mod Laws
pub mod Examples
use vergil.Prelude.{
  ℕ, ◌+◌, String, Bool, true, false, List, [], ◌∷◌, Result, ok, err, and_then, failing, length,
  if◌then◌else◌, ◌==◌,
}
use vergil.Prelude.Floats.{Floats}

pub record Mutant : Type 0 where
  pub id : String
  pub description : String
  pub diff : String
  pub name : String
  pub original : String
  pub sourceroot : String

pub data MutationVerdict : Type 0 where
  killed survived inconclusive : MutationVerdict

pub record MutationScore : Type 0 where
  pub total : ℕ
  pub killed : ℕ
  pub survived : ℕ
  pub inconclusive : ℕ

-- `ScoreError::Io`; the variant `Runner` is never built.
pub record ScoreError : Type 0 where
  pub path : String
  pub source : String

abbrev pub of_nat_ratio : {F : Type 0} → Floats F → ℕ → ℕ → F
of_nat_ratio fl a b = fl.div (fl.of_nat a) (fl.of_nat b)

unfoldable pub coverage : {F : Type 0} → Floats F → MutationScore → F
coverage fl s =
    if s.killed + s.survived == 0
    then fl.of_nat 0
    else of_nat_ratio fl s.killed (s.killed + s.survived)

-- The files and the runner.
pub record Host (B W : Type 0) : Type 0 where
  pub read : String → W → Result String B
  pub write : String → B → W → Result String (Unit {0}) × W
  pub run : String → W → Result String MutationVerdict × W
  pub join : String → String → String

count_killed : MutationScore → MutationScore
count_killed s = record s { killed = s.killed + 1 }

count_survived : MutationScore → MutationScore
count_survived s = record s { survived = s.survived + 1 }

count_inconclusive : MutationScore → MutationScore
count_inconclusive s = record s { inconclusive = s.inconclusive + 1 }

-- A runner's error counts as inconclusive.
count_verdict : Result String MutationVerdict → MutationScore → MutationScore
unfolding count_killed count_survived count_inconclusive
count_verdict (ok MutationVerdict.killed) s = count_killed s
count_verdict (ok MutationVerdict.survived) s = count_survived s
count_verdict (ok MutationVerdict.inconclusive) s = count_inconclusive s
count_verdict (err message) s = count_inconclusive s

io_error : String → String → ScoreError
io_error path e = record { path = path; source = e }

module _ {B W : Type 0} (host : Host B W) (outdir : String) (original_source : String) where
  restore : B → W → Result ScoreError (Unit {0}) × W
  unfolding io_error
  restore body w = failing (io_error original_source) (host.write original_source body w)

  -- The write of a mutant; when it fails the contract is restored before the error returns.
  overwrite : B → Result String (Unit {0}) × W → Result ScoreError (Unit {0}) × W
  unfolding restore io_error
  overwrite saved (ok _, w) = (ok tt, w)
  overwrite saved (err e, w) = (err (io_error original_source e), (restore saved w).1)

  -- The body of the loop for a mutant, as read from the output directory.
  score_one : B → Result String B → MutationScore → W → Result ScoreError MutationScore × W
  unfolding overwrite restore count_verdict count_inconclusive
  score_one saved (err e) s w = (ok (count_inconclusive s), w)
  score_one saved (ok body) s w =
      and_then (overwrite saved (host.write original_source body w)) λ _ w1.
        let v = host.run original_source w1 in
        and_then (restore saved v.1) λ _ w2. (ok (count_verdict v.0 s), w2)

  score_all : B → List Mutant → MutationScore → W → Result ScoreError MutationScore × W
  unfolding score_one
  score_all saved [] s w = (ok s, w)
  score_all saved (m ∷ ms) s w =
      and_then (score_one saved (host.read (host.join outdir m.name) w) s w) (score_all saved ms)

  score_from : Result String B → List Mutant → W → Result ScoreError MutationScore × W
  unfolding score_all io_error
  score_from (err e) mutants w = (err (io_error original_source e), w)
  score_from (ok saved) mutants w =
      score_all saved mutants
        (record { total = length mutants; killed = 0; survived = 0; inconclusive = 0 }) w

  unfoldable pub score : List Mutant → W → Result ScoreError MutationScore × W
  unfolding score_from
  score mutants w = score_from (host.read original_source w) mutants w
