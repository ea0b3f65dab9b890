-- ===== src/Critique.antt =====
-- The independent critique of candidates (crates/vergil-core/src/critique.rs): which candidates it
-- lets through, and what it makes of a failed critique call. The prompt and the provider's reply
-- are outside the model: a reply enters as the parsed result or as the text of an error.
pub mod Laws
pub mod Examples
use text.Mathlib.Text.{starts_with}
use vergil.Prelude.{
  ◌≡◌, length, ℕ, suc, ◌+◌, String, Bool, true, false, List, [], ◌∷◌, ◌&&◌, Result, ok, err, ◌<>◌,
  if◌then◌else◌,
}
use vergil.Prelude.Floats.{Floats}
use vergil.Synthesis.{
  Source, user_intent, attack_catalog, conformance, tests, nat_spec, structural, SpecCandidate,
}

pub data Verdict : Type 0 where
  accept reject : Verdict

pub record CritiqueScores (F : Type 0) : Type 0 where
  pub vacuity : F
  pub body_independence : F
  pub testability : F
  pub restate_the_source : F

pub record CritiqueResult (F : Type 0) : Type 0 where
  pub verdict : Verdict
  pub scores : CritiqueScores F
  pub rationale : String

pub record FilterOutcome (F : Type 0) : Type 0 where
  pub kept : List (SpecCandidate × CritiqueResult F)
  pub dropped : List (SpecCandidate × CritiqueResult F)

pub record CritiqueOutcomeCounts : Type 0 where
  pub accepted : ℕ
  pub rejected : ℕ
  pub error : ℕ

abbrev pub is_accept : Verdict → Bool
is_accept accept = true
is_accept reject = false

is_extracted : Source → Bool
is_extracted tests = true
is_extracted nat_spec = true
is_extracted _ = false

module _ {F : Type 0} (fl : Floats F) where
  -- `min_axis` is the configuration's field.
  unfoldable pub passes_axes : F → CritiqueScores F → Bool
  passes_axes min_axis s =
      fl.ge s.vacuity min_axis
      && fl.ge s.body_independence min_axis
      && fl.ge s.testability min_axis
      && fl.ge s.restate_the_source min_axis

  -- The test of the filter loop.
  unfoldable pub is_kept : F → CritiqueResult F → Bool
  unfolding passes_axes
  is_kept min_axis r = is_accept r.verdict && passes_axes min_axis r.scores

  -- One round of the loop, on the pairs that are still to come.
  put : Bool → SpecCandidate × CritiqueResult F → FilterOutcome F → FilterOutcome F
  put true p rest = record rest { kept = p ∷ rest.kept }
  put false p rest = record rest { dropped = p ∷ rest.dropped }

  -- The loop of `filter_accepted` over the zipped lists.
  unfoldable pub filter_pairs : F → List SpecCandidate → List (CritiqueResult F) → FilterOutcome F
  unfolding put is_kept
  filter_pairs min_axis [] rs = record { kept = []; dropped = [] }
  filter_pairs min_axis (c ∷ cs) [] = record { kept = []; dropped = [] }
  filter_pairs min_axis (c ∷ cs) (r ∷ rs) =
      put (is_kept min_axis r) (c, r) (filter_pairs min_axis cs rs)

  -- The source asserts that the lists have one length, and panics otherwise: there is a result only
  -- where `same` holds.
  unfoldable pub filter_accepted :
      F
      → (cs : List SpecCandidate) → (rs : List (CritiqueResult F)) → (same : length cs ≡ length rs)
      → FilterOutcome F
  unfolding filter_pairs
  filter_accepted min_axis cs rs same = filter_pairs min_axis cs rs

  unfoldable pub reject_with : String → SpecCandidate → CritiqueResult F
  unfolding is_extracted
  reject_with reason candidate = record {
    verdict = reject;
    scores = record {
      vacuity = fl.of_nat 0;
      body_independence = fl.of_nat 0;
      testability = fl.of_nat 0;
      restate_the_source = if is_extracted candidate.source then fl.of_nat 0 else fl.of_nat 1;
    };
    rationale = "critique-pass error: " <> reason;
  }

  -- The end of `critique_one`: a reply that parses is the result, anything else rejects.
  unfoldable pub critique_reply :
      Result String (CritiqueResult F) → SpecCandidate → CritiqueResult F
  unfolding reject_with
  critique_reply (ok parsed) candidate = parsed
  critique_reply (err e) candidate = reject_with e candidate

count_one : Verdict → String → CritiqueOutcomeCounts → CritiqueOutcomeCounts
count_one accept why out = record out { accepted = out.accepted + 1 }
count_one reject why out =
    if starts_with why "critique-pass error"
    then record out { error = out.error + 1 }
    else record out { rejected = out.rejected + 1 }

count_all : {F : Type 0} → List (CritiqueResult F) → CritiqueOutcomeCounts → CritiqueOutcomeCounts
unfolding count_one
count_all [] out = out
count_all (r ∷ rs) out = count_all rs (count_one r.verdict r.rationale out)

unfoldable pub classify_critique_outcomes :
    {F : Type 0} → List (CritiqueResult F) → CritiqueOutcomeCounts
unfolding count_all
classify_critique_outcomes results =
    count_all results (record { accepted = 0; rejected = 0; error = 0 })
