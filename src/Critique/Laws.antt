-- ===== src/Critique/Laws.antt =====
-- What the critique filter keeps and how its outcomes are counted
-- (crates/vergil-core/src/critique.rs).
use mathlib.Core.List.{zip}
use text.Mathlib.Text.{starts_with}
use text.Mathlib.TextEquality.{starts_with_iff}
use text.Mathlib.TextLemmas.{prefix-append, append_assoc}
use mathlib.Core.Path.{subst, sym}
use vergil.Prelude.{
  ◌&&◌, ◌+◌, ◌≡◌, refl, String, Bool, true, false, not, List, [], ◌∷◌, ◌<>◌, err, length, select,
  Within, inl, inr, arith, Bool-cases, ap,
}
use vergil.Prelude.Floats.{Floats}
use vergil.Synthesis.{SpecCandidate}
use vergil.Critique.{
  Verdict, accept, reject, CritiqueResult, CritiqueOutcomeCounts, is_accept, passes_axes, is_kept,
  filter_accepted, filter_pairs, put, critique_reply, count_one, count_all,
  classify_critique_outcomes,
}

module _ {F : Type 0} (fl : Floats F) (min_axis : F) where
  -- The verdict is Accept and each of the four axes reaches the minimum.
  abbrev pub accepts : CritiqueResult F → Bool
  accepts r =
      is_accept r.verdict
      && (fl.ge r.scores.vacuity min_axis
          && fl.ge r.scores.body_independence min_axis
          && fl.ge r.scores.testability min_axis
          && fl.ge r.scores.restate_the_source min_axis)

  pairs-eq-select :
      (cs : List SpecCandidate) (rs : List (CritiqueResult F))
      → ((filter_pairs fl min_axis cs rs).kept ≡ select (λ p. accepts p.1) (zip cs rs))
        × ((filter_pairs fl min_axis cs rs).dropped ≡ select (λ p. not (accepts p.1)) (zip cs rs))
  unfolding filter_pairs zip is_kept passes_axes put
  pairs-eq-select [] rs = (refl, refl)
  pairs-eq-select (c ∷ cs) [] = (refl, refl)
  pairs-eq-select (c ∷ cs) (r ∷ rs) =
      let (kept, dropped) = pairs-eq-select cs rs in
      elim (Bool-cases (accepts r)) [
        | inl y ↦ rw (y, put) (ap (λ ps. (c, r) ∷ ps) kept, dropped)
        | inr n ↦ rw (n, put) (kept, ap (λ ps. (c, r) ∷ ps) dropped)
      ]

  -- Candidates and results are as many. The filter keeps, in their order, exactly the pairs whose
  -- verdict is Accept and of whose four axes each reaches the minimum, and drops, in their order, all
  -- the others.
  pub filter_accepted-eq-select :
      (cs : List SpecCandidate) (rs : List (CritiqueResult F)) (same : length cs ≡ length rs)
      → ((filter_accepted fl min_axis cs rs same).kept ≡ select (λ p. accepts p.1) (zip cs rs))
        × ((filter_accepted fl min_axis cs rs same).dropped
            ≡ select (λ p. not (accepts p.1)) (zip cs rs))
  unfolding filter_accepted
  filter_accepted-eq-select cs rs same = pairs-eq-select cs rs

  -- Every kept pair has the verdict Accept and passes the axes.
  pub kept-IsKept :
      (cs : List SpecCandidate) (rs : List (CritiqueResult F))
      (p : SpecCandidate × CritiqueResult F)
      → Within p (filter_pairs fl min_axis cs rs).kept
      → accepts p.1 ≡ true
  unfolding filter_pairs put is_kept passes_axes
  kept-IsKept [] rs p h = absurd h
  kept-IsKept (c ∷ cs) [] p h = absurd h
  kept-IsKept (c ∷ cs) (r ∷ rs) p h = elim (Bool-cases (accepts r)) [
    | inl k ↦ elim (rw (k, put) at h) [ inl e ↦ rw e k | inr w ↦ kept-IsKept cs rs p w ]
    | inr d ↦ kept-IsKept cs rs p (rw (d, put) at h)
  ]

  pub length-filter :
      (cs : List SpecCandidate) (rs : List (CritiqueResult F))
      → length cs ≡ length rs
      → length (filter_pairs fl min_axis cs rs).kept
          + length (filter_pairs fl min_axis cs rs).dropped
        ≡ length cs
  unfolding filter_pairs put
  length-filter [] rs h = omega arith
  length-filter (c ∷ cs) [] h = omega arith
  length-filter (c ∷ cs) (r ∷ rs) h = ground (arith, length-filter cs rs)

count_one-total :
    (v : Verdict) (why : String) (out : CritiqueOutcomeCounts)
    → (count_one v why out).accepted + (count_one v why out).rejected + (count_one v why out).error
      ≡ out.accepted + out.rejected + out.error + 1
unfolding count_one
count_one-total accept why out = omega arith
count_one-total reject why out = ground arith

count_all-total :
    {F : Type 0} (rs : List (CritiqueResult F)) (out : CritiqueOutcomeCounts)
    → (count_all rs out).accepted + (count_all rs out).rejected + (count_all rs out).error
      ≡ out.accepted + out.rejected + out.error + length rs
unfolding count_all
count_all-total [] out = omega arith
count_all-total (r ∷ rs) out = omega (
  arith,
  count_all-total rs (count_one r.verdict r.rationale out),
  count_one-total r.verdict r.rationale out,
)

-- The three counts of the critique outcomes add up to the number of results.
pub classify-total :
    {F : Type 0} (rs : List (CritiqueResult F))
    → (classify_critique_outcomes rs).accepted
        + (classify_critique_outcomes rs).rejected
        + (classify_critique_outcomes rs).error
      ≡ length rs
unfolding classify_critique_outcomes
classify-total rs =
    omega (arith, count_all-total rs (record { accepted = 0; rejected = 0; error = 0 }))

error_mark :
    (reason : String) → starts_with ("critique-pass error: " <> reason) "critique-pass error" ≡ true
error_mark reason =
    subst (λ s. starts_with s "critique-pass error" ≡ true)
      (sym (append_assoc "critique-pass error" ": " reason))
      ((starts_with_iff ("critique-pass error" <> (": " <> reason)) "critique-pass error").1
        (prefix-append "critique-pass error" (": " <> reason)))

module _ {F : Type 0} (fl : Floats F) where
  -- A critique call that failed, whatever the reason, never lets its candidate through, at any
  -- minimum, and is counted as an error and not as a rejection.
  critique_reply-err :
      (min_axis : F) (reason : String) (c : SpecCandidate)
      → (is_kept fl min_axis (critique_reply fl (err reason) c) ≡ false)
        × (classify_critique_outcomes (critique_reply fl (err reason) c ∷ [])
            ≡ record { accepted = 0; rejected = 0; error = 1 })
  unfolding is_kept critique_reply classify_critique_outcomes
  critique_reply-err min_axis reason c = (refl, rw (error_mark reason))
