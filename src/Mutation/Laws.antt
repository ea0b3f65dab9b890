-- ===== src/Mutation/Laws.antt =====
-- What the mutation scorer promises (crates/vergil-mutation/src/scorer.rs).
use vergil.Prelude.{
  ℕ, suc, ◌+◌, ◌≡◌, refl, ap, ◌∙◌, sym, String, List, [], ◌∷◌, Result, ok, err, and_then-run,
  map_err, length, arith, inl, inr, Result-cases,
}
use vergil.Mutation.{
  Mutant, MutationVerdict, MutationScore, Host, score, score_from, score_all, score_one, overwrite,
  restore, count_verdict, count_inconclusive, count_killed, count_survived,
}

-- The mutants counted so far.
abbrev pub counted : MutationScore → ℕ
counted s = s.killed + s.survived + s.inconclusive

count_verdict-total :
    (v : Result String MutationVerdict) (s : MutationScore)
    → (counted (count_verdict v s) ≡ suc (counted s)) × ((count_verdict v s).total ≡ s.total)
unfolding count_verdict count_killed count_survived count_inconclusive
count_verdict-total (ok MutationVerdict.killed) s = (omega arith, refl)
count_verdict-total (ok MutationVerdict.survived) s = (omega arith, refl)
count_verdict-total (ok MutationVerdict.inconclusive) s = (omega arith, refl)
count_verdict-total (err e) s = (omega arith, refl)

module _ {B W : Type 0} (host : Host B W) (outdir : String) (original_source : String) where
  -- A write that succeeded is what a read gives back.
  abbrev pub Stores : Type 0
  Stores =
      (body : B) (w : W)
      → (host.write original_source body w).0 ≡ ok tt
      → host.read original_source (host.write original_source body w).1 ≡ ok body

  abbrev Advanced : B → MutationScore → MutationScore → W → Type 0
  Advanced saved s t w =
      (counted t ≡ suc (counted s)) × (t.total ≡ s.total) × (host.read original_source w ≡ ok saved)

  restored :
      Stores
      → (saved : B) (w : W) → (restore host outdir original_source saved w).0 ≡ ok tt
      → host.read original_source (restore host outdir original_source saved w).1 ≡ ok saved
  unfolding restore
  restored stores saved w e = elim (Result-cases (host.write original_source saved w).0) [
    | inl (tt, q) ↦ stores saved w q
    | inr (m, q) ↦ cc (rw (q, map_err) at e)
  ]

  score_one-Advanced :
      Stores
      → (saved : B) (body : Result String B) (s t : MutationScore) (w : W)
      → host.read original_source w ≡ ok saved
      → (score_one host outdir original_source saved body s w).0 ≡ ok t
      → Advanced saved s t (score_one host outdir original_source saved body s w).1
  unfolding score_one count_inconclusive
  score_one-Advanced stores saved (err e) s t w h q =
      let same : count_inconclusive s ≡ t = cc q in rw (sym same) (omega arith, refl, h)
  score_one-Advanced stores saved (ok body) s t w h q =
      let o = overwrite host outdir original_source saved (host.write original_source body w) in
      let v = host.run original_source o.1 in
      let r = restore host outdir original_source saved v.1 in
      let (_, e1, q1) = and_then-run o _ t q in
      let (u, e2, q2) =
        and_then-run r (λ _ w2. (ok (count_verdict v.0 s), w2)) t (ap (λ x. x.0) (sym q1) ∙ q) in
      let same : count_verdict v.0 s ≡ t = cc (ap (λ x. x.0) (sym (q1 ∙ q2)) ∙ q) in
      let (n, total) = count_verdict-total v.0 s in
      rw (q1, q2, sym same) (n, total, restored stores saved v.1 e2)

  score_all-Advanced :
      Stores
      → (saved : B) (ms : List Mutant) (s t : MutationScore) (w : W)
      → host.read original_source w ≡ ok saved
      → (score_all host outdir original_source saved ms s w).0 ≡ ok t
      → (counted t ≡ length ms + counted s)
        × (t.total ≡ s.total)
        × (host.read original_source (score_all host outdir original_source saved ms s w).1
            ≡ ok saved)
  unfolding score_all
  score_all-Advanced stores saved [] s t w h q =
      let same : s ≡ t = cc q in rw (sym same) (omega arith, refl, h)
  score_all-Advanced stores saved (m ∷ ms) s t w h q =
      let one =
        score_one host outdir original_source saved (host.read (host.join outdir m.name) w) s w in
      let (s1, e1, q1) = and_then-run one (score_all host outdir original_source saved ms) t q in
      let (n, total, h1) = score_one-Advanced stores saved _ s s1 w h e1 in
      let (n2, total2, h2) =
        score_all-Advanced stores saved ms s1 t one.1 h1 (ap (λ x. x.0) (sym q1) ∙ q) in
      (omega (arith, n, n2), total2 ∙ total, rw q1 h2)

  -- When a successful write is what a read gives back, a scorer that returns has left the contract
  -- as it was before, whatever the runner did to it, and has counted every mutant exactly once.
  pub score-restored :
      Stores
      → (mutants : List Mutant) (w : W) (t : MutationScore)
      → (score host outdir original_source mutants w).0 ≡ ok t
      → (host.read original_source (score host outdir original_source mutants w).1
          ≡ host.read original_source w)
        × (t.total ≡ length mutants)
        × (t.killed + t.survived + t.inconclusive ≡ t.total)
  unfolding score score_from
  score-restored stores mutants w t q = elim (Result-cases (host.read original_source w)) [
    | inr (m, e) ↦ cc (rw (e, score_from) at q)
    | inl (saved, e) ↦
        let start : MutationScore = record {
          total = length mutants;
          killed = 0;
          survived = 0;
          inconclusive = 0;
        } in
        let (n, total, h) =
          score_all-Advanced stores saved mutants start t w e (rw (e, score_from) at q) in
        rw (e, score_from) (h, total, omega (arith, n, total))
  ]
