-- ===== src/Confirm/Chosen.antt =====
-- The intents that the gate hands on (crates/vergil-core/src/confirm.rs).
use vergil.Prelude.{
  ◌≡◌, refl, ap, ◌∙◌, sym, Bool, true, false, some, List, [], ◌∷◌, find, str_eq, str_eq_iff, Within,
  Within-append, inl, inr, Bool-cases, Option-cases,
}
use vergil.Confirm.{
  ProposedIntent, Decision, skip, DecisionRecord, ConfirmState, is_skip, confirmed_one,
  confirmed_from, confirmed_intents,
}

kept_decision : (d : Decision) → is_skip d ≡ false → ¬ (d ≡ skip)
kept_decision d h e = cc (rw e at h)

module _ {F : Type 0} where
  find-Within :
      (p : ProposedIntent F → Bool) (is : List (ProposedIntent F)) (i : ProposedIntent F)
      → find p is ≡ some i
      → Within i is × (p i ≡ true)
  find-Within p [] i e = cc e
  find-Within p (j ∷ is) i e = elim (Bool-cases (p j)) [
    | inl y ↦ let q : j ≡ i = cc (rw y at e) in (inl (sym q), rw (sym q) y)
    | inr n ↦ let (w, h) = find-Within p is i (rw n at e) in (inr w, h)
  ]

  abbrev Chosen :
      List (ProposedIntent F) → List DecisionRecord → ProposedIntent F → Decision → Type 0
  Chosen is ds i d =
      Within i is
      × ((r : DecisionRecord) × Within r ds
          × (r.intent_id ≡ i.id)
          × (r.decision ≡ d)
          × ¬ (r.decision ≡ skip))

  one-Chosen :
      (is : List (ProposedIntent F)) (r : DecisionRecord) (i : ProposedIntent F) (d : Decision)
      → Within
          (i, d)
          (confirmed_one (find (λ (j : ProposedIntent F). str_eq j.id r.intent_id) is) r.decision)
      → Chosen is (r ∷ []) i d
  unfolding confirmed_one
  one-Chosen is r i d m =
      elim (Option-cases (find (λ (j : ProposedIntent F). str_eq j.id r.intent_id) is)) [
        | inl n ↦ absurd (rw (n, confirmed_one) at m)
        | inr (j, e) ↦ elim (Bool-cases (is_skip r.decision)) [
          | inl y ↦ absurd (rw (e, confirmed_one, y) at m)
          | inr n ↦ elim (rw (e, confirmed_one, n) at m) [
            | inl q ↦
                let (w, h) =
                  find-Within (λ (j : ProposedIntent F). str_eq j.id r.intent_id) is j e in
                let qi : i ≡ j = cc q in
                let qd : d ≡ r.decision = cc q in
                (
                  rw qi w,
                  (
                    r,
                    inl refl,
                    sym ((str_eq_iff j.id r.intent_id).0 h)
                        ∙ ap (λ (k : ProposedIntent F). k.id) (sym qi),
                    sym qd,
                    kept_decision r.decision n,
                  ),
                )
            | inr x ↦ absurd x
          ]
        ]
      ]

  from-Chosen :
      (is : List (ProposedIntent F)) (ds : List DecisionRecord) (i : ProposedIntent F)
      (d : Decision)
      → Within (i, d) (confirmed_from is ds)
      → Chosen is ds i d
  unfolding confirmed_from
  from-Chosen is [] i d m = absurd m
  from-Chosen is (r ∷ ds) i d m =
      elim (Within-append (i, d)
        (confirmed_one (find (λ (j : ProposedIntent F). str_eq j.id r.intent_id) is) r.decision)
        (confirmed_from is ds) m) [
          | inl one ↦
              let (w, (s, ws, a, b, c)) = one-Chosen is r i d one in
              (w, (s, elim ws [ inl q ↦ inl q | inr x ↦ absurd x ], a, b, c))
          | inr rest ↦
              let (w, (s, ws, a, b, c)) = from-Chosen is ds i d rest in (w, (s, inr ws, a, b, c))
        ]

  -- Every pair that the gate hands on is a proposed intent with a recorded decision on its id that
  -- is not Skip.
  pub confirmed_intents-chosen :
      (s : ConfirmState F) (i : ProposedIntent F) (d : Decision)
      → Within (i, d) (confirmed_intents s)
      → Within i s.proposed_intents
        × ((r : DecisionRecord) × Within r s.decisions
            × (r.intent_id ≡ i.id)
            × (r.decision ≡ d)
            × ¬ (r.decision ≡ skip))
  unfolding confirmed_intents
  confirmed_intents-chosen s i d m = from-Chosen s.proposed_intents s.decisions i d m
