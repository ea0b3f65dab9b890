-- ===== src/Confirm/Gate/Laws.antt =====
-- What the confirmation gate promises (crates/vergil-core/src/confirm.rs).
use mathlib.Core.List.{map, append-nil, append_assoc}
use vergil.Prelude.{
  ◌≡◌, refl, ap, ◌∙◌, sym, String, Bool, true, not, List, [], ◌∷◌, ◌++◌, ok, any, select, ◌==◌,
  ◌||◌, str_eq, map_err, str_eq_refl, str_eq_iff, ==_iff, Within, inl, inr, Bool-cases, failing,
  and_then-ok,
}
use vergil.Confirm.{
  ProposedIntent, DecisionRecord, in_progress, complete, ConfirmState, io, parse, is_decided,
  undecided, Outside, confirm_state_schema_version,
}
use vergil.Confirm.Gate.{
  GateMode, save_state, load_state, answer, push_decision, decide_all, finish_gate, gate_from,
  run_gate, merge, merged, resume_or_new, check_version,
}

module _ {F W : Type 0} (out : Outside F W) where
  -- The decisions that are new, one for each of the intents, in their order.
  abbrev pub Decides : List (ProposedIntent F) → ConfirmState F → ConfirmState F → Type 0
  Decides is s t =
      (t.proposed_intents ≡ s.proposed_intents)
      × (t.run_id ≡ s.run_id)
      × ((new : List DecisionRecord) × (t.decisions ≡ s.decisions ++ new)
          × (map (λ (d : DecisionRecord). d.intent_id) new
              ≡ map (λ (i : ProposedIntent F). i.id) is))

  decide_all-Decides :
      (path : String) (mode : GateMode) (now : String) (is : List (ProposedIntent F))
      (s : ConfirmState F) (w : W) (t : ConfirmState F)
      → (decide_all out path mode now is s w).0 ≡ ok t
      → Decides is s t
  unfolding decide_all push_decision
  decide_all-Decides path mode now [] s w t e =
      let q : s ≡ t = cc e in rw (sym q) (refl, refl, ([], sym (append-nil s.decisions), refl))
  decide_all-Decides path mode now (i ∷ is) s w t e =
      let (d, _, e1) = and_then-ok (answer out mode i w) _ t e in
      let w1 = (answer out mode i w).1 in
      let s1 = push_decision out i d now s in
      let (_, _, e2) = and_then-ok (save_state out path s1 w1) _ t e1 in
      let (p, r, (new, q, ids)) =
        decide_all-Decides path mode now is s1 (save_state out path s1 w1).1 t e2 in
      (
        p,
        r,
        (
          record { intent_id = i.id; decision = d; decided_at = now } ∷ new,
          q ∙ append_assoc s.decisions _ new,
          ap (λ ids. i.id ∷ ids) ids,
        ),
      )

  -- Reading the gate that completed.
  gate-Decides :
      (path : String) (mode : GateMode) (now : String) (is : List (ProposedIntent F))
      (s : ConfirmState F) (w : W) (t : ConfirmState F)
      → s.proposed_intents ≡ is
      → (gate_from out path mode now is s w).0 ≡ ok t
      → (t.status ≡ complete) × Decides (undecided s) s t
  unfolding gate_from finish_gate undecided
  gate-Decides path mode now [] s w t none_proposed e =
      let done : ConfirmState F = record s { status = complete; updated_at = now } in
      let (_, _, e1) = and_then-ok (save_state out path done w) _ t e in
      let q : done ≡ t = cc e1 in
      rw (sym q) (refl, (refl, refl, ([], sym (append-nil s.decisions), rw none_proposed refl)))
  gate-Decides path mode now (i ∷ is) s w t proposed e =
      let started : ConfirmState F = record s { status = in_progress } in
      let w1 = (save_state out path started w).1 in
      let (_, _, e1) = and_then-ok (save_state out path started w) _ t e in
      let (s2, e2, e3) =
        and_then-ok (decide_all out path mode now (undecided started) started w1) _ t e1 in
      let w2 = (decide_all out path mode now (undecided started) started w1).1 in
      let done : ConfirmState F = record s2 { status = complete; updated_at = now } in
      let (_, _, e4) = and_then-ok (save_state out path done w2) _ t e3 in
      let q : done ≡ t = cc e4 in
      rw (sym q) (refl, decide_all-Decides path mode now (undecided started) started w1 s2 e2)

  -- A gate that returns, in whatever mode, has the status Complete, keeps the proposed intents, the
  -- run id and all earlier decisions in place, and appends exactly one decision for each intent
  -- that was undecided, in their order.
  pub run_gate-Decides :
      (path : String) (s : ConfirmState F) (mode : GateMode) (now : String) (w : W)
      (t : ConfirmState F)
      → (run_gate out path s mode now w).0 ≡ ok t
      → (t.status ≡ complete) × Decides (undecided s) s t
  unfolding run_gate
  run_gate-Decides path s mode now w t e =
      gate-Decides path mode now s.proposed_intents s w t refl e

is_decided-append :
    (ds es : List DecisionRecord) (id : String)
    → is_decided (ds ++ es) id ≡ (is_decided ds id || is_decided es id)
is_decided-append [] es id = refl
is_decided-append (d ∷ ds) es id = elim (Bool-cases (str_eq d.intent_id id)) [
  | inl y ↦ rw y refl
  | inr n ↦ rw n (is_decided-append ds es id)
]

module _ {F : Type 0} where
  named-IsDecided :
      (new : List DecisionRecord) (is : List (ProposedIntent F)) (i : ProposedIntent F)
      → map (λ (d : DecisionRecord). d.intent_id) new ≡ map (λ (i : ProposedIntent F). i.id) is
      → Within i is
      → is_decided new i.id ≡ true
  named-IsDecided [] [] i e m = absurd m
  named-IsDecided [] (j ∷ is) i e m = cc e
  named-IsDecided (d ∷ new) [] i e m = absurd m
  named-IsDecided (d ∷ new) (j ∷ is) i e (inl q) =
      let head : d.intent_id ≡ i.id = cc (e, q) in rw (head, str_eq_refl i.id) refl
  named-IsDecided (d ∷ new) (j ∷ is) i e (inr m) = elim (Bool-cases (str_eq d.intent_id i.id)) [
    | inl y ↦ rw y refl
    | inr n ↦ rw n (named-IsDecided new is i (cc e) m)
  ]

  Within-select :
      (p : ProposedIntent F → Bool) (is : List (ProposedIntent F)) (i : ProposedIntent F)
      → Within i is
      → p i ≡ true
      → Within i (select p is)
  Within-select p [] i m h = absurd m
  Within-select p (j ∷ is) i (inl q) h = rw (ap p (sym q), h) (inl q)
  Within-select p (j ∷ is) i (inr m) h = elim (Bool-cases (p j)) [
    | inl y ↦ rw y (inr (Within-select p is i m h))
    | inr n ↦ rw n (Within-select p is i m h)
  ]

module _ {F W : Type 0} (out : Outside F W) where
  -- When the gate returns, every proposed intent has a decision.
  pub run_gate-IsDecided :
      (path : String) (s : ConfirmState F) (mode : GateMode) (now : String) (w : W)
      (t : ConfirmState F)
      → (run_gate out path s mode now w).0 ≡ ok t
      → (i : ProposedIntent F) → Within i t.proposed_intents
      → is_decided t.decisions i.id ≡ true
  unfolding undecided
  run_gate-IsDecided path s mode now w t e i m =
      let (c, (p, r, (new, q, ids))) = run_gate-Decides out path s mode now w t e in
      rw (q, is_decided-append s.decisions new i.id)
        (elim (Bool-cases (is_decided s.decisions i.id)) [
          | inl y ↦ rw y refl
          | inr n ↦ rw n (
              named-IsDecided new (undecided s) i ids (
                Within-select (λ i. not (is_decided s.decisions i.id)) s.proposed_intents i
                  (rw p at m) (rw n refl)))
        ])

  checked :
      (t s : ConfirmState F)
      → check_version out t ≡ ok s
      → s.schema_version ≡ confirm_state_schema_version
  unfolding check_version
  checked t s e = elim (Bool-cases (t.schema_version == 1)) [
    | inl y ↦ let q : t ≡ s = cc (rw y at e) in rw (sym q) ((==_iff t.schema_version 1).0 y)
    | inr n ↦ cc (rw n at e)
  ]

  -- A state file is accepted only with the current schema version.
  pub load_state-version :
      (path : String) (w : W) (s : ConfirmState F)
      → (load_state out path w).0 ≡ ok s
      → s.schema_version ≡ confirm_state_schema_version
  unfolding load_state check_version
  load_state-version path w s e =
      let (body, _, e1) = and_then-ok (failing (io path) (out.read_to_string path w)) _ s e in
      let (t, _, e2) =
        and_then-ok (map_err (parse path) (out.from_json body), (out.read_to_string path w).1) _ s
          e1 in
      checked t s e2

  surviving-IsDecided :
      (fresh : List (ProposedIntent F)) (id : String)
      → any (λ i. str_eq i.id id) fresh ≡ true
      → (ds : List DecisionRecord)
      → is_decided (select (λ (d : DecisionRecord). any (λ i. str_eq i.id d.intent_id) fresh) ds) id
        ≡ is_decided ds id
  surviving-IsDecided fresh id among [] = refl
  surviving-IsDecided fresh id among (d ∷ ds) =
      elim (Bool-cases (any (λ i. str_eq i.id d.intent_id) fresh)) [
        | inl y ↦ rw (y, surviving-IsDecided fresh id among ds) refl
        | inr n ↦ elim (Bool-cases (str_eq d.intent_id id)) [
          | inl same ↦
              let q : d.intent_id ≡ id = (str_eq_iff d.intent_id id).0 same in cc (rw q at n, among)
          | inr other ↦ rw (n, other) (surviving-IsDecided fresh id among ds)
        ]
      ]

  Within-any :
      (fresh : List (ProposedIntent F)) (i : ProposedIntent F)
      → Within i fresh
      → any (λ j. str_eq j.id i.id) fresh ≡ true
  Within-any [] i m = absurd m
  Within-any (j ∷ fresh) i (inl q) = rw (sym q, str_eq_refl i.id) refl
  Within-any (j ∷ fresh) i (inr m) = elim (Bool-cases (str_eq j.id i.id)) [
    | inl y ↦ rw y refl
    | inr n ↦ rw n (Within-any fresh i m)
  ]

  -- Resuming from a state file takes only a file of the same run and of the current schema
  -- version, presents the fresh intents, and regards a fresh intent as decided exactly when the file
  -- had decided it.
  pub resume_or_new-IsDecided :
      (path run_id : String) (fresh : List (ProposedIntent F)) (now : String) (w : W)
      (s : ConfirmState F)
      → out.is_file path w ≡ true
      → (resume_or_new out path run_id fresh now w).0 ≡ ok s
      → (i : ProposedIntent F) → Within i fresh
      → (s.proposed_intents ≡ fresh)
        × ((old : ConfirmState F) × ((load_state out path w).0 ≡ ok old)
            × (old.schema_version ≡ confirm_state_schema_version)
            × (old.run_id ≡ run_id)
            × (is_decided s.decisions i.id ≡ is_decided old.decisions i.id))
  unfolding resume_or_new merge merged
  resume_or_new-IsDecided path run_id fresh now w s file e i m =
      let (old, l, e1) = and_then-ok (load_state out path w) _ s (rw file at e) in
      elim (Bool-cases (str_eq old.run_id run_id)) [
        | inl y ↦
            let same : merged out run_id fresh now old ≡ s = cc (rw y at e1) in
            rw (sym same) (
              refl,
              (
                old,
                l,
                load_state-version path w old l,
                (str_eq_iff old.run_id run_id).0 y,
                surviving-IsDecided fresh i.id (Within-any fresh i m) old.decisions,
              ),
            )
        | inr n ↦ cc (rw n at e1)
      ]
