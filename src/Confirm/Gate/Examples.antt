-- ===== src/Confirm/Gate/Examples.antt =====
-- Runs of the confirmation gate at concrete inputs (crates/vergil-core/src/confirm.rs).
use vergil.Prelude.{
  ℕ, ◌+◌, ◌≡◌, refl, String, true, false, none, some, [], ◌∷◌, Result, ok, err, Within, inl,
  if◌then◌else◌, ◌==◌,
}
use vergil.Prelude.Chars.{Text, codes, trim}
use vergil.Synthesis.{tests}
use vergil.Confirm.{
  ProposedIntent, Decision, confirm, skip, edit, DecisionRecord, complete, in_progress,
  ConfirmState, prompt, Outside, is_decided, undecided, confirmed_intents,
}
use vergil.Confirm.Gate.{json, run_gate, load_state, resume_or_new}
use vergil.Confirm.Gate.Laws.{Decides, run_gate-Decides, resume_or_new-IsDecided}
use vergil.Confirm.Chosen.{confirmed_intents-chosen}

abbrev intent : String → ProposedIntent ℕ
intent name = record {
  id = name;
  source = tests;
  intent_text = "supply is constant";
  rationale = "";
  confidence = 90;
  template_ref = none;
}

abbrev decided : String → Decision → DecisionRecord
decided name d = record { intent_id = name; decision = d; decided_at = "monday" }

-- A run that was interrupted after its first decision.
abbrev interrupted : ConfirmState ℕ
interrupted = record {
  schema_version = 1;
  run_id = "run-1";
  proposed_intents = intent "a" ∷ intent "b" ∷ intent "c" ∷ [];
  decisions = decided "a" skip ∷ [];
  status = in_progress;
  started_at = "monday";
  updated_at = "monday";
}

abbrev reply : Text → Result String Decision
reply [] = err "EOF while parsing"
reply (c ∷ s) = if c == 99 then ok confirm else ok (edit "totalSupply is constant")

-- The outside counts the lines read; the agent confirms the first and edits the second.
abbrev outside : Outside ℕ ℕ
outside = record {
  is_file = λ path w. true;
  read_to_string = λ path w. (ok "{}", w);
  create_dir_all = λ path w. (ok tt, w);
  write = λ path body w. (ok tt, w);
  rename = λ from to w. (ok tt, w);
  parent = λ path. some "confirm";
  with_extension = λ path ext. "confirm/state.json.tmp";
  to_json = λ s. ok "{}";
  from_json = λ s. ok interrupted;
  write_prompt = λ p w. (ok tt, w);
  flush = λ w. (ok tt, w);
  read_line = λ w. (ok (if w == 0 then codes "confirm\n" else codes "edit\n"), w + 1);
  decision_from_json = reply;
  quoted = λ line. "";
  prompt_user = λ i w. (err (prompt "no terminal"), w);
  all_yes_armed = λ w. false;
}

abbrev completed : ConfirmState ℕ
completed = record interrupted {
  decisions =
      decided "a" skip
      ∷ record { intent_id = "b"; decision = confirm; decided_at = "tuesday" }
      ∷ record {
        intent_id = "c";
        decision = edit "totalSupply is constant";
        decided_at = "tuesday";
      }
      ∷ [];
  status = complete;
  updated_at = "tuesday";
}

gate_run : (run_gate outside "confirm/state.json" interrupted json "tuesday" 0).0 ≡ ok completed
unfolding run_gate undecided trim
gate_run = refl

run_gate-Decides_example :
    (completed.status ≡ complete) × Decides outside (undecided interrupted) interrupted completed
run_gate-Decides_example =
    run_gate-Decides outside "confirm/state.json" interrupted json "tuesday" 0 completed gate_run

abbrev resumed : ConfirmState ℕ
resumed = record interrupted {
  proposed_intents = intent "a" ∷ intent "d" ∷ [];
  updated_at = "tuesday";
}

resume_run :
    (resume_or_new outside "confirm/state.json" "run-1"
      (intent "a" ∷ intent "d" ∷ [])
      "tuesday"
      0).0
    ≡ ok resumed
unfolding resume_or_new
resume_run = refl

resume_or_new-IsDecided_example :
    (resumed.proposed_intents ≡ intent "a" ∷ intent "d" ∷ [])
    × ((old : ConfirmState ℕ) × ((load_state outside "confirm/state.json" 0).0 ≡ ok old)
        × (old.schema_version ≡ 1)
        × (old.run_id ≡ "run-1")
        × (is_decided resumed.decisions "a" ≡ is_decided old.decisions "a"))
resume_or_new-IsDecided_example =
    resume_or_new-IsDecided outside "confirm/state.json" "run-1" (intent "a" ∷ intent "d" ∷ [])
      "tuesday" 0 resumed refl resume_run (intent "a") (inl refl)

confirmed_run : Within (intent "b", confirm) (confirmed_intents completed)
unfolding confirmed_intents
confirmed_run = inl refl

confirmed_intents-chosen_example :
    Within (intent "b") completed.proposed_intents
    × ((r : DecisionRecord) × Within r completed.decisions
        × (r.intent_id ≡ "b")
        × (r.decision ≡ confirm)
        × ¬ (r.decision ≡ skip))
confirmed_intents-chosen_example =
    confirmed_intents-chosen completed (intent "b") confirm confirmed_run
