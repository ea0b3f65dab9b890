-- ===== src/Confirm/Gate.antt =====
-- The state file and the three driving modes of the confirmation gate
-- (crates/vergil-core/src/confirm.rs).
pub mod Laws
pub mod Examples
use vergil.Prelude.{
  ℕ, zero, suc, ◌+◌, ◌≡◌, String, Bool, true, false, not, Option, none, some, List, [], ◌∷◌, ◌++◌,
  ◌<>◌, Result, ok, err, length, any, select, find, if◌then◌else◌, ◌==◌, str_eq, map_err, and_then,
  failing, is_empty,
}
use vergil.Prelude.Chars.{Text, trim}
use vergil.Confirm.{
  ProposedIntent, Decision, confirm, skip, edit, DecisionRecord, ConfirmStatus, pending,
  in_progress, complete, ConfirmState, ConfirmError, io, parse, schema_mismatch, run_id_mismatch,
  prompt, invalid_agent_decision, new_state, is_decided, undecided, prompt_of, Outside,
  confirm_state_schema_version,
}

pub data GateMode : Type 0 where
  auto_yes tty json : GateMode

is_blank : Text → Bool
is_blank [] = true
is_blank (c ∷ s) = false

module _ {F W : Type 0} (out : Outside F W) where
  create_parent : Option String → W → Result ConfirmError (Unit {0}) × W
  create_parent none w = (ok tt, w)
  create_parent (some dir) w = failing (io dir) (out.create_dir_all dir w)

  pub save_state : String → ConfirmState F → W → Result ConfirmError (Unit {0}) × W
  unfolding create_parent
  save_state path s w =
      let tmp = out.with_extension path "json.tmp" in
      and_then (create_parent (out.parent path) w) λ _ w1.
        and_then (map_err (parse path) (out.to_json s), w1)
          λ body w2.
            and_then (failing (io tmp) (out.write tmp body w2))
              λ _ w3. failing (io path) (out.rename tmp path w3)

  check_version : ConfirmState F → Result ConfirmError (ConfirmState F)
  check_version s =
      if s.schema_version == confirm_state_schema_version
      then ok s
      else err (schema_mismatch s.schema_version confirm_state_schema_version)

  pub load_state : String → W → Result ConfirmError (ConfirmState F) × W
  unfolding check_version
  load_state path w = and_then (failing (io path) (out.read_to_string path w)) λ body w1.
      and_then (map_err (parse path) (out.from_json body), w1) λ s w2. (check_version s, w2)

  read_decision : Text → Result ConfirmError Decision
  unfolding is_blank
  read_decision line =
      if is_blank line
      then err (invalid_agent_decision "EOF before decision")
      else map_err (λ e. invalid_agent_decision (e <> (": input was " <> out.quoted line)))
          (out.decision_from_json (trim line))

  -- How each mode comes to a decision on one intent.
  answer : GateMode → ProposedIntent F → W → Result ConfirmError Decision × W
  unfolding read_decision
  answer auto_yes i w = (ok confirm, w)
  answer tty i w = if out.all_yes_armed w then (ok confirm, w) else out.prompt_user i w
  answer json i w = and_then (failing prompt (out.write_prompt (prompt_of i) w)) λ _ w1.
      and_then (failing prompt (out.flush w1))
        λ _ w2. and_then (failing prompt (out.read_line w2)) λ line w3. (read_decision line, w3)

  push_decision : ProposedIntent F → Decision → String → ConfirmState F → ConfirmState F
  push_decision i d now s = record s {
    decisions = s.decisions ++ record { intent_id = i.id; decision = d; decided_at = now } ∷ [];
    updated_at = now;
  }

  -- The loop over the pending intents; each decision is saved before the next intent.
  decide_all :
      String
      → GateMode
      → String
      → List (ProposedIntent F)
      → ConfirmState F
      → W
      → Result ConfirmError (ConfirmState F) × W
  unfolding answer push_decision save_state
  decide_all path mode now [] s w = (ok s, w)
  decide_all path mode now (i ∷ is) s w = and_then (answer mode i w) λ d w1.
      and_then (save_state path (push_decision i d now s) w1)
        λ _ w2. decide_all path mode now is (push_decision i d now s) w2

  finish_gate : String → String → ConfirmState F → W → Result ConfirmError (ConfirmState F) × W
  unfolding save_state
  finish_gate path now s w =
      let done = record s { status = complete; updated_at = now } in
      and_then (save_state path done w) λ _ w1. (ok done, w1)

  gate_from :
      String
      → GateMode
      → String
      → List (ProposedIntent F)
      → ConfirmState F
      → W
      → Result ConfirmError (ConfirmState F) × W
  unfolding finish_gate decide_all save_state
  gate_from path mode now [] s w = finish_gate path now s w
  gate_from path mode now (i ∷ is) s w =
      let started = record s { status = in_progress } in
      and_then (save_state path started w) λ _ w1.
        and_then (decide_all path mode now (undecided started) started w1)
          λ s2 w2. finish_gate path now s2 w2

  pub run_gate :
      String → ConfirmState F → GateMode → String → W → Result ConfirmError (ConfirmState F) × W
  unfolding gate_from
  run_gate path start mode now w = gate_from path mode now start.proposed_intents start w

  merged_status : List DecisionRecord → List (ProposedIntent F) → ConfirmStatus
  merged_status [] [] = complete
  merged_status [] (i ∷ is) = pending
  merged_status (d ∷ ds) is = if length (d ∷ ds) == length is then complete else in_progress

  -- The decisions for intents that are no longer proposed are dropped.
  merged : String → List (ProposedIntent F) → String → ConfirmState F → ConfirmState F
  unfolding merged_status
  merged run_id fresh now existing =
      let surviving =
        select (λ (d : DecisionRecord). any (λ i. str_eq i.id d.intent_id) fresh)
          existing.decisions in
      record (new_state run_id fresh existing.started_at) {
        decisions = surviving;
        updated_at = now;
        status = merged_status surviving fresh;
      }

  -- The merge of the loaded state with the fresh intents.
  merge :
      String
      → List (ProposedIntent F)
      → String
      → ConfirmState F
      → Result ConfirmError (ConfirmState F)
  unfolding merged
  merge run_id fresh now existing =
      if str_eq existing.run_id run_id
      then ok (merged run_id fresh now existing)
      else err (run_id_mismatch existing.run_id run_id)

  pub resume_or_new :
      String
      → String
      → List (ProposedIntent F)
      → String
      → W
      → Result ConfirmError (ConfirmState F) × W
  unfolding load_state merge
  resume_or_new path run_id fresh now w =
      if out.is_file path w
      then (and_then (load_state path w) λ existing w1. (merge run_id fresh now existing, w1))
      else (ok (new_state run_id fresh now), w)
