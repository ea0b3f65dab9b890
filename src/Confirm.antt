-- ===== src/Confirm.antt =====
-- The state of the intent confirmation gate (crates/vergil-core/src/confirm.rs) and what it calls. `F` is the type of `f32`; `W` is the state of the outside: the files,
-- the prompter, the agent's input and output. Timestamps are texts.
pub mod Chosen
pub mod Gate
use vergil.Prelude.{
  ℕ, zero, suc, ◌+◌, ◌≡◌, String, Bool, true, false, not, Option, none, some, List, [], ◌∷◌, ◌++◌,
  ◌<>◌, Result, ok, err, length, any, select, find, if◌then◌else◌, ◌==◌, str_eq, map_err, is_empty,
}
use vergil.Prelude.Chars.{Text, trim}
use vergil.Synthesis.{Source, user_intent, attack_catalog, conformance, tests, nat_spec, structural}

abbrev pub confirm_state_schema_version : ℕ
confirm_state_schema_version = 1

pub record ProposedIntent (F : Type 0) : Type 0 where
  pub id : String
  pub source : Source
  pub intent_text : String
  pub rationale : String
  pub confidence : F
  pub template_ref : Option String

pub data Decision : Type 0 where
  confirm skip : Decision
  edit : (new_text : String) → Decision

pub record DecisionRecord : Type 0 where
  pub intent_id : String
  pub decision : Decision
  pub decided_at : String

pub data ConfirmStatus : Type 0 where
  pending in_progress complete : ConfirmStatus

pub record ConfirmState (F : Type 0) : Type 0 where
  pub schema_version : ℕ
  pub run_id : String
  pub proposed_intents : List (ProposedIntent F)
  pub decisions : List DecisionRecord
  pub status : ConfirmStatus
  pub started_at : String
  pub updated_at : String

pub data ConfirmError : Type 0 where
  io : (path : String) (source : String) → ConfirmError
  parse : (path : String) (source : String) → ConfirmError
  schema_mismatch : (got expected : ℕ) → ConfirmError
  run_id_mismatch : (state current : String) → ConfirmError
  prompt : (source : String) → ConfirmError
  invalid_agent_decision : (why : String) → ConfirmError

abbrev pub new_state : {F : Type 0} → String → List (ProposedIntent F) → String → ConfirmState F
new_state run_id intents now = record {
  schema_version = confirm_state_schema_version;
  run_id = run_id;
  proposed_intents = intents;
  decisions = [];
  status = pending;
  started_at = now;
  updated_at = now;
}

-- `decided_ids().contains(id)`
abbrev pub is_decided : List DecisionRecord → String → Bool
is_decided ds id = any (λ (d : DecisionRecord). str_eq d.intent_id id) ds

unfoldable pub undecided : {F : Type 0} → ConfirmState F → List (ProposedIntent F)
undecided s = select (λ i. not (is_decided s.decisions i.id)) s.proposed_intents

abbrev pub is_skip : Decision → Bool
is_skip skip = true
is_skip _ = false

confirmed_one :
    {F : Type 0} → Option (ProposedIntent F) → Decision → List (ProposedIntent F × Decision)
confirmed_one none d = []
confirmed_one (some i) d = if is_skip d then [] else (i, d) ∷ []

confirmed_from :
    {F : Type 0}
    → List (ProposedIntent F)
    → List DecisionRecord
    → List (ProposedIntent F × Decision)
unfolding confirmed_one
confirmed_from proposed [] = []
confirmed_from proposed (d ∷ ds) =
    confirmed_one (find (λ i. str_eq i.id d.intent_id) proposed) d.decision
    ++ confirmed_from proposed ds

unfoldable pub confirmed_intents :
    {F : Type 0} → ConfirmState F → List (ProposedIntent F × Decision)
unfolding confirmed_from
confirmed_intents s = confirmed_from s.proposed_intents s.decisions

source_wire : Source → String
source_wire user_intent = "user_intent"
source_wire attack_catalog = "attack_catalog"
source_wire conformance = "conformance"
source_wire tests = "tests"
source_wire nat_spec = "nat_spec"
source_wire structural = "structural"

-- The JSON object of a prompt.
pub record IntentPrompt (F : Type 0) : Type 0 where
  pub kind : String
  pub id : String
  pub source : String
  pub intent_text : String
  pub rationale : String
  pub confidence : F
  pub template_ref : Option String

unfoldable pub prompt_of : {F : Type 0} → ProposedIntent F → IntentPrompt F
unfolding source_wire
prompt_of i = record {
  kind = "intent_prompt";
  id = i.id;
  source = source_wire i.source;
  intent_text = i.intent_text;
  rationale = i.rationale;
  confidence = i.confidence;
  template_ref = i.template_ref;
}

-- Files, JSON and the two ends of the agent's pipe. A failure is its error as text.
pub record Outside (F W : Type 0) : Type 0 where
  pub is_file : String → W → Bool
  pub read_to_string : String → W → Result String String × W
  pub create_dir_all : String → W → Result String (Unit {0}) × W
  pub write : String → String → W → Result String (Unit {0}) × W
  pub rename : String → String → W → Result String (Unit {0}) × W
  pub parent : String → Option String
  pub with_extension : String → String → String
  pub to_json : ConfirmState F → Result String String
  pub from_json : String → Result String (ConfirmState F)
  pub write_prompt : IntentPrompt F → W → Result String (Unit {0}) × W
  pub flush : W → Result String (Unit {0}) × W
  -- The line read, empty at the end of the input.
  pub read_line : W → Result String Text × W
  pub decision_from_json : Text → Result String Decision
  -- `{:?}` of a line
  pub quoted : Text → String
  pub prompt_user : ProposedIntent F → W → Result ConfirmError Decision × W
  pub all_yes_armed : W → Bool
