-- ===== src/Agents/Output.antt =====
-- runtime/structured_output.py. `json.loads`, the JSON schema, the binding of evidence, the texts
-- of errors, the slug of a name, the instruction and the client of the model are parameters; the
-- client takes a state along, and may raise. The clock is read from that state. The budget is passed
-- on within one call: reservations of other nodes while it waits for the client are not modelled here.
use Prim.Native.String.{String, ◌++◌ as append}
use world_class_seo_agent_sy.Prelude.{
  ℕ, zero, suc, Bool, false, not, ◌&&◌, eqb, List, [], ◌∷◌, ◌++◌, map, take, is_empty, join, Option,
  none, some, Result, ok, err, if◌then◌else◌,
}
use world_class_seo_agent_sy.Budget.Limits.{Float}
use world_class_seo_agent_sy.Budget.Usage.{BudgetExceeded, RunBudget, Estimator, reserve_model_call}
use world_class_seo_agent_sy.Agents.Specialist.{
  SpecialistOutput, DecisionError, is_text, error_if, specialist_output_errors,
}
use world_class_seo_agent_sy.Agents.Fences.{unfenced, object_text}

-- An output: what the checks of this file read, and the rest.
pub record AgentObject (Body : Type 0) : Type 0 where
  pub known : SpecialistOutput
  pub output_id : Option String
  pub skills_used : Option (List String)
  pub knowledge_used : Option (List String)
  pub body : Body

-- What `json.loads` gives.
pub data Loaded (Body : Type 0) : Type 0 where
  malformed no_object : Loaded Body
  object : AgentObject Body → Loaded Body

pub data OutputError : Type 0 where
  unreadable no_json_object wrong_agent reserved_synthetic validation_failed : OutputError
  schema_error binding_error : String → OutputError
  decision_error : DecisionError → OutputError
  exceeded : BudgetExceeded → OutputError

pub data OutputStatus : Type 0 where
  succeeded failed blocked : OutputStatus

pub record LlmMessage : Type 0 where
  pub role : String
  pub content : String

pub record StructuredOutput (Body : Type 0) : Type 0 where
  pub status : OutputStatus
  pub output : Option (AgentObject Body)
  pub errors : List OutputError
  pub attempts : ℕ
  pub response : Option String
  pub synthetic : Bool

pub record Client (F : Float) (World : Type 0) : Type 0 where
  pub complete : World → List LlmMessage → Result String String × World
  pub estimator : World → List LlmMessage → Estimator F
  pub clock : World → ℕ

pub record Validators (Body : Type 0) : Type 0 where
  pub json_loads : String → Loaded Body
  pub schema_errors : AgentObject Body → List String
  pub binding_errors : AgentObject Body → List String
  pub describe : OutputError → String
  pub slug : String → String

-- What the service leaves: a result or the exception of the client, its state and the budget.
pub record Completion (F : Float) (Body World : Type 0) : Type 0 where
  pub result : Result String (StructuredOutput Body)
  pub world : World
  pub budget : RunBudget F

module _ {Body : Type 0} (v : Validators Body) where
  open v use {json_loads, schema_errors, binding_errors, describe, slug}

  abbrev pub loaded : Loaded Body → Result OutputError (AgentObject Body)
  loaded malformed = err unreadable
  loaded no_object = err no_json_object
  loaded (object output) = ok output

  abbrev pub load_inner : Option String → Result OutputError (AgentObject Body)
  load_inner none = err no_json_object
  load_inner (some text) = loaded (json_loads text)

  abbrev pub load_text : String → Loaded Body → Result OutputError (AgentObject Body)
  load_text text malformed = load_inner (object_text text)
  load_text text no_object = err no_json_object
  load_text text (object output) = ok output

  unfoldable pub extract_json : String → Result OutputError (AgentObject Body)
  extract_json content = load_text (unfenced content) (json_loads (unfenced content))

  -- `_errors`
  unfoldable pub output_errors : AgentObject Body → String → Bool → List OutputError
  output_errors output expected_agent allow_synthetic =
      map schema_error (schema_errors output)
      ++ (error_if (not (is_text output.known.agent expected_agent)) wrong_agent
          ++ (map decision_error (specialist_output_errors output.known)
              ++ (map binding_error (binding_errors output)
                  ++ error_if
                      (not allow_synthetic && is_text output.known.execution_state "SYNTHETIC")
                      reserved_synthetic)))

  abbrev pub or_else {ℓ} : {A : Type ℓ} → Option A → A → Option A
  or_else none a = some a
  or_else (some b) a = some b

  unfoldable pub with_defaults :
      String → List String → List String → AgentObject Body → AgentObject Body
  with_defaults agent_name skills knowledge output = record output {
    output_id = or_else output.output_id (append (slug agent_name) "-output");
    skills_used = or_else output.skills_used skills;
    knowledge_used = or_else output.knowledge_used knowledge;
  }

  unfoldable pub validated_response :
      String → String → List String → List String → Option (AgentObject Body) × List OutputError
  validated_response content agent_name skills knowledge = elim (extract_json content) [
    | err e ↦ (none, e ∷ [])
    | ok output ↦
        let complete' = with_defaults agent_name skills knowledge output in
        (some complete', output_errors complete' agent_name false)
  ]

  abbrev pub correction_message : List OutputError → LlmMessage
  correction_message errors = record {
    role = "user";
    content =
        append
          "Your previous output was invalid. Correct only the JSON object. Validation errors:\n- "
          (join "\n- " (map describe (take 20 errors)));
  }

  abbrev pub failure : List OutputError → ℕ → Option String → StructuredOutput Body
  failure errors attempts response = record {
    status = failed;
    output = none;
    errors = if is_empty errors then validation_failed ∷ [] else errors;
    attempts = attempts;
    response = response;
    synthetic = false;
  }

  abbrev pub blocking : BudgetExceeded → ℕ → Option String → StructuredOutput Body
  blocking e attempts response = record {
    status = blocked;
    output = none;
    errors = exceeded e ∷ [];
    attempts = attempts;
    response = response;
    synthetic = false;
  }

  abbrev pub success : Option (AgentObject Body) → ℕ → String → StructuredOutput Body
  success output attempts response = record {
    status = succeeded;
    output = output;
    errors = [];
    attempts = attempts;
    response = some response;
    synthetic = false;
  }

  -- The agent, its skills and its knowledge.
  pub record Request : Type 0 where
    pub agent_name : String
    pub skills : List String
    pub knowledge : List String
    pub messages : List LlmMessage
    pub instruction : LlmMessage

module _ {F : Float} {Body World : Type 0} (v : Validators Body) (client : Client F World)
    (q : Request v) where
  open client use {complete, estimator, clock}

  -- The rounds that are left, of `range(max_correction_attempts + 1)`; `attempts` tells the first
  -- from corrections.
  unfoldable pub correct :
      ℕ
      → ℕ
      → List LlmMessage
      → List OutputError
      → Option String
      → World
      → RunBudget F
      → Completion F Body World
  correct zero attempts active errors last world budget = record {
    result = ok (failure v errors attempts last);
    world = world;
    budget = budget;
  }
  correct (suc left) attempts active errors last world budget =
      let reserved =
        reserve_model_call (clock world) (not (eqb attempts 0)) (estimator world active) budget in
      let answer = complete world active in
      elim reserved.0 [
        | some e ↦ record {
          result = ok (blocking v e attempts last);
          world = world;
          budget = reserved.1;
        }
        | none ↦ elim answer.0 [
          | err e ↦ record { result = err e; world = answer.1; budget = reserved.1 }
          | ok response ↦
              let checked = validated_response v response q.agent_name q.skills q.knowledge in
              let again =
                correct left (suc attempts)
                  (q.messages ++ q.instruction ∷ correction_message v checked.1 ∷ []) checked.1
                  (some response) answer.1 reserved.1 in
              let done : Completion F Body World = record {
                result = ok (success v checked.0 (suc attempts) response);
                world = answer.1;
                budget = reserved.1;
              } in
              if is_empty checked.1 then done else again
        ]
      ]

  unfoldable pub complete_live : World → RunBudget F → Completion F Body World
  complete_live world budget =
      correct (suc budget.limits.correction_attempts) 0 (q.messages ++ q.instruction ∷ []) [] none
        world budget
