-- ===== src/Turnoutput/Feed/Payload.antt =====
-- turnoutput/feed.go: the payloads that the feeds read, and what is read out of them.
use go_agent_wrapper.Shared.{
  Bytes, bytes, ◌==◌, is_empty, trim_space, trim_quotes, to_lower, has_suffix, Bool, true, false,
  not, ◌||◌, Option, none, some, List, [], ◌∷◌, ◌++◌, if◌then◌else◌,
}

pub record QuestionItem : Type 0 where
  pub question : Bytes
  pub text : Bytes
  pub header : Bytes

pub record QuestionInput : Type 0 where
  pub questions : List QuestionItem
  pub question : Bytes
  pub prompt : Bytes

-- `thinking` is the raw JSON.
pub record DeltaPayload : Type 0 where
  pub content : Bytes
  pub text : Bytes
  pub phase : Bytes
  pub block_id : Bytes
  pub thinking : Bytes

pub record Call : Type 0 where
  pub id : Bytes
  pub name : Bytes
  pub input : Option QuestionInput

-- `call` holds tool_call_id, name and raw_input.
pub record ToolUsePayload : Type 0 where
  pub tool_use : Option Call
  pub call : Call
  pub title : Bytes

pub record ResultFields : Type 0 where
  pub id : Bytes
  pub is_error : Option Bool
  pub status : Bytes

-- `flat` holds tool_call_id, is_error and status.
pub record ToolResultPayload : Type 0 where
  pub tool_result : Option ResultFields
  pub flat : ResultFields

-- A request's command is a line or a list of arguments.
pub data Command : Type 0 where
  no_command : Command
  line : Bytes → Command
  argv : List Bytes → Command

pub record RequestParams : Type 0 where
  pub title : Bytes
  pub command : Command
  pub reason : Bytes

-- `request_id` is the raw JSON; `params` and `question` are two readings of the raw params.
pub record RequestedPayload : Type 0 where
  pub request_id : Bytes
  pub method : Bytes
  pub params : Option RequestParams
  pub question : Option QuestionInput

pub record ResolvedPayload : Type 0 where
  pub request_id : Bytes
  pub method : Bytes
  pub allowed : Option Bool

pub record DeniedPayload : Type 0 where
  pub action : Bytes
  pub display_name : Bytes
  pub tool_use_id : Bytes

pub record TurnPayload : Type 0 where
  pub text : Bytes
  pub error : Bytes
  pub message : Bytes
  pub reason : Bytes
  pub stop_reason : Bytes

-- The kinds of runtimeevents.Event that Observe tells apart, with their payloads.
pub data EventKind : Type 0 where
  turn_started subagent_spawn other : EventKind
  agent_delta : Option DeltaPayload → EventKind
  tool_use_event : Option ToolUsePayload → EventKind
  tool_result_event : Option ToolResultPayload → EventKind
  permission_requested : Option RequestedPayload → EventKind
  permission_resolved : Option ResolvedPayload → EventKind
  permission_denied : DeniedPayload → EventKind
  turn_completed turn_failed : TurnPayload → EventKind
  process_exited : Bytes → EventKind

pub record Event : Type 0 where
  pub kind : EventKind
  pub id : Bytes
  pub parent_id : Bytes
  pub session_id : Bytes
  pub turn_id : Bytes
  pub provider : Bytes

-- The typed events of go-providers; an error has its message and the text of its Err.
pub data ProviderEvent : Type 0 where
  delta : Bytes → Bytes → Bytes → ProviderEvent
  thinking subagent_spawn : ProviderEvent
  tool_use : Bytes → Bytes → Option QuestionInput → ProviderEvent
  tool_result : Bytes → Bool → ProviderEvent
  usage : Bytes → ProviderEvent
  permission_denied : Bytes → Bytes → Bytes → ProviderEvent
  done : Bytes → Bytes → ProviderEvent
  error : Bytes → Option Bytes → ProviderEvent

-- llmtypes.StreamEvent
pub data StreamEvent : Type 0 where
  delta : Bytes → Bytes → Bytes → StreamEvent
  thinking other : StreamEvent
  tool_use : Option (Bytes × Bytes × Option QuestionInput) → StreamEvent
  usage : Option Bytes → StreamEvent
  done : Bytes → StreamEvent
  error : Bytes → StreamEvent

unfoldable pub is_thought : Bytes → Bool
is_thought phase = to_lower phase == bytes "thought" || to_lower phase == bytes "thinking"

unfoldable pub is_final_phase : Bytes → Bool
is_final_phase phase = to_lower phase == bytes "final" || to_lower phase == bytes "final_answer"

unfoldable pub truthy : Bytes → Bool
truthy raw =
    not (
      is_empty (trim_space raw)
      || trim_space raw == bytes "null"
      || trim_space raw == bytes "false")

-- firstNonEmpty
unfoldable pub first_non_empty : List Bytes → Bytes
first_non_empty [] = []
first_non_empty (s ∷ ss) = let rest = first_non_empty ss in if not (is_empty s) then s else rest

unfoldable pub id_key : Bytes → Bytes
id_key raw = trim_quotes (trim_space raw)

unfoldable pub is_question_method : Bytes → Bool
is_question_method method = has_suffix (to_lower method) (bytes "requestuserinput")

-- strings.Join
unfoldable pub join : Bytes → List Bytes → Bytes
join sep [] = []
join sep (s ∷ []) = s
join sep (s ∷ s' ∷ ss) = s ++ (sep ++ join sep (s' ∷ ss))

-- The loop of questionText.
unfoldable pub question_lines : List QuestionItem → List Bytes
unfolding first_non_empty
question_lines [] = []
question_lines (q ∷ qs) =
    let s = first_non_empty (q.question ∷ q.text ∷ q.header ∷ []) in
    let rest = question_lines qs in if not (is_empty s) then s ∷ rest else rest

unfoldable pub question_text : Option QuestionInput → Bytes
unfolding question_lines join first_non_empty
question_text none = []
question_text (some p) =
    if not (is_empty (question_lines p.questions))
    then join (10 ∷ []) (question_lines p.questions)
    else first_non_empty (p.question ∷ p.prompt ∷ [])

unfoldable pub command_text : Command → Bytes
unfolding join
command_text no_command = []
command_text (line s) = s
command_text (argv args) = join (32 ∷ []) args

abbrev pub has_command : Command → Bool
has_command no_command = false
has_command (line s) = not (is_empty s)
has_command (argv args) = not (is_empty args)

abbrev pub describe_method : Bytes → Bytes
describe_method method = if not (is_empty method) then method else bytes "an action"

-- The text of a request: describeRequest behind what the caller puts before it.
unfoldable pub describe_request : Bytes → Bytes → Option RequestParams → Bytes
unfolding command_text
describe_request label method none = label ++ describe_method method
describe_request label method (some p) =
    label
    ++ (if not (is_empty p.title)
        then p.title
        else if has_command p.command
        then command_text p.command
        else if not (is_empty p.reason)
        then p.reason
        else describe_method method)

unfoldable pub permission_denied_text : Bytes → Bytes → Bytes
unfolding first_non_empty
permission_denied_text action display_name =
    let what = first_non_empty (display_name ∷ action ∷ []) in
    bytes "Permission denied: " ++ (if is_empty what then bytes "an action" else what)

-- The nested call where there is one, else the flat fields.
unfoldable pub call_of : ToolUsePayload → Call
call_of p = elim p.tool_use [ none ↦ p.call | some c ↦ c ]

-- toolResultOutcome: the call's id and whether it failed; none for a progress update.
unfoldable pub outcome_of : ToolResultPayload → Option (Bytes × Bool)
outcome_of p =
    let f = elim p.tool_result as (λ _. ResultFields) [ none ↦ p.flat | some g ↦ g ] in
    elim f.is_error [
      | some flag ↦ some (f.id, flag)
      | none ↦
          if f.status == bytes "failed"
          then some (f.id, true)
          else if f.status == bytes "completed"
          then some (f.id, false)
          else none
    ]
