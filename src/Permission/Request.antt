-- ===== src/Permission/Request.antt =====
-- acp/permission.go: requests, options, resolutions, and the check of a request.
--
-- What json.Unmarshal yields for a request is the record `Wire`, or none where it fails; the raw
-- JSON, which is passed on and never read, is not modelled. A Diagnostic is its message, before
-- the redaction of acp/lifecycle.go.
use go_agent_wrapper.Shared.{
  Bytes, bytes, ◌==◌, is_empty, Bool, true, false, ◌&&◌, ◌||◌, Option, none, some, List, [], ◌∷◌,
  ◌++◌, if◌then◌else◌,
}

pub record PermissionOption : Type 0 where
  pub option_id : Bytes
  pub name : Bytes
  pub kind : Bytes

abbrev pub allow_once : Bytes
allow_once = bytes "allow_once"

abbrev pub allow_always : Bytes
allow_always = bytes "allow_always"

pub record ToolCall : Type 0 where
  pub tool_call_id : Bytes
  pub name : Bytes
  pub title : Bytes
  pub kind : Bytes
  pub status : Bytes

pub record PermissionRequest : Type 0 where
  pub session_id : Bytes
  pub tool_call : ToolCall
  pub options : List PermissionOption

pub record Wire : Type 0 where
  pub session_id : Bytes
  pub tool_call : Option ToolCall
  pub options : Option (List PermissionOption)

pub data PermissionOutcome : Type 0 where
  cancelled selected : PermissionOutcome

abbrev pub is_selected : PermissionOutcome → Bool
is_selected selected = true
is_selected cancelled = false

abbrev pub no_option : PermissionOption
no_option = record { option_id = []; name = []; kind = [] }

-- `response_failed` stands for a non-nil responseErr.
pub record Resolution : Type 0 where
  pub outcome : PermissionOutcome
  pub option : PermissionOption
  pub reason : Bytes
  pub diagnostic : Option Bytes
  pub response_failed : Bool

unfoldable pub allowed : Resolution → Bool
allowed r = is_selected r.outcome && (r.option.kind == allow_once || r.option.kind == allow_always)

-- The values of a payload's fields that the resolution decides.
pub record EventPayload : Type 0 where
  pub allowed : Bool
  pub outcome : PermissionOutcome
  pub reason : Bytes
  pub option : Option PermissionOption

unfoldable pub delivery_failure_payload : EventPayload
delivery_failure_payload = record {
  allowed = false;
  outcome = cancelled;
  reason = bytes "permission response delivery failed";
  option = none;
}

unfoldable pub resolved_payload : Resolution → EventPayload
unfolding allowed delivery_failure_payload
resolved_payload r = if r.response_failed then delivery_failure_payload else record {
  allowed = allowed r;
  outcome = r.outcome;
  reason = r.reason;
  option = if is_selected r.outcome then some r.option else none;
}

-- The result that is sent to the agent: the option's id where one is selected.
unfoldable pub result : Resolution → PermissionOutcome × Option Bytes
result r = (r.outcome, if is_selected r.outcome then some r.option.option_id else none)

unfoldable pub cancelled_permission : Bytes → Resolution
cancelled_permission reason = record {
  outcome = cancelled;
  option = no_option;
  reason = reason;
  diagnostic = none;
  response_failed = false;
}

unfoldable pub permission_failure : Bytes → Bytes → Resolution
permission_failure reason message = record {
  outcome = cancelled;
  option = no_option;
  reason = reason;
  diagnostic = some (message ++ bytes "; cancelled");
  response_failed = false;
}

unfoldable pub seen : Bytes → List Bytes → Bool
seen k [] = false
seen k (j ∷ js) = j == k || seen k js

-- The loop over the options of parsePermissionRequest.
unfoldable pub options_valid : List Bytes → List PermissionOption → Bool
unfolding seen
options_valid ids [] = true
options_valid ids (o ∷ os) =
    let rest = options_valid (o.option_id ∷ ids) os in
    if is_empty o.option_id || is_empty o.name || is_empty o.kind
    then false
    else if seen o.option_id ids
    then false
    else rest

-- parsePermissionRequest; every error is answered alike.
unfoldable pub parse_options :
    Bytes → ToolCall → Option (List PermissionOption) → Option PermissionRequest
unfolding options_valid
parse_options session_id call none = none
parse_options session_id call (some os) =
    if options_valid [] os
    then some (record { session_id = session_id; tool_call = call; options = os })
    else none

unfoldable pub parse_request : Option Wire → Option PermissionRequest
unfolding parse_options
parse_request none = none
parse_request (some w) = elim w.tool_call [
  | none ↦ none
  | some call ↦
      if is_empty w.session_id || is_empty call.tool_call_id
      then none
      else parse_options w.session_id call w.options
]

-- The loop over the options that picks the one a responder selected.
unfoldable pub find_option : Bytes → List PermissionOption → Option PermissionOption
find_option k [] = none
find_option k (o ∷ os) = let rest = find_option k os in if o.option_id == k then some o else rest

-- deliverPermissionResponse, with whether the write failed.
unfoldable pub deliver : Bool → Resolution → Resolution
deliver false r = r
deliver true r = record r {
  response_failed = true;
  diagnostic = elim r.diagnostic [
    | some d ↦ some d
    | none ↦ some (bytes "ACP permission response delivery failed; transport closed")
  ];
}
