-- ===== src/Turnoutput/Output.antt =====
-- turnoutput/output.go: what a reducer reports and how it is configured.
use go_agent_wrapper.Shared.{Bytes, bytes, List, [], ◌∷◌}

pub data Kind : Type 0 where
  final question approval failure terminal : Kind

pub data Confidence : Type 0 where
  exact heuristic : Confidence

pub record Output : Type 0 where
  pub session_id : Bytes
  pub turn_id : Bytes
  pub text : Bytes
  pub kind : Kind
  pub stop_reason : Bytes
  pub runtime : Bytes
  pub confidence : Confidence

abbrev pub default_question_tools : List Bytes
default_question_tools = bytes "AskUserQuestion" ∷ bytes "request_user_input" ∷ []
