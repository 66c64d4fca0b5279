-- ===== src/Bridge/Launch.antt =====
-- acp/ndjsonclient.go: the handshake of Launch, once the process runs, and ParseInitializeResult of
-- acp/client.go. What the agent answers is an argument; JSON is taken as decoded.
pub mod Handshake
pub mod Calls
pub mod Ready
pub mod Order
pub mod Silent
pub mod Returned
use go_agent_wrapper.Shared.{
  Bytes, bytes, ◌==◌, Bool, true, false, not, ◌&&◌, ◌||◌, Option, none, some, ◌⊎◌, inl, inr, List,
  [], ◌∷◌, ◌++◌, is_empty, if◌then◌else◌,
}
use go_agent_wrapper.Shared.Int.{ℤ, pos, int_eq}
use go_agent_wrapper.Bridge.Servers.{McpServer, WireServer, ServerError, session_mcp_servers, sort}

pub record AuthMethod : Type 0 where
  pub id : Bytes
  pub type : Bytes

-- The JSON value of sessionCapabilities.close.
pub data CloseValue : Type 0 where
  close_absent close_null close_object close_other : CloseValue

pub record InitializeWire : Type 0 where
  pub protocol_version : ℤ
  pub auth_methods : List AuthMethod
  pub load_session : Bool
  pub mcp_http : Bool
  pub close : CloseValue

pub data InitializeJson : Type 0 where
  no_bytes undecodable : InitializeJson
  decoded : InitializeWire → InitializeJson

pub record InitializeResult : Type 0 where
  pub protocol_version : ℤ
  pub auth_methods : List AuthMethod
  pub load_session : Bool
  pub session_close : Bool
  pub mcp_http : Bool

pub data ParseError : Type 0 where
  empty_result not_json : ParseError
  unsupported_version : ℤ → ParseError

-- Decoding into a map: null leaves it nil.
abbrev pub is_capability : CloseValue → Bool
is_capability close_object = true
is_capability close_absent = false
is_capability close_null = false
is_capability close_other = false

-- InitializeSupportsSessionClose, on the same JSON.
unfoldable pub supports_session_close : InitializeJson → Bool
supports_session_close no_bytes = false
supports_session_close undecodable = false
supports_session_close (decoded w) = is_capability w.close

unfoldable pub parse_initialize_result : InitializeJson → ℤ → ParseError ⊎ InitializeResult
parse_initialize_result no_bytes supported = inl empty_result
parse_initialize_result undecodable supported = inl not_json
parse_initialize_result (decoded w) supported =
    if int_eq w.protocol_version supported
    then inr (record {
      protocol_version = w.protocol_version;
      auth_methods = w.auth_methods;
      load_session = w.load_session;
      session_close = is_capability w.close;
      mcp_http = w.mcp_http;
    })
    else inl (unsupported_version w.protocol_version)

-- ndjsonProtocolVersion
abbrev pub protocol_version : ℤ
protocol_version = pos 1

-- A value of SessionConfig.
pub data ConfigValue : Type 0 where
  text : Bytes → ConfigValue
  flag : Bool → ConfigValue
  other_type : ConfigValue

pub record LaunchParams : Type 0 where
  pub cwd : Bytes
  pub system_prompt : Bytes
  pub session_id_preset : Bytes
  pub auth_method_id : Bytes
  pub session_mode_id : Bytes
  pub mcp_servers : List McpServer
  pub session_config : List (Bytes × ConfigValue)

-- The requests of the handshake.
pub data Request : Type 0 where
  initialize : Request
  authenticate : Bytes → Request
  session_new : Bytes → List WireServer → Request
  session_load : Bytes → Bytes → List WireServer → Request
  set_mode : Bytes → Bytes → Request
  set_config_option : Bytes → Bytes → ConfigValue → Request

-- The result of session/new.
pub data NewResult : Type 0 where
  bad_json : NewResult
  new_id : Bytes → NewResult

-- What each Call returns: an error's text, or the result. `options` is by the option's key.
pub record Agent : Type 0 where
  pub on_initialize : Bytes ⊎ InitializeJson
  pub on_authenticate : Option Bytes
  pub on_load : Option Bytes
  pub on_mode : Option Bytes
  pub on_new : Bytes ⊎ NewResult
  pub on_option : Bytes → Option Bytes

pub data LaunchError : Type 0 where
  initialize_failed authenticate_failed load_failed new_failed mode_failed : Bytes → LaunchError
  negotiation_failed : ParseError → LaunchError
  needs_terminal not_advertised unsupported_option : Bytes → LaunchError
  servers_invalid : ServerError → LaunchError
  new_undecodable new_empty : LaunchError
  option_failed : Bytes → Bytes → LaunchError

-- Events that Launch emits at its end.
pub data LaunchEvent : Type 0 where
  session_lost : Bytes → Bytes → LaunchEvent
  session_ready : LaunchEvent

-- What a launch has done so far.
pub record Progress : Type 0 where
  pub requests : List Request
  pub session_id : Bytes
  pub system_prompt : Bytes
  pub session_close : Bool
  pub skipped : List Bytes
  pub events : List LaunchEvent
  pub closed : Bool

abbrev pub at_start : Progress
at_start = record {
  requests = [];
  session_id = [];
  system_prompt = [];
  session_close = false;
  skipped = [];
  events = [];
  closed = false;
}
