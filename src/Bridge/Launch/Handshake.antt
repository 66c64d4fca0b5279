-- ===== src/Bridge/Launch/Handshake.antt =====
-- acp/ndjsonclient.go: the handshake of Launch in steps: authenticate, newSession, loadSession,
-- configureSession, and the order in which Launch calls them.
use go_agent_wrapper.Shared.{
  Bytes, bytes, ◌==◌, Bool, true, not, ◌&&◌, Option, none, some, ◌⊎◌, inl, inr, List, [], ◌∷◌, ◌++◌,
  is_empty, if◌then◌else◌,
}
use go_agent_wrapper.Bridge.Servers.{WireServer, session_mcp_servers, sort}
use go_agent_wrapper.Bridge.Launch.{
  AuthMethod, InitializeResult, parse_initialize_result, protocol_version, ConfigValue, text, flag,
  other_type, LaunchParams, Request, initialize, authenticate, session_new, session_load, set_mode,
  set_config_option, NewResult, bad_json, new_id, Agent, LaunchError, initialize_failed,
  authenticate_failed, load_failed, new_failed, mode_failed, negotiation_failed, needs_terminal,
  not_advertised, unsupported_option, servers_invalid, new_undecodable, new_empty, option_failed,
  LaunchEvent, session_lost, session_ready, Progress, at_start,
}

-- A step of the launch: it may fail, and it changes what was done so far.
abbrev pub M : Type 0 → Type 0
M A = Progress → (LaunchError ⊎ A) × Progress

abbrev pub bind_result :
    {A B : Type 0} → (LaunchError ⊎ A) × Progress → (A → M B) → (LaunchError ⊎ B) × Progress
bind_result (inl e, p) f = (inl e, p)
bind_result (inr a, p) f = f a p

infixl 5 ◌>>=◌ ◌>>◌
abbrev pub ◌>>=◌ : {A B : Type 0} → M A → (A → M B) → M B
◌>>=◌ m f p = bind_result (m p) f

abbrev pub ◌>>◌ : {B : Type 0} → M (Unit {0}) → M B → M B
m >> k = m >>= λ _. k

abbrev pub fail : {A : Type 0} → LaunchError → M A
fail e p = (inl e, p)

abbrev pub pure : {A : Type 0} → A → M A
pure a p = (inr a, p)

-- c.Call: the request goes out, and the agent's answer comes back.
abbrev pub sent : Request → Progress → Progress
sent request p = record p { requests = p.requests ++ request ∷ [] }

-- A Call of which only the error counts.
abbrev pub call_plain : (Bytes → LaunchError) → Request → Option Bytes → M (Unit {0})
call_plain failed request none p = (inr tt, sent request p)
call_plain failed request (some e) p = (inl (failed e), sent request p)

abbrev pub call : {A : Type 0} → (Bytes → LaunchError) → Request → Bytes ⊎ A → M A
call failed request (inl e) p = (inl (failed e), sent request p)
call failed request (inr a) p = (inr a, sent request p)

abbrev pub lift : {E A : Type 0} → (E → LaunchError) → E ⊎ A → M A
lift failed (inl e) p = (inl (failed e), p)
lift failed (inr a) p = (inr a, p)

-- The first advertised method of the id.
unfoldable pub find_method : Bytes → List AuthMethod → Option AuthMethod
unfolding ◌==◌
find_method id [] = none
find_method id (method ∷ rest) = if method.id == id then some method else find_method id rest

abbrev pub use_method : Bytes → Agent → Option AuthMethod → M (Unit {0})
unfolding ◌==◌
use_method id agent none = fail (not_advertised id)
use_method id agent (some method) =
    if method.type == bytes "terminal"
    then fail (needs_terminal id)
    else call_plain authenticate_failed (authenticate id) agent.on_authenticate

-- authenticate
unfoldable pub authenticate_with : Bytes → Agent → InitializeResult → M (Unit {0})
unfolding find_method ◌==◌
authenticate_with id agent result =
    if is_empty id then pure tt else use_method id agent (find_method id result.auth_methods)

abbrev pub set_session : Bytes → M (Unit {0})
set_session id p = (inr tt, record p { session_id = id })

abbrev pub take_new : NewResult → M (Unit {0})
take_new bad_json = fail new_undecodable
take_new (new_id id) = if is_empty id then fail new_empty else set_session id

-- newSession
unfoldable pub new_session : LaunchParams → Agent → List WireServer → M (Unit {0})
new_session params agent servers = do
  answer ← call new_failed (session_new params.cwd servers) agent.on_new
  take_new answer

-- loadSession, and the session id that Launch then has.
unfoldable pub load_session : LaunchParams → Agent → List WireServer → M (Unit {0})
load_session params agent servers = do
  call_plain load_failed (session_load params.session_id_preset params.cwd servers) agent.on_load
  set_session params.session_id_preset

abbrev pub session_id : M Bytes
session_id p = (inr p.session_id, p)

abbrev pub set_option : Agent → Bytes → Bytes → ConfigValue → M (Unit {0})
set_option agent session key other_type = fail (unsupported_option key)
set_option agent session key (text value) =
    call_plain (option_failed key) (set_config_option session key (text value))
      (agent.on_option key)
set_option agent session key (flag value) =
    call_plain (option_failed key) (set_config_option session key (flag value))
      (agent.on_option key)

-- The loop of configureSession over the sorted keys.
unfoldable pub set_options : Agent → Bytes → List (Bytes × ConfigValue) → M (Unit {0})
set_options agent session [] = pure tt
set_options agent session ((key, value) ∷ rest) =
    set_option agent session key value >> set_options agent session rest

abbrev pub choose_mode : LaunchParams → Agent → Bytes → M (Unit {0})
choose_mode params agent session =
    if is_empty params.session_mode_id
    then pure tt
    else call_plain mode_failed (set_mode session params.session_mode_id) agent.on_mode

-- configureSession
unfoldable pub configure_session : LaunchParams → Agent → M (Unit {0})
configure_session params agent = do
  session ← session_id
  choose_mode params agent session
  set_options agent session (sort params.session_config)

abbrev pub set_session_close : Bool → M (Unit {0})
set_session_close b p = (inr tt, record p { session_close = b })

-- ReportSkippedMCPServers
abbrev pub report_skipped : List Bytes → M (Unit {0})
report_skipped skipped p = (inr tt, record p { skipped = skipped })

abbrev pub set_system_prompt : Bytes → M (Unit {0})
set_system_prompt prompt p = (inr tt, record p { system_prompt = prompt })

abbrev pub emit : LaunchEvent → M (Unit {0})
emit event p = (inr tt, record p { events = p.events ++ event ∷ [] })

-- The session is loaded where the preset can be honoured.
abbrev pub is_loaded : LaunchParams → InitializeResult → Bool
is_loaded params result = not (is_empty params.session_id_preset) && result.load_session

abbrev pub open_session : LaunchParams → Agent → InitializeResult → List WireServer → M (Unit {0})
open_session params agent result servers =
    if is_loaded params result
    then load_session params agent servers
    else new_session params agent servers

-- A preset that the agent cannot load is not resumed, and the host is told.
abbrev pub is_lost : LaunchParams → InitializeResult → Bool
is_lost params result = not (is_empty params.session_id_preset) && not result.load_session

abbrev pub report_lost : LaunchParams → InitializeResult → M (Unit {0})
report_lost params result = do
  actual ← session_id
  if is_lost params result then emit (session_lost params.session_id_preset actual) else pure tt

-- The end of the handshake, once the session is open.
unfoldable pub settle : LaunchParams → Agent → InitializeResult → M (Unit {0})
settle params agent result = do
  configure_session params agent
  set_system_prompt params.system_prompt
  report_lost params result
  emit session_ready

-- From the MCP servers on.
unfoldable pub establish : LaunchParams → Agent → InitializeResult → M (Unit {0})
establish params agent result = do
  servers ← lift servers_invalid (session_mcp_servers params.mcp_servers result.mcp_http)
  report_skipped servers.1
  open_session params agent result servers.0
  settle params agent result

unfoldable pub handshake : LaunchParams → Agent → M (Unit {0})
handshake params agent = do
  raw ← call initialize_failed initialize agent.on_initialize
  result ← lift negotiation_failed (parse_initialize_result raw protocol_version)
  authenticate_with params.auth_method_id agent result
  set_session_close result.session_close
  establish params agent result

-- Every failure of the handshake closes the client.
abbrev pub close_on_error :
    (LaunchError ⊎ Unit {0}) × Progress → (LaunchError ⊎ Unit {0}) × Progress
close_on_error (inl e, p) = (inl e, record p { closed = true })
close_on_error (inr done, p) = (inr done, p)

-- Launch, from the process on.
unfoldable pub launch : LaunchParams → Agent → (LaunchError ⊎ Unit {0}) × Progress
launch params agent = close_on_error (handshake params agent at_start)
