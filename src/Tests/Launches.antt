-- ===== src/Tests/Launches.antt =====
-- The handshake of acp/ndjsonclient.go and acp/mcp_servers.go at concrete inputs.
use go_agent_wrapper.Shared.{bytes, ◌≡◌, refl, true, false, none, inl, inr, ◌⊎◌, ◌↔◌, [], ◌∷◌}
use go_agent_wrapper.Shared.Int.{pos}
use go_agent_wrapper.Bridge.Servers.{McpServer, session_mcp_servers, servers_loop, sort, stdio}
use go_agent_wrapper.Bridge.Servers.Chosen.{AreServers, chosen, session_mcp_servers_iff}
use go_agent_wrapper.Bridge.Launch.{
  LaunchParams, Agent, LaunchError, decoded, close_object, new_id, text, initialize, session_new,
  set_config_option, session_ready, session_lost, parse_initialize_result,
}
use go_agent_wrapper.Bridge.Launch.Handshake.{
  launch, handshake, establish, settle, authenticate_with, configure_session, set_options,
  new_session, load_session,
}
use go_agent_wrapper.Bridge.Launch.Order.{IsReady}
use go_agent_wrapper.Bridge.Launch.Returned.{launch_lem}

abbrev local : McpServer
local = record {
  name = bytes "files";
  url = [];
  headers = [];
  command = bytes "mcp";
  args = [];
  env = [];
}

abbrev remote : McpServer
remote = record local { name = bytes "web"; url = bytes "http://x"; command = [] }

-- At a local server and a remote one that the agent takes none of.
session_mcp_servers_iff_example :
    (session_mcp_servers (local ∷ remote ∷ []) false
      ≡ inr (stdio (bytes "files") (bytes "mcp") [] [] ∷ [], bytes "web" ∷ []))
    ↔ (AreServers [] (local ∷ remote ∷ [])
        × ((stdio (bytes "files") (bytes "mcp") [] [] ∷ [], bytes "web" ∷ [])
            ≡ chosen false (local ∷ remote ∷ [])))
session_mcp_servers_iff_example =
    session_mcp_servers_iff false (local ∷ remote ∷ [])
      (stdio (bytes "files") (bytes "mcp") [] [] ∷ [], bytes "web" ∷ [])

-- A preset that the agent cannot load, and two options.
abbrev params : LaunchParams
params = record {
  cwd = bytes "/w";
  system_prompt = [];
  session_id_preset = bytes "old";
  auth_method_id = [];
  session_mode_id = [];
  mcp_servers = local ∷ [];
  session_config = (bytes "model", text (bytes "m")) ∷ (bytes "effort", text (bytes "high")) ∷ [];
}

abbrev agent : Agent
agent = record {
  on_initialize = inr (
      decoded (record {
        protocol_version = pos 1;
        auth_methods = [];
        load_session = false;
        mcp_http = false;
        close = close_object;
      }));
  on_authenticate = none;
  on_load = none;
  on_mode = none;
  on_new = inr (new_id (bytes "s"));
  on_option = λ _. none;
}

launch_test :
    ((launch params agent).1.requests
      ≡ initialize
        ∷ session_new (bytes "/w") (stdio (bytes "files") (bytes "mcp") [] [] ∷ [])
        ∷ set_config_option (bytes "s") (bytes "effort") (text (bytes "high"))
        ∷ set_config_option (bytes "s") (bytes "model") (text (bytes "m"))
        ∷ [])
    × ((launch params agent).1.events ≡ session_lost (bytes "old") (bytes "s") ∷ session_ready ∷ [])
unfolding launch handshake establish settle authenticate_with configure_session set_options
    new_session load_session parse_initialize_result session_mcp_servers servers_loop sort
launch_test = (refl, refl)

-- At that agent.
launch_lem_example :
    (((launch params agent).0 ≡ inr tt) × IsReady params agent (launch params agent).1)
    ⊎ ((e : LaunchError) × ((launch params agent).0 ≡ inl e)
        × ((launch params agent).1.closed ≡ true)
        × ((launch params agent).1.events ≡ []))
launch_lem_example = launch_lem params agent
