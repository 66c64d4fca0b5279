-- ===== src/Bridge/Launch/Order.antt =====
-- acp/ndjsonclient.go: a launch that returns without an error, and one that returns with one.
use mathlib.Core.List.{append_assoc}
use go_agent_wrapper.Shared.{
  Bytes, ◌≡◌, refl, sym, ap, subst, ◌∙◌, true, false, inr, List, [], ◌∷◌, ◌++◌, is_empty,
}
use go_agent_wrapper.Bridge.Servers.{WireServer, session_mcp_servers, sort}
use go_agent_wrapper.Bridge.Launch.{
  InitializeJson, InitializeResult, parse_initialize_result, protocol_version, LaunchParams,
  Request, initialize, new_id, Agent, initialize_failed, negotiation_failed, servers_invalid,
  Progress, at_start,
}
use go_agent_wrapper.Bridge.Launch.Handshake.{
  bind_result, ◌>>=◌, ◌>>◌, sent, call, lift, authenticate_with, set_session_close, report_skipped,
  is_loaded, open_session, settle, establish, handshake,
}
use go_agent_wrapper.Bridge.Launch.Ready.{
  chooses_mode, sets_options, opens, open_lem, announces, settle_lem,
}
use go_agent_wrapper.Bridge.Launch.Calls.{
  bind_lem, call_lem, lift_lem, authenticates, added, authenticate_lem,
}

-- The requests of a launch, in their order.
abbrev pub planned : LaunchParams → InitializeResult → List WireServer → Bytes → List Request
planned params result servers session =
    initialize
    ∷ (authenticates params.auth_method_id
        ++ (opens params result servers
            ∷ (chooses_mode session params.session_mode_id
                ++ sets_options session (sort params.session_config))))

-- What a launch that succeeded has done, where `session` is the session id.
pub record IsReady (params : LaunchParams) (agent : Agent) (p : Progress) : Type 0 where
  pub raw : InitializeJson
  pub result : InitializeResult
  pub servers : List WireServer
  pub left_out : List Bytes
  pub answered : agent.on_initialize ≡ inr raw
  pub negotiated : parse_initialize_result raw protocol_version ≡ inr result
  pub chosen : session_mcp_servers params.mcp_servers result.mcp_http ≡ inr (servers, left_out)
  pub requested : p.requests ≡ planned params result servers p.session_id
  pub some_id : is_empty p.session_id ≡ false
  pub loaded : is_loaded params result ≡ true → p.session_id ≡ params.session_id_preset
  pub created : is_loaded params result ≡ false → agent.on_new ≡ inr (new_id p.session_id)
  pub announced : p.events ≡ announces params result p.session_id
  pub closes : p.session_close ≡ result.session_close
  pub prompt : p.system_prompt ≡ params.system_prompt
  pub still_open : p.closed ≡ false

-- From the servers on, for a launch that has sent `requests` so far.
record Established (params : LaunchParams) (agent : Agent) (result : InitializeResult)
    (p q : Progress) : Type 0 where
  servers : List WireServer
  left_out : List Bytes
  session : Bytes
  chosen : session_mcp_servers params.mcp_servers result.mcp_http ≡ inr (servers, left_out)
  some_id : is_empty session ≡ false
  loaded : is_loaded params result ≡ true → session ≡ params.session_id_preset
  created : is_loaded params result ≡ false → agent.on_new ≡ inr (new_id session)
  is : q ≡ record p {
    requests =
        ((p.requests ++ opens params result servers ∷ [])
          ++ chooses_mode session params.session_mode_id)
        ++ sets_options session (sort params.session_config);
    session_id = session;
    skipped = left_out;
    system_prompt = params.system_prompt;
    events = announces params result session;
  }

opened_lem :
    (params : LaunchParams) (agent : Agent) (result : InitializeResult) (servers : List WireServer)
    (left_out : List Bytes) (p q : Progress)
    → session_mcp_servers params.mcp_servers result.mcp_http ≡ inr (servers, left_out)
    → bind_result
        (open_session params agent result servers (record p { skipped = left_out }))
        (λ _. settle params agent result)
      ≡ (inr tt, q)
    → p.events ≡ []
    → Established params agent result p q
opened_lem params agent result servers left_out p q chosen h none_yet =
    let (_, p', first, later) =
      bind_lem (open_session params agent result servers (record p { skipped = left_out }))
        (λ _. settle params agent result) tt q h in
    let o =
      open_lem params agent result servers (is_loaded params result)
        (record p { skipped = left_out }) p' refl first in
    let e =
      settle_lem params agent result p' q later (ap (λ (r : Progress). r.events) o.is ∙ none_yet) in
    record {
      servers = servers;
      left_out = left_out;
      session = o.session;
      chosen = chosen;
      some_id = o.some_id;
      loaded = o.loaded;
      created = o.created;
      is =
          e
          ∙ ap
              (λ (r : Progress).
                record (added (sets_options r.session_id (sort params.session_config))
                  (added (chooses_mode r.session_id params.session_mode_id) r)) {
                    system_prompt = params.system_prompt;
                    events = announces params result r.session_id;
                  })
              o.is;
    }

establish_lem :
    (params : LaunchParams) (agent : Agent) (result : InitializeResult) (p q : Progress)
    → establish params agent result p ≡ (inr tt, q)
    → p.events ≡ []
    → Established params agent result p q
unfolding establish
establish_lem params agent result p q h none_yet =
    let ((servers, left_out), p', first, later) =
      bind_lem (lift servers_invalid (session_mcp_servers params.mcp_servers result.mcp_http) p)
        (λ servers.
          report_skipped servers.1
          >> (open_session params agent result servers.0 >> settle params agent result))
        tt q h in
    let found =
      lift_lem servers_invalid (session_mcp_servers params.mcp_servers result.mcp_http)
        (servers, left_out) p p' first in
    opened_lem params agent result servers left_out p q found.0 (rw (sym found.1) later) none_yet

negotiate_lem :
    (params : LaunchParams) (agent : Agent) (raw : InitializeJson) (result : InitializeResult)
    (p q : Progress)
    → bind_result
        (authenticate_with params.auth_method_id agent result p)
        (λ _. set_session_close result.session_close >> establish params agent result)
      ≡ (inr tt, q)
    → p.events ≡ []
    → Established params agent result
        (record (added (authenticates params.auth_method_id) p) {
          session_close = result.session_close;
        })
        q
negotiate_lem params agent raw result p q h none_yet =
    let (_, p', first, later) =
      bind_lem (authenticate_with params.auth_method_id agent result p)
        (λ _. set_session_close result.session_close >> establish params agent result) tt q h in
    let shown = authenticate_lem params.auth_method_id agent result p p' first in
    let e =
      establish_lem params agent result (record p' { session_close = result.session_close }) q later
        (ap (λ (r : Progress). r.events) shown ∙ none_yet) in
    subst
      (λ (r : Progress).
        Established params agent result (record r { session_close = result.session_close }) q)
      shown e

regroup :
    (front : List Request) (opening : Request) (mode options : List Request)
    → (((initialize ∷ front) ++ opening ∷ []) ++ mode) ++ options
      ≡ initialize ∷ (front ++ (opening ∷ (mode ++ options)))
regroup front opening mode options = simp append_assoc

IsReady-of :
    (params : LaunchParams) (agent : Agent) (raw : InitializeJson) (result : InitializeResult)
    (q : Progress)
    → agent.on_initialize ≡ inr raw
    → parse_initialize_result raw protocol_version ≡ inr result
    → Established params agent result
        (record (added (authenticates params.auth_method_id) (sent initialize at_start)) {
          session_close = result.session_close;
        })
        q
    → IsReady params agent q
IsReady-of params agent raw result q answered negotiated e =
    let same_session : q.session_id ≡ e.session = ap (λ (r : Progress). r.session_id) e.is in
    record {
      raw = raw;
      result = result;
      servers = e.servers;
      left_out = e.left_out;
      answered = answered;
      negotiated = negotiated;
      chosen = e.chosen;
      requested =
          ap (λ (r : Progress). r.requests) e.is
          ∙ (regroup (authenticates params.auth_method_id) (opens params result e.servers)
                (chooses_mode e.session params.session_mode_id)
                (sets_options e.session (sort params.session_config))
              ∙ ap (planned params result e.servers) (sym same_session));
      some_id = ap is_empty same_session ∙ e.some_id;
      loaded = λ l. same_session ∙ e.loaded l;
      created = λ n. e.created n ∙ ap (λ (k : Bytes). inr (new_id k)) (sym same_session);
      announced =
          ap (λ (r : Progress). r.events) e.is ∙ ap (announces params result) (sym same_session);
      closes = ap (λ (r : Progress). r.session_close) e.is;
      prompt = ap (λ (r : Progress). r.system_prompt) e.is;
      still_open = ap (λ (r : Progress). r.closed) e.is;
    }

-- Once the handshake is done.
pub handshake-IsReady :
    (params : LaunchParams) (agent : Agent) (q : Progress)
    → handshake params agent at_start ≡ (inr tt, q)
    → IsReady params agent q
unfolding handshake
handshake-IsReady params agent q h =
    let (raw, p', first, later) =
      bind_lem (call initialize_failed initialize agent.on_initialize at_start)
        (λ raw. lift negotiation_failed (parse_initialize_result raw protocol_version) >>= λ result.
          authenticate_with params.auth_method_id agent result
          >> (set_session_close result.session_close >> establish params agent result))
        tt q h in
    let (answered, asked) =
      call_lem initialize_failed initialize agent.on_initialize raw at_start p' first in
    let (result, p'', second, last) =
      bind_lem (lift negotiation_failed (parse_initialize_result raw protocol_version) p')
        (λ result.
          authenticate_with params.auth_method_id agent result
          >> (set_session_close result.session_close >> establish params agent result))
        tt q later in
    let (negotiated, same) =
      lift_lem negotiation_failed (parse_initialize_result raw protocol_version) result p' p''
        second in
    let e =
      negotiate_lem params agent raw result p'' q last
        (ap (λ (r : Progress). r.events) (same ∙ asked)) in
    IsReady-of params agent raw result q answered negotiated (
      subst
        (λ (r : Progress).
          Established params agent result
            (record (added (authenticates params.auth_method_id) r) {
              session_close = result.session_close;
            })
            q)
        (same ∙ asked) e)
