-- ===== src/Bridge/Launch/Returned.antt =====
-- acp/ndjsonclient.go: how Launch returns.
use go_agent_wrapper.Shared.{◌≡◌, refl, true, ◌⊎◌, inl, inr, [], Bool-cases, arith}
use go_agent_wrapper.Bridge.Servers.{session_mcp_servers}
use go_agent_wrapper.Bridge.Launch.{
  InitializeResult, parse_initialize_result, protocol_version, LaunchParams, initialize, Agent,
  LaunchError, initialize_failed, negotiation_failed, servers_invalid, Progress, at_start,
  session_ready,
}
use go_agent_wrapper.Bridge.Launch.Handshake.{
  M, bind_result, ◌>>=◌, ◌>>◌, lift, authenticate_with, set_session_close, report_skipped,
  set_system_prompt, report_lost, emit, is_lost, open_session, settle, establish, handshake,
  close_on_error, launch,
}
use go_agent_wrapper.Bridge.Launch.Order.{IsReady, handshake-IsReady}
use go_agent_wrapper.Bridge.Launch.Silent.{
  IsSilent, call-IsSilent, lift-IsSilent, authenticate-IsSilent, open-IsSilent, configure-IsSilent,
}

-- A failure that has emitted nothing.
FailsSilent : {A : Type 0} → (LaunchError ⊎ A) × Progress → Type 0
FailsSilent {A} r = (e : LaunchError) → r.0 ≡ inl e → r.1.events ≡ []

fails_bind :
    {A B : Type 0} (r : (LaunchError ⊎ A) × Progress) (f : A → M B)
    → IsSilent r
    → ((a : A) (p : Progress) → p.events ≡ [] → FailsSilent (f a p))
    → FailsSilent (bind_result r f)
unfolding IsSilent FailsSilent
fails_bind (inl e, p) f h k = λ _ _. h
fails_bind (inr a, p) f h k = k a p h

settle_fails :
    (params : LaunchParams) (agent : Agent) (result : InitializeResult) (p : Progress)
    → p.events ≡ []
    → FailsSilent (settle params agent result p)
unfolding settle
settle_fails params agent result p h =
    fails_bind _
      (λ _.
        set_system_prompt params.system_prompt >> (report_lost params result >> emit session_ready))
      (configure-IsSilent params agent p h)
      (λ _ q k.
        unfold FailsSilent in
        λ e bad. elim (Bool-cases (is_lost params result)) [
          | inl l ↦ let impossible : ⊥ = ground (arith, bad, l) in absurd impossible
          | inr l ↦ let impossible : ⊥ = ground (arith, bad, l) in absurd impossible
        ])

establish_fails :
    (params : LaunchParams) (agent : Agent) (result : InitializeResult) (p : Progress)
    → p.events ≡ []
    → FailsSilent (establish params agent result p)
unfolding establish
establish_fails params agent result p h =
    fails_bind _
      (λ servers.
        report_skipped servers.1
        >> (open_session params agent result servers.0 >> settle params agent result))
      (lift-IsSilent servers_invalid (session_mcp_servers params.mcp_servers result.mcp_http) p h)
      (λ servers q k.
        fails_bind _ (λ _. settle params agent result)
          (open-IsSilent params agent result servers.0 (record q { skipped = servers.1 }) k)
          (λ _ r l. settle_fails params agent result r l))

handshake_fails :
    (params : LaunchParams) (agent : Agent) → FailsSilent (handshake params agent at_start)
unfolding handshake
handshake_fails params agent =
    fails_bind _
      (λ raw. lift negotiation_failed (parse_initialize_result raw protocol_version) >>= λ result.
        authenticate_with params.auth_method_id agent result
        >> (set_session_close result.session_close >> establish params agent result))
      (call-IsSilent initialize_failed initialize agent.on_initialize at_start refl)
      (λ raw p h.
        fails_bind _
          (λ result.
            authenticate_with params.auth_method_id agent result
            >> (set_session_close result.session_close >> establish params agent result))
          (lift-IsSilent negotiation_failed (parse_initialize_result raw protocol_version) p h)
          (λ result q k.
            fails_bind _
              (λ _. set_session_close result.session_close >> establish params agent result)
              (authenticate-IsSilent params.auth_method_id agent result q k)
              (λ _ r l.
                establish_fails params agent result
                  (record r { session_close = result.session_close }) l)))

-- The two ways in which a launch returns.
returned_lem :
    (params : LaunchParams) (agent : Agent) (r : (LaunchError ⊎ Unit {0}) × Progress)
    → FailsSilent r
    → ((q : Progress) → r ≡ (inr tt, q) → IsReady params agent q)
    → (((close_on_error r).0 ≡ inr tt) × IsReady params agent (close_on_error r).1)
      ⊎ ((e : LaunchError) × ((close_on_error r).0 ≡ inl e)
          × ((close_on_error r).1.closed ≡ true)
          × ((close_on_error r).1.events ≡ []))
unfolding FailsSilent
returned_lem params agent (inl e, p) silent ready = inr (e, refl, refl, silent e refl)
returned_lem params agent (inr tt, p) silent ready = inl (refl, ready p refl)

-- Launch, once the process runs, whatever the agent answers. Either it returns without an error: the
-- requests that it sent are exactly these, in this order: initialize, whose answer has the supported
-- version; authenticate, where a method is asked for; session/load of the preset where the agent can
-- load, else session/new, with the servers that SessionMCPServers chose; session/set_mode, where a
-- mode is asked for; and the options in the order of the sorted keys, the last two for the session
-- id. That id is not empty, and is the preset or the one that the agent gave; the last event is
-- session.ready, with session.lost before it exactly where a preset could not be loaded; and the
-- client is not closed. Or it returns an error, the client is closed and no event was emitted.
pub launch_lem :
    (params : LaunchParams) (agent : Agent)
    → (((launch params agent).0 ≡ inr tt) × IsReady params agent (launch params agent).1)
      ⊎ ((e : LaunchError) × ((launch params agent).0 ≡ inl e)
          × ((launch params agent).1.closed ≡ true)
          × ((launch params agent).1.events ≡ []))
unfolding launch
launch_lem params agent =
    returned_lem params agent (handshake params agent at_start) (handshake_fails params agent)
      (handshake-IsReady params agent)
