-- ===== src/Bridge/Launch/Silent.antt =====
-- acp/ndjsonclient.go: the steps of a launch emit nothing.
use go_agent_wrapper.Shared.{
  Bytes, ◌==◌, bytes, ◌≡◌, Option, none, some, ◌⊎◌, inl, inr, List, [], ◌∷◌, is_empty, Bool-cases,
}
use go_agent_wrapper.Bridge.Servers.{WireServer, sort}
use go_agent_wrapper.Bridge.Launch.{
  AuthMethod, InitializeResult, LaunchParams, Request, authenticate, session_load, session_new,
  ConfigValue, text, flag, other_type, NewResult, bad_json, new_id, authenticate_failed,
  load_failed, new_failed, mode_failed, set_mode, Agent, LaunchError, Progress,
}
use go_agent_wrapper.Bridge.Launch.Handshake.{
  M, bind_result, call, call_plain, lift, find_method, use_method, authenticate_with, set_session,
  take_new, new_session, load_session, set_option, set_options, choose_mode, configure_session,
  is_loaded, open_session,
}

-- A result that has emitted nothing.
unfoldable pub IsSilent : {A : Type 0} → (LaunchError ⊎ A) × Progress → Type 0
IsSilent r = r.1.events ≡ []

pub IsSilent-bind :
    {A B : Type 0} (r : (LaunchError ⊎ A) × Progress) (f : A → M B)
    → IsSilent r
    → ((a : A) (p : Progress) → p.events ≡ [] → IsSilent (f a p))
    → IsSilent (bind_result r f)
unfolding IsSilent
IsSilent-bind (inl e, p) f h k = h
IsSilent-bind (inr a, p) f h k = k a p h

pub call-IsSilent :
    {A : Type 0} (failed : Bytes → LaunchError) (request : Request) (answer : Bytes ⊎ A)
    (p : Progress)
    → p.events ≡ []
    → IsSilent (call failed request answer p)
unfolding IsSilent
call-IsSilent failed request (inl e) p h = h
call-IsSilent failed request (inr a) p h = h

pub call_plain-IsSilent :
    (failed : Bytes → LaunchError) (request : Request) (answer : Option Bytes) (p : Progress)
    → p.events ≡ []
    → IsSilent (call_plain failed request answer p)
unfolding IsSilent
call_plain-IsSilent failed request none p h = h
call_plain-IsSilent failed request (some e) p h = h

pub lift-IsSilent :
    {E A : Type 0} (failed : E → LaunchError) (r : E ⊎ A) (p : Progress)
    → p.events ≡ []
    → IsSilent (lift failed r p)
unfolding IsSilent
lift-IsSilent failed (inl e) p h = h
lift-IsSilent failed (inr a) p h = h

pub use_method-IsSilent :
    (id : Bytes) (agent : Agent) (found : Option AuthMethod) (p : Progress)
    → p.events ≡ []
    → IsSilent (use_method id agent found p)
unfolding ◌==◌ IsSilent
use_method-IsSilent id agent none p h = h
use_method-IsSilent id agent (some method) p h =
    elim (Bool-cases (method.type == bytes "terminal")) [
      | inl e ↦ rw e h
      | inr e ↦
          rw e (call_plain-IsSilent authenticate_failed (authenticate id) agent.on_authenticate p h)
    ]

pub authenticate-IsSilent :
    (id : Bytes) (agent : Agent) (result : InitializeResult) (p : Progress)
    → p.events ≡ []
    → IsSilent (authenticate_with id agent result p)
unfolding authenticate_with IsSilent
authenticate-IsSilent id agent result p h = elim (Bool-cases (is_empty id)) [
  | inl e ↦ rw e h
  | inr e ↦ rw e (use_method-IsSilent id agent (find_method id result.auth_methods) p h)
]

pub take_new-IsSilent :
    (answer : NewResult) (p : Progress) → p.events ≡ [] → IsSilent (take_new answer p)
unfolding IsSilent
take_new-IsSilent bad_json p h = h
take_new-IsSilent (new_id id) p h = elim (Bool-cases (is_empty id)) [
  | inl e ↦ rw e h
  | inr e ↦ rw e h
]

pub open-IsSilent :
    (params : LaunchParams) (agent : Agent) (result : InitializeResult) (servers : List WireServer)
    (p : Progress)
    → p.events ≡ []
    → IsSilent (open_session params agent result servers p)
unfolding load_session new_session
open-IsSilent params agent result servers p h = elim (Bool-cases (is_loaded params result)) [
  | inl e ↦ rw e (
      IsSilent-bind _ (λ _. set_session params.session_id_preset)
        (call_plain-IsSilent load_failed (session_load params.session_id_preset params.cwd servers)
          agent.on_load p h)
        (λ _ q k. unfold IsSilent in k))
  | inr e ↦ rw e (
      IsSilent-bind _ (λ a. take_new a)
        (call-IsSilent new_failed (session_new params.cwd servers) agent.on_new p h)
        take_new-IsSilent)
]

pub set_option-IsSilent :
    (agent : Agent) (session key : Bytes) (value : ConfigValue) (p : Progress)
    → p.events ≡ []
    → IsSilent (set_option agent session key value p)
set_option-IsSilent agent session key other_type p h = unfold IsSilent in h
set_option-IsSilent agent session key (text value) p h =
    call_plain-IsSilent _ _ (agent.on_option key) p h
set_option-IsSilent agent session key (flag value) p h =
    call_plain-IsSilent _ _ (agent.on_option key) p h

pub set_options-IsSilent :
    (agent : Agent) (session : Bytes) (options : List (Bytes × ConfigValue)) (p : Progress)
    → p.events ≡ []
    → IsSilent (set_options agent session options p)
unfolding set_options
set_options-IsSilent agent session [] p h = unfold IsSilent in h
set_options-IsSilent agent session ((key, value) ∷ rest) p h =
    IsSilent-bind _ (λ _. set_options agent session rest)
      (set_option-IsSilent agent session key value p h)
      (λ _ q k. set_options-IsSilent agent session rest q k)

pub choose_mode-IsSilent :
    (params : LaunchParams) (agent : Agent) (session : Bytes) (p : Progress)
    → p.events ≡ []
    → IsSilent (choose_mode params agent session p)
choose_mode-IsSilent params agent session p h =
    elim (Bool-cases (is_empty params.session_mode_id)) [
      | inl e ↦ rw e (unfold IsSilent in h)
      | inr e ↦ rw e (
          call_plain-IsSilent mode_failed (set_mode session params.session_mode_id) agent.on_mode p
            h)
    ]

pub configure-IsSilent :
    (params : LaunchParams) (agent : Agent) (p : Progress)
    → p.events ≡ []
    → IsSilent (configure_session params agent p)
unfolding configure_session
configure-IsSilent params agent p h =
    IsSilent-bind _ (λ _. set_options agent p.session_id (sort params.session_config))
      (choose_mode-IsSilent params agent p.session_id p h)
      (λ _ q k. set_options-IsSilent agent p.session_id (sort params.session_config) q k)
