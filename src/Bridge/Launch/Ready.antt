-- ===== src/Bridge/Launch/Ready.antt =====
-- acp/ndjsonclient.go: what a launch has done when it returns.
use mathlib.Core.List.{append-nil, append_assoc}
use go_agent_wrapper.Shared.{
  Bytes, ◌≡◌, refl, ap, ◌∙◌, Bool, true, false, Option, none, some, ◌⊎◌, inl, inr, List, [], ◌∷◌,
  ◌++◌, is_empty, if◌then◌else◌, Bool-cases, arith,
}
use go_agent_wrapper.Bridge.Servers.{WireServer, sort}
use go_agent_wrapper.Bridge.Launch.{
  option_failed, InitializeResult, ConfigValue, text, flag, other_type, LaunchParams, Request,
  session_new, session_load, set_mode, set_config_option, NewResult, bad_json, new_id, Agent,
  load_failed, new_failed, mode_failed, LaunchEvent, session_lost, session_ready, Progress,
}
use go_agent_wrapper.Bridge.Launch.Handshake.{
  bind_result, ◌>>◌, sent, call_plain, call, set_session, take_new, new_session, load_session,
  set_option, set_options, choose_mode, configure_session, set_system_prompt, emit, is_loaded,
  is_lost, report_lost, settle,
}
use go_agent_wrapper.Bridge.Launch.Calls.{bind_lem, call_plain_lem, added}

-- The requests of configureSession for a session.
abbrev pub chooses_mode : Bytes → Bytes → List Request
chooses_mode session mode = if is_empty mode then [] else set_mode session mode ∷ []

abbrev pub sets_options : Bytes → List (Bytes × ConfigValue) → List Request
sets_options session [] = []
sets_options session ((key, value) ∷ rest) =
    set_config_option session key value ∷ sets_options session rest

choose_mode_lem :
    (params : LaunchParams) (agent : Agent) (session : Bytes) (p q : Progress)
    → choose_mode params agent session p ≡ (inr tt, q)
    → q ≡ added (chooses_mode session params.session_mode_id) p
choose_mode_lem params agent session p q h = elim (Bool-cases (is_empty params.session_mode_id)) [
  | inl e ↦ ground (arith, e, h, append-nil p.requests)
  | inr e ↦ rw e (
      call_plain_lem mode_failed (set_mode session params.session_mode_id) agent.on_mode p q
        (ground (arith, e, h)))
]

set_option_lem :
    (agent : Agent) (session key : Bytes) (value : ConfigValue) (p q : Progress)
    → set_option agent session key value p ≡ (inr tt, q)
    → q ≡ sent (set_config_option session key value) p
set_option_lem agent session key other_type p q h = ground (arith, h)
set_option_lem agent session key (text value) p q h =
    call_plain_lem (option_failed key) (set_config_option session key (text value))
      (agent.on_option key) p q h
set_option_lem agent session key (flag value) p q h =
    call_plain_lem (option_failed key) (set_config_option session key (flag value))
      (agent.on_option key) p q h

set_options_lem :
    (agent : Agent) (session : Bytes) (options : List (Bytes × ConfigValue)) (p q : Progress)
    → set_options agent session options p ≡ (inr tt, q)
    → q ≡ added (sets_options session options) p
unfolding set_options
set_options_lem agent session [] p q h = ground (arith, h, append-nil p.requests)
set_options_lem agent session ((key, value) ∷ rest) p q h =
    let (_, p', first, later) =
      bind_lem (set_option agent session key value p) (λ _. set_options agent session rest) tt q
        h in
    let now = set_option_lem agent session key value p p' first in
    let then_q = set_options_lem agent session rest p' q later in
    then_q
    ∙ (ap (added (sets_options session rest)) now
        ∙ ap (λ (r : List Request). record p { requests = r })
            (append_assoc p.requests (set_config_option session key value ∷ [])
              (sets_options session rest)))

-- The request that opens the session.
abbrev pub opens : LaunchParams → InitializeResult → List WireServer → Request
opens params result servers =
    if is_loaded params result
    then session_load params.session_id_preset params.cwd servers
    else session_new params.cwd servers

-- What opening the session leaves.
pub record Opened (params : LaunchParams) (agent : Agent) (result : InitializeResult)
    (servers : List WireServer) (p q : Progress) : Type 0 where
  pub session : Bytes
  pub is : q ≡ record (sent (opens params result servers) p) { session_id = session }
  pub some_id : is_empty session ≡ false
  pub loaded : is_loaded params result ≡ true → session ≡ params.session_id_preset
  pub created : is_loaded params result ≡ false → agent.on_new ≡ inr (new_id session)

take_new_lem :
    (answer : NewResult) (p q : Progress)
    → take_new answer p ≡ (inr tt, q)
    → (session : Bytes) × (answer ≡ new_id session)
      × (is_empty session ≡ false)
      × (q ≡ record p { session_id = session })
take_new_lem bad_json p q h = let impossible : ⊥ = ground (arith, h) in absurd impossible
take_new_lem (new_id id) p q h = elim (Bool-cases (is_empty id)) [
  | inl e ↦ let impossible : ⊥ = ground (arith, e, h) in absurd impossible
  | inr e ↦ (id, refl, e, ground (arith, e, h))
]

load_lem :
    (preset : Bytes) (request : Request) (answer : Option Bytes) (p q : Progress)
    → bind_result (call_plain load_failed request answer p) (λ _. set_session preset) ≡ (inr tt, q)
    → q ≡ record (sent request p) { session_id = preset }
load_lem preset request none p q h = ground (arith, h)
load_lem preset request (some e) p q h = ground (arith, h)

new_lem :
    (request : Request) (answer : Bytes ⊎ NewResult) (p q : Progress)
    → bind_result (call new_failed request answer p) (λ a. take_new a) ≡ (inr tt, q)
    → (session : Bytes) × (answer ≡ inr (new_id session))
      × (is_empty session ≡ false)
      × (q ≡ record (sent request p) { session_id = session })
new_lem request (inl e) p q h = let impossible : ⊥ = ground (arith, h) in absurd impossible
new_lem request (inr a) p q h =
    let (session, is, some_id, later) = take_new_lem a (sent request p) q h in
    (session, ap inr is, some_id, later)

pub open_lem :
    (params : LaunchParams) (agent : Agent) (result : InitializeResult) (servers : List WireServer)
    (b : Bool) (p q : Progress)
    → is_loaded params result ≡ b
    → (if b then load_session params agent servers else new_session params agent servers) p
      ≡ (inr tt, q)
    → Opened params agent result servers p q
unfolding load_session new_session
open_lem params agent result servers true p q e h = record {
  session = params.session_id_preset;
  is = rw e (
      load_lem params.session_id_preset (session_load params.session_id_preset params.cwd servers)
        agent.on_load p q h);
  some_id = ground (arith, e);
  loaded = λ _. refl;
  created = λ n. let impossible : ⊥ = ground (arith, n, e) in absurd impossible;
}
open_lem params agent result servers false p q e h =
    let (session, is, some_id, later) =
      new_lem (session_new params.cwd servers) agent.on_new p q h in
    record {
      session = session;
      is = rw e later;
      some_id = some_id;
      loaded = λ n. let impossible : ⊥ = ground (arith, n, e) in absurd impossible;
      created = λ _. is;
    }

configure_lem :
    (params : LaunchParams) (agent : Agent) (p q : Progress)
    → configure_session params agent p ≡ (inr tt, q)
    → q
      ≡ added
          (sets_options p.session_id (sort params.session_config))
          (added (chooses_mode p.session_id params.session_mode_id) p)
unfolding configure_session
configure_lem params agent p q h =
    let (_, p', first, later) =
      bind_lem (choose_mode params agent p.session_id p)
        (λ _. set_options agent p.session_id (sort params.session_config)) tt q h in
    set_options_lem agent p.session_id (sort params.session_config) p' q later
    ∙ ap (added (sets_options p.session_id (sort params.session_config)))
        (choose_mode_lem params agent p.session_id p p' first)

-- The events at the end of a launch.
abbrev pub announces : LaunchParams → InitializeResult → Bytes → List LaunchEvent
announces params result session =
    (if is_lost params result then session_lost params.session_id_preset session ∷ [] else [])
    ++ session_ready ∷ []

announce_lem :
    (params : LaunchParams) (result : InitializeResult) (p q : Progress)
    → (report_lost params result >> emit session_ready) p ≡ (inr tt, q)
    → p.events ≡ []
    → q ≡ record p { events = announces params result p.session_id }
announce_lem params result p q h none_yet = elim (Bool-cases (is_lost params result)) [
  | inl e ↦ ground (arith, e, h, none_yet)
  | inr e ↦ ground (arith, e, h, none_yet)
]

pub settle_lem :
    (params : LaunchParams) (agent : Agent) (result : InitializeResult) (p q : Progress)
    → settle params agent result p ≡ (inr tt, q)
    → p.events ≡ []
    → q
      ≡ record (added
          (sets_options p.session_id (sort params.session_config))
          (added (chooses_mode p.session_id params.session_mode_id) p)) {
            system_prompt = params.system_prompt;
            events = announces params result p.session_id;
          }
unfolding settle
settle_lem params agent result p q h none_yet =
    let (_, p', first, later) =
      bind_lem (configure_session params agent p)
        (λ _.
          set_system_prompt params.system_prompt
          >> (report_lost params result >> emit session_ready))
        tt q h in
    let set = configure_lem params agent p p' first in
    let told =
      announce_lem params result (record p' { system_prompt = params.system_prompt }) q later
        (ap (λ (r : Progress). r.events) set ∙ none_yet) in
    told
    ∙ ap
        (λ (r : Progress). record r {
          system_prompt = params.system_prompt;
          events = announces params result r.session_id;
        })
        set
