-- ===== src/Bridge/Rpc/Zero.antt =====
-- acp/ndjsonclient.go: no outbound request has the id 0.
use go_agent_wrapper.Shared.{Bytes, ◌≡◌, refl, ap, ◌∙◌, none, List, [], ◌∷◌, arith}
use go_agent_wrapper.Shared.Table.{lookup}
use go_agent_wrapper.Bridge.Rpc.{
  run, empty_rpc, Action, allocates, registers, drops, responds, fails,
}
use go_agent_wrapper.Bridge.Rpc.Answers.{request_life}
use go_agent_wrapper.Bridge.Rpc.Lives.{Story, unborn, story, untold, tell, pending_of}

tell_unborn :
    (component : Bytes) (a : Action) (s : Story)
    → s.life ≡ unborn
    → (tell component 0 a s).life ≡ unborn
unfolding tell
tell_unborn component allocates s h = ground (arith, h)
tell_unborn component (registers m method) s h = ground (arith, h)
tell_unborn component (drops m) s h = ground (arith, h)
tell_unborn component (responds id reply) s h = ground (arith, h)
tell_unborn component (fails message) s h = ground (arith, h)

zero_unborn :
    (component : Bytes) (actions : List Action) (s : Story)
    → s.life ≡ unborn
    → (story component 0 actions s).life ≡ unborn
unfolding story
zero_unborn component [] s h = h
zero_unborn component (a ∷ rest) s h =
    zero_unborn component rest (tell component 0 a s) (tell_unborn component a s h)

pub zero_free :
    (component : Bytes) (actions : List Action)
    → lookup 0 (run component actions empty_rpc).pending ≡ none
zero_free component actions =
    (request_life component 0 actions).1 ∙ ap pending_of (zero_unborn component actions untold refl)
