-- ===== src/Bridge/Client/Shutdown.antt =====
-- acp/ndjsonclient.go: the end of a closing client's turns and of its Events channel, under every
-- schedule of its goroutines.
use go_agent_wrapper.Shared.{◌≡◌, ◌⊎◌, Bytes, Bool, true, List}
use go_agent_wrapper.Bridge.Client.{Client, Running, Phase, draining, new}
use go_agent_wrapper.Bridge.Client.Run.{Action, goes_wrong, run}
use go_agent_wrapper.Bridge.Client.Drain.{can_step}
use go_agent_wrapper.Bridge.Client.Settled.{Settled}
use go_agent_wrapper.Bridge.Client.Endings.{HasCall}

-- The goroutine is in EndTurn, and a responder call of its permission turn is under way.
abbrev pub AwaitsCall : Phase → Client → Type 0
AwaitsCall (draining failed g) c = HasCall g c.permissions.turns
AwaitsCall _ c = ⊥

-- The goroutine of a turn can go on, without an answer of the agent, or it waits in EndTurn for a
-- responder call that is under way.
abbrev pub CanGoOn : Client → Running → Type 0
CanGoOn c r = (can_step goes_wrong r.phase c ≡ true) ⊎ AwaitsCall r.phase c

module _ (component : Bytes) (has_responder : Bool) (before : List Action) where
  abbrev pub reached : Client
  reached = run component before (new has_responder)
