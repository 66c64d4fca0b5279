-- ===== src/Bridge/Reader/Lines.antt =====
-- acp/ndjsonclient.go: what the lines of the protocol stream come to.
use go_agent_wrapper.Shared.{Bytes, ◌≡◌, true, false, List, [], ◌∷◌, is_empty, arith}
use go_agent_wrapper.Bridge.Rpc.{null, deliver, deliver_response, ignored, run, empty_rpc, Action}
use go_agent_wrapper.Bridge.Rpc.Zero.{zero_free}
use go_agent_wrapper.Bridge.Reader.{Frame, frame, answers, read_line}

-- A response whose id is null vanishes: a frame without a method whose id is null is passed on as a
-- response, not counted as malformed and not diagnosed; and whatever the goroutines did to the table
-- of requests of a new client, it changes nothing there and is not reported as malformed either.
pub null_response_vanishes :
    (component : Bytes) (actions : List Action) (f : Frame)
    → is_empty f.method ≡ true
    → f.id ≡ null
    → (read_line (frame f) ≡ (false, answers null f.reply ∷ []))
      × (deliver_response component null f.reply (run component actions empty_rpc)
          ≡ (ignored, run component actions empty_rpc))
unfolding read_line deliver_response deliver
null_response_vanishes component actions f no_method is_null =
    (ground (arith, no_method, is_null), ground (arith, zero_free component actions))
