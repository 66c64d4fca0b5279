-- ===== src/Bridge/Reader.antt =====
-- acp/ndjsonclient.go: readLoop, line by line, and the refusal of a server's request. JSON is taken
-- as decoded.
pub mod Lines
use go_agent_wrapper.Shared.{
  Bytes, bytes, ◌==◌, Bool, true, false, not, ◌&&◌, ◌||◌, Option, none, some, List, [], ◌∷◌, ◌++◌,
  is_empty, if◌then◌else◌, is_some,
}
use go_agent_wrapper.Shared.Int.{negsuc}
use go_agent_wrapper.Bridge.Rpc.{
  RawId, absent, null, text, number, composite, integer, Reply, RpcError, decode_int64,
}

-- rpcFrame; the reply is Error where it is there, else Result.
pub record Frame : Type 0 where
  pub method : Bytes
  pub id : RawId
  pub reply : Reply

pub data Line : Type 0 where
  malformed : Line
  frame : Frame → Line

pub data DiagnosticKind : Type 0 where
  malformed_json protocol_error : DiagnosticKind

-- What the loop does about a line.
pub data Deed : Type 0 where
  diagnoses : DiagnosticKind → Deed
  serves : Bytes → RawId → Deed
  notifies : Bytes → Deed
  answers : RawId → Reply → Deed
  closes_permissions fails_pending reports_read : Deed

abbrev pub has_id : RawId → Bool
has_id absent = false
has_id null = true
has_id text = true
has_id number = true
has_id composite = true
has_id (integer z) = true

-- DecodeJSONRPCRequestID: null, a string or a number.
unfoldable pub decode_request_id : RawId → Bool
decode_request_id absent = false
decode_request_id null = true
decode_request_id text = true
decode_request_id number = true
decode_request_id (integer z) = true
decode_request_id composite = false

-- Whether the line counts as malformed, and what is done about it. For a response, the diagnostic is
-- that of deliverResponse.
unfoldable pub read_frame : Frame → Bool × List Deed
unfolding decode_request_id
read_frame f =
    if not (is_empty f.method) && has_id f.id
    then if decode_request_id f.id
      then (false, serves f.method f.id ∷ [])
      else (true, diagnoses protocol_error ∷ [])
    else if not (is_empty f.method)
    then (false, notifies f.method ∷ [])
    else if has_id f.id
    then if is_some (decode_int64 f.id)
      then (false, answers f.id f.reply ∷ [])
      else (true, diagnoses protocol_error ∷ [])
    else (false, [])

unfoldable pub read_line : Line → Bool × List Deed
unfolding read_frame
read_line malformed = (true, diagnoses malformed_json ∷ [])
read_line (frame f) = read_frame f

-- The loop, with its flag.
unfoldable pub read_lines : List Line → Bool → Bool × List Deed
unfolding read_line
read_lines [] flag = (flag, [])
read_lines (line ∷ rest) flag =
    let (bad, deeds) = read_line line in
    let (later, more) = read_lines rest (flag || bad) in (later, deeds ++ more)

-- readLoop: whether the scanner ended with an error, and whether the client was closed by then.
unfoldable pub read_loop : List Line → Bool → Bool → Bool × List Deed
unfolding read_lines
read_loop lines failed closed =
    let (flag, deeds) = read_lines lines false in
    (
      flag,
      deeds
          ++ ((if failed && not closed then diagnoses protocol_error ∷ [] else [])
              ++ closes_permissions ∷ fails_pending ∷ reports_read ∷ []),
    )

-- What handleServerRequest makes of a request.
pub data Service : Type 0 where
  asks_permission : Service
  refuses : RpcError → Service

unfoldable pub handle_server_request : Bytes → Bytes → Service
unfolding ◌==◌
handle_server_request component method =
    if method == bytes "session/request_permission"
    then asks_permission
    else refuses (record {
      code = negsuc 32600;
      message =
          component ++ (bytes ": no handler configured for server-initiated method " ++ method);
      component = [];
    })
