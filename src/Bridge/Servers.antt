-- ===== src/Bridge/Servers.antt =====
-- acp/mcp_servers.go: the MCP servers of a session. A Go map is a list of its entries in some order,
-- each key once.
pub mod Chosen
use go_agent_wrapper.Shared.{
  Bytes, ◌==◌, Bool, true, false, not, ◌&&◌, ◌||◌, ◌⊎◌, inl, inr, List, [], ◌∷◌, is_empty,
  if◌then◌else◌,
}
use go_agent_wrapper.Environment.{is_less}

pub record McpServer : Type 0 where
  pub name : Bytes
  pub url : Bytes
  pub headers : List (Bytes × Bytes)
  pub command : Bytes
  pub args : List Bytes
  pub env : List (Bytes × Bytes)

-- One entry of the mcpServers parameter. A nil Args is sent as an empty array.
pub data WireServer : Type 0 where
  http : Bytes → Bytes → List (Bytes × Bytes) → WireServer
  stdio : Bytes → Bytes → List Bytes → List (Bytes × Bytes) → WireServer

pub data ServerError : Type 0 where
  empty_name : ServerError
  duplicate_name not_one_target : Bytes → ServerError

-- sort.Strings on the keys of a map, with their values.
module _ {V : Type 0} where
  unfoldable pub place : Bytes × V → List (Bytes × V) → List (Bytes × V)
  unfolding is_less
  place e [] = e ∷ []
  place e (x ∷ xs) = let rest = place e xs in if is_less e.0 x.0 then e ∷ x ∷ xs else x ∷ rest

  unfoldable pub sort : List (Bytes × V) → List (Bytes × V)
  unfolding place
  sort [] = []
  sort (e ∷ es) = place e (sort es)

unfoldable pub name_values : List (Bytes × Bytes) → List (Bytes × Bytes)
unfolding sort
name_values m = sort m

-- seen[name]
unfoldable pub has_seen : Bytes → List Bytes → Bool
unfolding ◌==◌
has_seen name [] = false
has_seen name (other ∷ seen) = other == name || has_seen name seen

-- (s.URL != "") == (s.Command != "")
abbrev pub not_one : McpServer → Bool
not_one s = elim (is_empty s.url) [ true ↦ is_empty s.command | false ↦ not (is_empty s.command) ]

unfoldable pub wire_of : McpServer → WireServer
unfolding name_values
wire_of s =
    if is_empty s.url
    then stdio s.name s.command s.args (name_values s.env)
    else http s.name s.url (name_values s.headers)

-- Whether the loop leaves a valid server out.
abbrev pub is_skipped : Bool → McpServer → Bool
is_skipped http_supported s = not (is_empty s.url) && not http_supported

abbrev pub sort_out :
    Bool
    → McpServer
    → ServerError ⊎ (List WireServer × List Bytes)
    → ServerError ⊎ (List WireServer × List Bytes)
unfolding wire_of
sort_out http_supported s (inl e) = inl e
sort_out http_supported s (inr (wire, skipped)) =
    if is_skipped http_supported s
    then inr (wire, s.name ∷ skipped)
    else inr (wire_of s ∷ wire, skipped)

-- The loop of SessionMCPServers, with the names seen so far.
unfoldable pub servers_loop :
    Bool → List Bytes → List McpServer → ServerError ⊎ (List WireServer × List Bytes)
unfolding has_seen wire_of
servers_loop http_supported seen [] = inr ([], [])
servers_loop http_supported seen (s ∷ rest) =
    let later = sort_out http_supported s (servers_loop http_supported (s.name ∷ seen) rest) in
    if is_empty s.name
    then inl empty_name
    else if has_seen s.name seen
    then inl (duplicate_name s.name)
    else if not_one s
    then inl (not_one_target s.name)
    else later

unfoldable pub session_mcp_servers :
    List McpServer → Bool → ServerError ⊎ (List WireServer × List Bytes)
unfolding servers_loop
session_mcp_servers servers http_supported = servers_loop http_supported [] servers
