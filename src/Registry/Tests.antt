-- ===== src/Registry/Tests.antt =====
-- A registry with one tool over a counter, and the theorems at it.
use mcp_server.Base.{
  ℕ, ◌+◌, ◌≡◌, refl, arith, false, [], ◌∷◌, ◌++◌, none, some, ◌==◌, Str, str_eq, str_beq, lit,
  lookup, insert, returned, thrown, if◌then◌else◌,
}
use mcp_server.Json.{contains, assign}
use mcp_server.Json.Packed.{
  packed, packed_kind, find_in, members, members_object, put_in, unflat, flat, split, items,
}
use mcp_server.Rpc.{rpc_exception, invalid_params}
use mcp_server.Registry.{
  McpTool, McpRegistry, register_tool, call_tool, get_tools_list, list_entries, tool_entry,
  set_default, set_annotations,
}
use mcp_server.Registry.Tools.{call_tool-register_tool}
use mcp_server.Registry.Methods.{MethodState, info, tools_list}
use mcp_server.Registry.Methods.Pages.{tools, walk, walk-listing_method}

abbrev Value : Type 0
Value = Str

abbrev State : Type 0
State = MethodState ℕ

abbrev ready : State
ready = record {
  current_session_id = [];
  current_progress_token = [];
  subscriptions = [];
  loggers_level = info;
  client_log_levels = info ∷ info ∷ [];
  world = 7;
}

abbrev done : Value
done = members_object ((lit "content", 4 ∷ lit "ok") ∷ [])

-- A tool that counts its calls.
abbrev counter : McpTool packed State
counter = record {
  name = lit "count";
  title = lit "Count";
  definition = members_object ((lit "name", 4 ∷ lit "count") ∷ []);
  execute = λ args s. (returned done, record s { world = s.world + 1 });
  output_schema = none;
  annotations = 1 ∷ [];
  icon_uri = none;
}

abbrev empty : McpRegistry packed State
empty = record { tools = []; resources = []; prompts = [] }

abbrev registry : McpRegistry packed State
registry = record empty { tools = (lit "count", counter) ∷ [] }

abbrev count_entry : Value
count_entry = members_object ((lit "name", 4 ∷ lit "count") ∷ (lit "title", 4 ∷ lit "Count") ∷ [])

registry_entries : get_tools_list packed State registry ≡ returned (count_entry ∷ [])
unfolding get_tools_list list_entries tool_entry set_default set_annotations members_object find_in
    members packed_kind put_in unflat flat split items lit str_beq lookup insert assign
registry_entries = refl

walk-listing_method_example :
    walk packed ℕ 1 (lit "tools") (tools_list packed ℕ registry) none ready
    ≡ (returned (some (count_entry ∷ [])), ready)
walk-listing_method_example =
    walk-listing_method packed ℕ tools registry (count_entry ∷ []) 0 ready registry_entries
      (omega arith)

call_tool-register_tool_example :
    (out : Value) × (call_tool packed State
        (register_tool packed State counter empty)
        (lit "other")
        []
        ready
      ≡ (if counter.name == lit "other"
          then (returned out, record ready { world = 8 })
          else call_tool packed State empty (lit "other") [] ready))
    × (call_tool packed State empty (lit "other") [] ready ≡ (
      thrown (rpc_exception invalid_params (lit "Tool not found: " ++ lit "other") packed.null),
      ready,
    ))
    × ((other : Str)
        → packed.find other out ≡ (
            if contains packed done (lit "isError")
            then packed.find other done
            else if lit "isError" == other
            then some (packed.boolean_of false)
            else packed.find other done))
call_tool-register_tool_example =
    call_tool-register_tool packed State empty counter (lit "other") [] done ready
      (record ready { world = 8 }) refl (packed.kind-object ((lit "content", 4 ∷ lit "ok") ∷ []))
