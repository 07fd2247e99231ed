-- ===== src/Registry/Methods.antt =====
-- src/mcp/server/mcp_server.cc: the methods that McpShard::_register_mcp_methods registers. A method
-- changes the state of its shard; `world` is what the tools, resources and prompts change.
pub mod Pages
use mcp_server.Base.{
  ℕ, ◌+◌, ◌%◌, ◌^◌, Bool, true, false, ◌&&◌, ◌||◌, not, List, [], ◌∷◌, ◌++◌, Option, none, some,
  ltb, leb, if◌then◌else◌, ◌==◌, Str, str_eq, lit, is_empty, length, take, drop, to_string, stoul,
  starts_with, Dict, map, or_else,
}
use mcp_server.Json.{JsonLib, value_string, value_json}
use mcp_server.Rpc.{HandlerError}
use mcp_server.Rpc.Actions.{Action, pure, throw, next, ◌>>=◌, ◌>>◌, update, json}
use mcp_server.Rpc.Dispatcher.{
  JsonRpcDispatcher, MethodHandler, NotificationHandler, register_method, register_notification,
}
use mcp_server.Registry.{
  McpRegistry, get_tools_list, get_resources_list, get_prompts_list, call_tool, read_resource,
  get_prompt, text_contents,
}
use mcp_server.Server.Subscriptions.{subscribe_resource, unsubscribe_resource}

-- seastar's log_level
pub data LogLevel : Type 0 where
  error warn info debug trace : LogLevel

-- `client_log_levels` has the level of each shard.
pub record MethodState (W : Type 0) : Type 0 where
  pub current_session_id : Str
  pub current_progress_token : Str
  pub subscriptions : Dict Str (List Str)
  pub loggers_level : LogLevel
  pub client_log_levels : List LogLevel
  pub world : W

pub log_level : Str → LogLevel
log_level level =
    if level == lit "debug" || level == lit "trace"
    then debug
    else if level == lit "info"
    then info
    else if level == lit "warning" || level == lit "warn"
    then warn
    else if level == lit "error"
        || (level == lit "critical" || (level == lit "alert" || level == lit "emergency"))
    then error
    else info

module _ (js : JsonLib) where
  open js use {Json, find, elements, as_string, null, boolean_of, integer, string, array, object}

  abbrev of_nat : ℕ → Json
  of_nat n = integer (record { negative = false; magnitude = n })

  offset_of_text : Option Str → ℕ
  offset_of_text none = 0
  offset_of_text (some t) = or_else 0 (stoul t)

  offset_of : Option Json → ℕ
  unfolding offset_of_text
  offset_of none = 0
  offset_of (some v) = offset_of_text (as_string v)

  pub page_from : Str → ℕ → List Json → Json
  page_from key offset all =
      if leb (length all) offset
      then object ((key, array []) ∷ [])
      else if ltb ((offset + 50) % 2 ^ 64) (length all)
      then object (
          (key, array (take 50 (drop offset all)))
          ∷ (lit "nextCursor", string (to_string ((offset + 50) % 2 ^ 64)))
          ∷ [])
      else object ((key, array (drop offset all)) ∷ [])

  -- The page of a listing that the cursor asks for, 50 entries at most.
  pub page : Str → Json → List Json → Json
  unfolding offset_of page_from
  page key params all = page_from key (offset_of (find (lit "cursor") params)) all

  module _ (W : Type 0) where
    abbrev pub Method : Type 0
    Method = MethodHandler js (MethodState W)

    abbrev flag : Str → Bool → Str × Json
    flag key b = (key, boolean_of b)

    pub initialize : Str → Str → Method
    initialize name version params = pure (
        object (
          (lit "protocolVersion", string (lit "2025-11-25"))
          ∷ (
            lit "serverInfo",
            object ((lit "name", string name) ∷ (lit "version", string version) ∷ []),
          )
          ∷ (
            lit "capabilities",
            object (
                (lit "tools", object (flag (lit "listChanged") false ∷ []))
                ∷ (
                  lit "resources",
                  object (flag (lit "listChanged") false ∷ flag (lit "subscribe") true ∷ []),
                )
                ∷ (lit "prompts", object (flag (lit "listChanged") false ∷ []))
                ∷ (lit "logging", object [])
                ∷ []),
          )
          ∷ []))

    unfoldable pub ping : Method
    ping params = pure (object [])

    pub tools_list : McpRegistry js (MethodState W) → Method
    unfolding page
    tools_list r params = do
      all ← json (get_tools_list js (MethodState W) r)
      pure (page (lit "tools") params all)

    pub resources_list : McpRegistry js (MethodState W) → Method
    unfolding page
    resources_list r params = do
      all ← json (get_resources_list js (MethodState W) r)
      pure (page (lit "resources") params all)

    pub prompts_list : McpRegistry js (MethodState W) → Method
    unfolding page
    prompts_list r params = do
      all ← json (get_prompts_list js (MethodState W) r)
      pure (page (lit "prompts") params all)

    pub tools_call : McpRegistry js (MethodState W) → Method
    tools_call r params = do
      name ← json (value_string js params (lit "name") [])
      args ← json (value_json js params (lit "arguments") (object []))
      call_tool js (MethodState W) r name args

    pub prompts_get : McpRegistry js (MethodState W) → Method
    prompts_get r params = do
      name ← json (value_string js params (lit "name") [])
      args ← json (value_json js params (lit "arguments") (object []))
      get_prompt js (MethodState W) r name args

    pub templates_list : Method
    templates_list params = pure (
        object (
          (
            lit "resourceTemplates",
            array (
                object (
                  (lit "uriTemplate", string (lit "sys://metrics/{component}"))
                  ∷ (lit "name", string (lit "system_metrics_template"))
                  ∷ (
                    lit "description",
                    string (lit "动态获取系统各组件的指标（component 可为 cpu / disk / network）"),
                  )
                  ∷ [])
                ∷ []),
          )
          ∷ []))

    metrics_text : Str → Str
    metrics_text component = lit "动态组件 [" ++ (component ++ lit "] 状态: 运行良好, 负载极低。")

    read_uri : McpRegistry js (MethodState W) → Str → Action (HandlerError js) (MethodState W) Json
    unfolding metrics_text
    read_uri r uri =
        if starts_with (lit "sys://metrics/") uri
        then pure
            (text_contents js (MethodState W) uri (lit "text/plain") (metrics_text (drop 14 uri)))
        else read_resource js (MethodState W) r uri

    pub resources_read : McpRegistry js (MethodState W) → Method
    unfolding read_uri
    resources_read r params = do uri ← json (value_string js params (lit "uri") []); read_uri r uri

    unfoldable pub resources_subscribe : Method
    resources_subscribe params = do
      uri ← json (value_string js params (lit "uri") [])
      update λ s.
          if not (is_empty uri)
          then record s {
            subscriptions = subscribe_resource s.current_session_id uri s.subscriptions;
          }
          else s
      pure (object [])

    pub resources_unsubscribe : Method
    resources_unsubscribe params = do
      uri ← json (value_string js params (lit "uri") [])
      update λ s.
          if not (is_empty uri)
          then record s {
            subscriptions = unsubscribe_resource s.current_session_id uri s.subscriptions;
          }
          else s
      pure (object [])

    -- The level of all loggers, of this shard and of the others.
    pub set_level : LogLevel → MethodState W → MethodState W
    set_level level s = record s {
      loggers_level = level;
      client_log_levels = map (λ l. level) s.client_log_levels;
    }

    pub logging_set_level : Method
    unfolding set_level
    logging_set_level params = do
      level ← json (value_string js params (lit "level") (lit "info"))
      update (set_level (log_level level))
      pure (object [])

    pub roots_list : Method
    roots_list params = pure (object ((lit "roots", array []) ∷ []))

    matching : Str → List Str → List Json
    matching input [] = []
    matching input (opt ∷ opts) =
        let rest = matching input opts in if starts_with input opt then string opt ∷ rest else rest

    abbrev focus_options : List Str
    focus_options = lit "memory" ∷ lit "cpu" ∷ lit "disk" ∷ lit "network" ∷ []

    -- `a && b && c`: what stands behind a test that fails is not read.
    and_then :
        Bool
        → Action (HandlerError js) (MethodState W) Bool
        → Action (HandlerError js) (MethodState W) Bool
    and_then false m = pure false
    and_then true m = m

    completion_values : Json → Bool → Action (HandlerError js) (MethodState W) (List Json)
    unfolding matching
    completion_values argument false = pure []
    completion_values argument true = do
      input ← json (value_string js argument (lit "value") [])
      pure (matching input focus_options)

    pub completion_complete : Method
    unfolding and_then completion_values
    completion_complete params = do
      ref ← json (value_json js params (lit "ref") (object []))
      argument ← json (value_json js params (lit "argument") (object []))
      type ← json (value_string js ref (lit "type") [])
      named ← and_then (type == lit "prompt") (do
        name ← json (value_string js ref (lit "name") [])
        pure (name == lit "analyze_server_health"))
      focused ←
          and_then named
            (do name ← json (value_string js argument (lit "name") []); pure (name == lit "focus"))
      values ← completion_values argument focused
      pure (
          object (
            (
              lit "completion",
              object (
                  (lit "values", array values)
                  ∷ (lit "total", of_nat (length values))
                  ∷ flag (lit "hasMore") false
                  ∷ []),
            )
            ∷ []))

    -- Only logs.
    pub ignores : NotificationHandler js (MethodState W)
    ignores params s = s

    pub register_mcp_methods :
        Str
        → Str
        → McpRegistry js (MethodState W)
        → JsonRpcDispatcher js (MethodState W)
        → JsonRpcDispatcher js (MethodState W)
    register_mcp_methods name version r d =
        let method = register_method js (MethodState W) in
        let notification = register_notification js (MethodState W) in
        let d1 = method (lit "initialize") (initialize name version) d in
        let d2 = notification (lit "notifications/initialized") ignores d1 in
        let d3 = method (lit "ping") ping d2 in
        let d4 = method (lit "tools/list") (tools_list r) d3 in
        let d5 = method (lit "tools/call") (tools_call r) d4 in
        let d6 = method (lit "resources/list") (resources_list r) d5 in
        let d7 = method (lit "resources/templates/list") templates_list d6 in
        let d8 = method (lit "resources/read") (resources_read r) d7 in
        let d9 = method (lit "resources/subscribe") resources_subscribe d8 in
        let d10 = method (lit "resources/unsubscribe") resources_unsubscribe d9 in
        let d11 = method (lit "prompts/list") (prompts_list r) d10 in
        let d12 = method (lit "prompts/get") (prompts_get r) d11 in
        let d13 = method (lit "logging/setLevel") logging_set_level d12 in
        let d14 = method (lit "roots/list") roots_list d13 in
        let d15 = notification (lit "notifications/cancelled") ignores d14 in
        method (lit "completion/complete") completion_complete d15
