-- ===== src/Registry.antt =====
-- include/mcp/core/registry.hh: McpRegistry, over the tools, resources and prompts of
-- include/mcp/core/interfaces.hh, whose virtual methods are fields.
pub mod Tools
pub mod Methods
mod Tests
use mcp_server.Base.{
  false, List, [], ◌∷◌, ◌++◌, Option, none, some, if◌then◌else◌, Str, str_eq, lit, Dict, lookup,
  insert, Outcome, returned, ◌>>=◌ as ◌>>=ₒ◌,
}
use mcp_server.Json.{Kind, JsonLib, JsonError, contains, value_string, assign}
use mcp_server.Rpc.{HandlerError, rpc_exception, invalid_params}
use mcp_server.Rpc.Actions.{Action, pure, throw, next, ◌>>=◌, json}

module _ (js : JsonLib) (S : Type 0) where
  open js use {Json, kind, null, boolean_of, string, array, object}

  pub record McpTool : Type 0 where
    pub name : Str
    pub title : Str
    pub definition : Json
    pub execute : Json → Action (HandlerError js) S Json
    pub output_schema : Option Json
    pub annotations : Json
    pub icon_uri : Option Str

  pub record McpResource : Type 0 where
    pub uri : Str
    pub name : Str
    pub title : Str
    pub definition : Json
    pub read : Action (HandlerError js) S Str
    pub icon_uri : Option Str

  pub record McpPrompt : Type 0 where
    pub name : Str
    pub title : Str
    pub definition : Json
    pub get_messages : Json → Action (HandlerError js) S Json
    pub icon_uri : Option Str

  pub record McpRegistry : Type 0 where
    pub tools : Dict Str McpTool
    pub resources : Dict Str McpResource
    pub prompts : Dict Str McpPrompt

  pub register_tool : McpTool → McpRegistry → McpRegistry
  register_tool t r = record r { tools = insert t.name t r.tools }

  pub register_resource : McpResource → McpRegistry → McpRegistry
  register_resource t r = record r { resources = insert t.uri t r.resources }

  pub register_prompt : McpPrompt → McpRegistry → McpRegistry
  register_prompt t r = record r { prompts = insert t.name t r.prompts }

  -- `if (!def.contains(key)) def[key] = v;`
  pub set_default : Str → Json → Json → Outcome JsonError Json
  set_default key v def = if contains js def key then returned def else assign js key v def

  abbrev set_some : Str → Option Json → Json → Outcome JsonError Json
  set_some key none def = returned def
  set_some key (some v) def = assign js key v def

  set_annotations : Json → Json → Outcome JsonError Json
  set_annotations annotations def = elim (kind annotations) [
    | Kind.nothing ↦ returned def
    | _ ↦ assign js (lit "annotations") annotations def
  ]

  abbrev icon_json : Option Str → Option Json
  icon_json none = none
  icon_json (some icon) = some (string icon)

  pub tool_entry : McpTool → Outcome JsonError Json
  unfolding set_default set_annotations
  tool_entry t =
      set_default (lit "title") (string t.title) t.definition
      >>=ₒ set_some (lit "outputSchema") t.output_schema
      >>=ₒ set_annotations t.annotations
      >>=ₒ set_some (lit "icon") (icon_json t.icon_uri)

  pub resource_entry : McpResource → Outcome JsonError Json
  unfolding set_default
  resource_entry t =
      set_default (lit "title") (string t.title) t.definition
      >>=ₒ set_some (lit "icon") (icon_json t.icon_uri)

  pub prompt_entry : McpPrompt → Outcome JsonError Json
  unfolding set_default
  prompt_entry t =
      set_default (lit "title") (string t.title) t.definition
      >>=ₒ set_some (lit "icon") (icon_json t.icon_uri)

  -- The loop of a listing; the array is kept as its elements.
  pub list_entries :
      {A : Type 0} → (A → Outcome JsonError Json) → Dict Str A → Outcome JsonError (List Json)
  list_entries entry [] = returned []
  list_entries entry ((key, a) ∷ rest) =
      entry a >>=ₒ λ def. list_entries entry rest >>=ₒ λ list. returned (def ∷ list)

  pub get_tools_list : McpRegistry → Outcome JsonError (List Json)
  unfolding list_entries tool_entry
  get_tools_list r = list_entries tool_entry r.tools

  pub get_resources_list : McpRegistry → Outcome JsonError (List Json)
  unfolding list_entries resource_entry
  get_resources_list r = list_entries resource_entry r.resources

  pub get_prompts_list : McpRegistry → Outcome JsonError (List Json)
  unfolding list_entries prompt_entry
  get_prompts_list r = list_entries prompt_entry r.prompts

  not_found : {A : Type 0} → Str → Str → Action (HandlerError js) S A
  not_found what name = throw (rpc_exception invalid_params (what ++ name) null)

  call_found : Str → Option McpTool → Json → Action (HandlerError js) S Json
  unfolding not_found set_default
  call_found name none args = not_found (lit "Tool not found: ") name
  call_found name (some t) args = do
    result ← t.execute args
    json (set_default (lit "isError") (boolean_of false) result)

  pub call_tool : McpRegistry → Str → Json → Action (HandlerError js) S Json
  unfolding call_found
  call_tool r name args = call_found name (lookup name r.tools) args

  pub text_contents : Str → Str → Str → Json
  text_contents uri mime_type text = object (
      (
        lit "contents",
        array (
            object (
              (lit "uri", string uri)
              ∷ (lit "mimeType", string mime_type)
              ∷ (lit "text", string text)
              ∷ [])
            ∷ []),
      )
      ∷ [])

  read_found : Str → Option McpResource → Action (HandlerError js) S Json
  unfolding not_found text_contents
  read_found uri none = not_found (lit "Resource not found: ") uri
  read_found uri (some t) = do
    content ← t.read
    mime_type ← json (value_string js t.definition (lit "mimeType") (lit "text/plain"))
    pure (text_contents uri mime_type content)

  pub read_resource : McpRegistry → Str → Action (HandlerError js) S Json
  unfolding read_found
  read_resource r uri = read_found uri (lookup uri r.resources)

  prompt_found : Str → Option McpPrompt → Json → Action (HandlerError js) S Json
  unfolding not_found
  prompt_found name none args = not_found (lit "Prompt not found: ") name
  prompt_found name (some t) args = do
    msgs ← t.get_messages args
    description ← json (value_string js t.definition (lit "description") [])
    pure (object ((lit "description", string description) ∷ (lit "messages", msgs) ∷ []))

  pub get_prompt : McpRegistry → Str → Json → Action (HandlerError js) S Json
  unfolding prompt_found
  get_prompt r name args = prompt_found name (lookup name r.prompts) args
