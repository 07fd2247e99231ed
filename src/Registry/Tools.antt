-- ===== src/Registry/Tools.antt =====
-- What callers of the registry get.
use mcp_server.Base.{
  ◌≡◌, refl, sym, ap, ◌∙◌, false, [], ◌++◌, some, inl, inr, Bool-cases, ◌==◌, Str, str_eq, lit,
  lookup, lookup-insert, Outcome, returned, thrown, if◌then◌else◌,
}
use mcp_server.Json.{Kind, JsonLib, JsonError, contains, assign, assign-members}
use mcp_server.Rpc.{rpc_exception, invalid_params}
use mcp_server.Rpc.Actions.{json, next}
use mcp_server.Registry.{
  McpTool, McpRegistry, register_tool, set_default, call_tool, call_found, not_found,
}

module _ (js : JsonLib) (S : Type 0) where
  open js use {Json, kind, find, null, boolean_of, put, find-put}

  -- A member that is added where it is missing and kept where it is there; the others stay.
  set_default_lem :
      (key : Str) (v j : Json)
      → kind j ≡ Kind.members
      → (out : Json) × (set_default js S key v j ≡ returned out)
        × ((other : Str)
            → find other out ≡ (
                if contains js j key
                then find other j
                else if key == other
                then some v
                else find other j))
  unfolding set_default
  set_default_lem key v j h = elim (Bool-cases (contains js j key)) [
    | inl has ↦ (
      j,
      ap (λ b. if b then returned j else assign js key v j) has,
      λ other.
          ap (λ b. if b then find other j else if key == other then some v else find other j)
            (sym has),
    )
    | inr lacks ↦ (
      put key v j,
      ap (λ b. if b then returned j else assign js key v j) lacks ∙ assign-members js key v j h,
      λ other.
          find-put key other v j h
          ∙ ap (λ b. if b then find other j else if key == other then some v else find other j)
              (sym lacks),
    )
  ]

  -- Calling a tool by its name after one was registered. That tool is the one that runs under its
  -- name, also in place of an earlier one, and under another name the call is as before; where there
  -- was no tool at all that is invalid_params, with nothing done. Where the tool returns an object,
  -- the result has that object's members, and isError false where it has no isError.
  pub call_tool-register_tool :
      (r : McpRegistry js S) (t : McpTool js S) (name : Str) (args result : Json) (s s' : S)
      → t.execute args s ≡ (returned result, s')
      → kind result ≡ Kind.members
      → (out : Json) × (call_tool js S (register_tool js S t r) name args s
          ≡ (if t.name == name then (returned out, s') else call_tool js S r name args s))
        × (call_tool js S (record r { tools = [] }) name args s
            ≡ (thrown (rpc_exception invalid_params (lit "Tool not found: " ++ name) null), s))
        × ((other : Str)
            → find other out ≡ (
                if contains js result (lit "isError")
                then find other result
                else if lit "isError" == other
                then some (boolean_of false)
                else find other result))
  unfolding call_tool call_found register_tool not_found lookup
  call_tool-register_tool r t name args result s s' e k =
      let (out, made, members) = set_default_lem (lit "isError") (boolean_of false) result k in
      let ran : call_found js S name (some t) args s ≡ (returned out, s') =
        ap (next (λ j. json (set_default js S (lit "isError") (boolean_of false) j))) e
        ∙ ap (λ (o : Outcome JsonError Json). json o s') made in
      let registered : call_tool js S (register_tool js S t r) name args s
          ≡ (if t.name == name then (returned out, s') else call_tool js S r name args s) =
        elim (Bool-cases (t.name == name)) [
          | inl same ↦ rw (lookup-insert t.name name t r.tools, same) ran
          | inr other ↦ rw (lookup-insert t.name name t r.tools, other) refl
        ] in
      (out, registered, refl, members)
