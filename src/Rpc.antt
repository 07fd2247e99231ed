-- ===== src/Rpc.antt =====
-- include/mcp/protocol/json_rpc.hh: errors and replies of JSON-RPC 2.0.
pub mod Dispatcher
pub mod Actions
pub mod Coroutines
pub mod Waiting
use mcp_server.Base.{true, [], ◌∷◌, Option, none, some, Str, lit, Signed}
use mcp_server.Json.{JsonLib}

pub data JsonRpcErrorCode : Type 0 where
  parse_error invalid_request method_not_found invalid_params internal_error : JsonRpcErrorCode

-- `static_cast<int>(code)`
abbrev pub code_value : JsonRpcErrorCode → Signed
code_value parse_error = record { negative = true; magnitude = 32700 }
code_value invalid_request = record { negative = true; magnitude = 32600 }
code_value method_not_found = record { negative = true; magnitude = 32601 }
code_value invalid_params = record { negative = true; magnitude = 32602 }
code_value internal_error = record { negative = true; magnitude = 32603 }

module _ (js : JsonLib) where
  open js use {Json, null, integer, string, object, put}

  -- `details` is the field `data`.
  pub record JsonRpcError : Type 0 where
    pub code : Signed
    pub message : Str
    pub details : Json

  pub record JsonRpcResponse : Type 0 where
    pub jsonrpc : Str
    pub id : Json
    pub result : Option Json
    pub error : Option JsonRpcError

  -- What a method throws: JsonRpcException, another std::exception, or what is none.
  pub data HandlerError : Type 0 where
    rpc_exception : JsonRpcErrorCode → Str → Json → HandlerError
    std_exception : Str → HandlerError
    foreign_exception : HandlerError

  -- `JsonRpcError{code, message, nullptr}`
  abbrev pub plain_error : JsonRpcErrorCode → Str → JsonRpcError
  plain_error code message = record { code = code_value code; message = message; details = null }

  -- The to_json that NLOHMANN_DEFINE_TYPE_NON_INTRUSIVE writes.
  pub error_json : JsonRpcError → Json
  error_json e = object (
      (lit "code", integer e.code)
      ∷ (lit "message", string e.message)
      ∷ (lit "data", e.details)
      ∷ [])

  outcome_json : Json → Option Json → Option JsonRpcError → Json
  unfolding error_json
  outcome_json j result (some e) = put (lit "error") (error_json e) j
  outcome_json j (some r) none = put (lit "result") r j
  outcome_json j none none = put (lit "result") null j

  pub to_json : JsonRpcResponse → Json
  unfolding outcome_json
  to_json r =
      outcome_json (object ((lit "jsonrpc", string r.jsonrpc) ∷ (lit "id", r.id) ∷ [])) r.result
        r.error
