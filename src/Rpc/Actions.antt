-- ===== src/Rpc/Actions.antt =====
-- A coroutine that changes a state and may throw: what it wrote before it throws stays written.
use mcp_server.Base.{Outcome, returned, thrown}
use mcp_server.Json.{JsonLib, JsonError, type_error}
use mcp_server.Rpc.{HandlerError, std_exception}

abbrev pub Action : Type 0 → Type 0 → Type 0 → Type 0
Action E S A = S → Outcome E A × S

abbrev pub pure : {E S A : Type 0} → A → Action E S A
pure a s = (returned a, s)

abbrev pub throw : {E S A : Type 0} → E → Action E S A
throw e s = (thrown e, s)

abbrev pub next : {E S A B : Type 0} → (A → Action E S B) → Outcome E A × S → Outcome E B × S
next f (returned a, s) = f a s
next f (thrown e, s) = (thrown e, s)

infixl 5 ◌>>=◌ ◌>>◌
abbrev pub ◌>>=◌ : {E S A B : Type 0} → Action E S A → (A → Action E S B) → Action E S B
◌>>=◌ m f s = next f (m s)

abbrev pub ◌>>◌ : {E S A B : Type 0} → Action E S A → Action E S B → Action E S B
m >> k = m >>= λ _. k

abbrev pub update : {E S : Type 0} → (S → S) → Action E S (Unit {0})
update f s = (returned tt, f s)

-- A JSON operation inside a handler: its type_error is a std::exception.
abbrev pub json : {js : JsonLib} {S A : Type 0} → Outcome JsonError A → Action (HandlerError js) S A
json (returned a) s = (returned a, s)
json (thrown (type_error message)) s = (thrown (std_exception message), s)
