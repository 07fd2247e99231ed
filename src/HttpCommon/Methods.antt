-- ===== src/HttpCommon/Methods.antt =====
-- str2type and type2str of http_common_patch.cc.
use mcp_server.Base.{
  ◌≡◌, refl, ◌⊎◌, if◌then◌else◌, ◌==◌, Str, str_eq, str_beq, str_beq_iff, lit, arith,
}

-- seastar's `operation_type`
pub data OperationType : Type 0 where
  get post put delete head options trace connect patch : OperationType

pub str2type : Str → OperationType
str2type type =
    if type == lit "DELETE"
    then delete
    else if type == lit "POST"
    then post
    else if type == lit "PUT"
    then put
    else if type == lit "HEAD"
    then head
    else if type == lit "OPTIONS"
    then options
    else if type == lit "TRACE"
    then trace
    else if type == lit "CONNECT"
    then connect
    else if type == lit "PATCH"
    then patch
    else get

pub type2str : OperationType → Str
type2str delete = lit "DELETE"
type2str post = lit "POST"
type2str put = lit "PUT"
type2str head = lit "HEAD"
type2str options = lit "OPTIONS"
type2str trace = lit "TRACE"
type2str connect = lit "CONNECT"
type2str patch = lit "PATCH"
type2str get = lit "GET"

type2str-delete_or_get : (s : Str) → (type2str (str2type s) ≡ s) ⊎ (str2type s ≡ get)
unfolding str2type type2str
type2str-delete_or_get s = ground (
  arith,
  str_beq_iff s (lit "DELETE"),
  str_beq_iff s (lit "POST"),
  str_beq_iff s (lit "PUT"),
  str_beq_iff s (lit "HEAD"),
  str_beq_iff s (lit "OPTIONS"),
  str_beq_iff s (lit "TRACE"),
  str_beq_iff s (lit "CONNECT"),
  str_beq_iff s (lit "PATCH"),
)

str2type-type2str : (t : OperationType) → str2type (type2str t) ≡ t
unfolding str2type type2str lit str_beq
str2type-type2str get = refl
str2type-type2str post = refl
str2type-type2str put = refl
str2type-type2str delete = refl
str2type-type2str head = refl
str2type-type2str options = refl
str2type-type2str trace = refl
str2type-type2str connect = refl
str2type-type2str patch = refl

-- Printing a method and reading it back gives the method; reading a text and printing it gives the
-- text again, unless the text was read as GET, the fallback.
pub method_names :
    (t : OperationType) (s : Str)
    → (str2type (type2str t) ≡ t) × ((type2str (str2type s) ≡ s) ⊎ (str2type s ≡ get))
method_names t s = (str2type-type2str t, type2str-delete_or_get s)
