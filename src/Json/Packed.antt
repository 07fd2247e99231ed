-- ===== src/Json/Packed.antt =====
-- A JSON library for the tests: a value is a byte string that starts with the number of its kind, and
-- a text is the value behind an equals sign.
use mathlib.Core.Option
use mcp_server.Base.{
  Outcome, returned, false, ℕ, zero, suc, ◌-◌, ◌^◌, ◌%◌, ◌≡◌, refl, ap, ap₂, ◌∙◌, List, [], ◌∷◌,
  ◌++◌, Option, none, some, arith, if◌then◌else◌, ◌==◌, nat_eq, Str, str_eq, Dict, lookup, insert,
  lookup-insert, Signed, length, take, drop, take-length-append, drop-length-append,
}
use mcp_server.Json.{Kind, JsonError, JsonLib}

unfoldable pub items : List Str → Str
items [] = []
items (x ∷ xs) = length x ∷ (x ++ items xs)

unfoldable pub split : ℕ → Str → List Str
split zero s = []
split (suc n) [] = []
split (suc n) (k ∷ s) = take k s ∷ split n (drop k s)

abbrev pack : List Str → Str
pack xs = length xs ∷ items xs

abbrev unpack : Str → List Str
unpack [] = []
unpack (n ∷ s) = split n s

split-items : (xs : List Str) → split (length xs) (items xs) ≡ xs
unfolding split items
split-items [] = refl
split-items (x ∷ xs) =
    ap₂ ◌∷◌ (take-length-append x (items xs))
      (ap (split (length xs)) (drop-length-append x (items xs)) ∙ split-items xs)

unfoldable pub flat : Dict Str Str → List Str
flat [] = []
flat ((k, v) ∷ d) = k ∷ v ∷ flat d

unfoldable pub unflat : List Str → Dict Str Str
unflat [] = []
unflat (k ∷ []) = []
unflat (k ∷ v ∷ xs) = (k, v) ∷ unflat xs

unflat-flat : (d : Dict Str Str) → unflat (flat d) ≡ d
unfolding unflat flat
unflat-flat [] = refl
unflat-flat ((k, v) ∷ d) = ap (◌∷◌ (k, v)) (unflat-flat d)

unfoldable pub packed_kind : Str → Kind
packed_kind [] = Kind.nothing
packed_kind (c ∷ s) =
    if c == 2
    then Kind.boolean
    else if c == 3
    then Kind.number
    else if c == 4
    then Kind.text
    else if c == 5
    then Kind.list
    else if c == 6
    then Kind.members
    else Kind.nothing

unfoldable pub members : Str → Dict Str Str
unfolding split unflat
members [] = []
members (c ∷ s) = if c == 6 then unflat (unpack s) else []

unfoldable pub list_of : Str → List Str
unfolding split
list_of [] = []
list_of (c ∷ s) = if c == 5 then unpack s else []

unfoldable pub text_of : Str → Option Str
text_of [] = none
text_of (c ∷ s) = if c == 4 then some s else none

unfoldable pub number_of : Str → Option ℕ
number_of (c ∷ sign ∷ m ∷ s) =
    if c == 3 then some (if sign == 1 then (2 ^ 64 - m) % 2 ^ 64 else m) else none
number_of s = none

unfoldable pub number : Signed → Str
number n = 3 ∷ (if n.negative then 1 else 0) ∷ n.magnitude ∷ []

unfoldable pub members_object : Dict Str Str → Str
unfolding items flat
members_object d = 6 ∷ pack (flat d)

-- A text starts with an equals sign.
unfoldable pub read_text : Str → Option Str
read_text [] = none
read_text (c ∷ s) = if c == b'=' then some s else none

members-object : (d : Dict Str Str) → members (members_object d) ≡ d
unfolding members members_object
members-object d = ap unflat (split-items (flat d)) ∙ unflat-flat d

unfoldable pub find_in : Str → Str → Option Str
unfolding members
find_in key j = lookup key (members j)

unfoldable pub put_in : Str → Str → Str → Str
unfolding members members_object
put_in key v j = members_object (insert key v (members j))

pub find_in-object : (key : Str) (d : Dict Str Str) → find_in key (members_object d) ≡ lookup key d
unfolding find_in
find_in-object key d = ap (lookup key) (members-object d)

pub find_in-put :
    (key other v j : Str)
    → find_in other (put_in key v j) ≡ (if key == other then some v else find_in other j)
unfolding find_in put_in
find_in-put key other v j =
    ap (lookup other) (members-object (insert key v (members j)))
    ∙ lookup-insert key other v (members j)

pub map_id : (o : Option Str) → o ≡ Option.map (λ j. j) o
map_id none = refl
map_id (some v) = refl

abbrev pub written : Str → Outcome JsonError Str
written j = returned (b'=' ∷ j)

pub read_text-write_text : (j s : Str) → written j ≡ returned s → read_text s ≡ some j
unfolding read_text
read_text-write_text j [] e = cc
read_text-write_text j (c ∷ s) e = ground arith

pub list_of-pack : (xs : List Str) → list_of (5 ∷ pack xs) ≡ xs
unfolding list_of
list_of-pack xs = split-items xs

pub kind-members_object : (d : Dict Str Str) → packed_kind (members_object d) ≡ Kind.members
unfolding packed_kind members_object
kind-members_object d = refl

pub kind-put_in : (key v j : Str) → packed_kind (put_in key v j) ≡ Kind.members
unfolding put_in
kind-put_in key v j = kind-members_object (insert key v (members j))

pub kind-pack : (xs : List Str) → packed_kind (5 ∷ pack xs) ≡ Kind.list
unfolding packed_kind
kind-pack xs = refl

pub kind-one : packed_kind (1 ∷ []) ≡ Kind.nothing
unfolding packed_kind
kind-one = refl

pub text_of-text : (s : Str) → text_of (4 ∷ s) ≡ some s
unfolding text_of
text_of-text s = refl

pub number_of-number :
    (n : ℕ) → number_of (number (record { negative = false; magnitude = n })) ≡ some n
unfolding number_of number
number_of-number n = refl

abbrev pub packed : JsonLib
packed = record {
  Json = Str;
  kind = packed_kind;
  parse = read_text;
  dump = written;
  value_message = λ j. j;
  convert_message = λ j. j;
  assign_message = λ j. j;
  find = find_in;
  elements = list_of;
  as_string = text_of;
  as_uint64 = number_of;
  null = 1 ∷ [];
  boolean_of = λ b. 2 ∷ (if b then 1 else 0) ∷ [];
  integer = number;
  string = λ s. 4 ∷ s;
  array = λ xs. 5 ∷ pack xs;
  object = members_object;
  put = put_in;
  reread = λ j. j;
  kind-null = kind-one;
  kind-array = kind-pack;
  kind-object = kind-members_object;
  kind-put = λ key v j _. kind-put_in key v j;
  elements-array = list_of-pack;
  as_string-string = text_of-text;
  as_uint64-integer = λ n _. number_of-number n;
  find-object = find_in-object;
  find-put = λ key other v j _. find_in-put key other v j;
  find-reread = λ key j. map_id (find_in key j);
  parse-dump = read_text-write_text;
}
