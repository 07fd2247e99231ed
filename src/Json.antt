-- ===== src/Json.antt =====
-- What the server takes from nlohmann::json, as a parameter of the models that use it.
pub mod Packed
use mathlib.Core.Option
use mcp_server.Base.{
  ℕ, ◌<◌, ◌^◌, ◌≡◌, Bool, true, false, [], ◌∷◌, List, Option, none, some, if◌then◌else◌, ◌==◌, Str,
  str_eq, Dict, lookup, Signed, Outcome, returned, thrown, refl, ap, ◌∙◌, Option-cases, inl, inr,
}

pub data Kind : Type 0 where
  nothing boolean number text list members : Kind

-- nlohmann's type_error, with its message: the operation is not for this kind of value.
pub data JsonError : Type 0 where
  type_error : Str → JsonError

pub record JsonLib : Type 1 where
  pub Json : Type 0
  pub kind : Json → Kind
  -- json::parse; `none` where it throws.
  pub parse : Str → Option Json
  -- dump, which throws on text that is not UTF-8.
  pub dump : Json → Outcome JsonError Str
  -- contains, and operator[] or at of a member that is there; nothing but an object has members.
  pub find : Str → Json → Option Json
  -- The elements of an array, none elsewhere.
  pub elements : Json → List Json
  -- get<std::string>() and get<uint64_t>(); `none` where they throw.
  pub as_string : Json → Option Str
  pub as_uint64 : Json → Option ℕ
  -- The messages of value on what is no object, of a conversion to text, and of `j[key] = v` on what
  -- is neither an object nor null.
  pub value_message : Json → Str
  pub convert_message : Json → Str
  pub assign_message : Json → Str
  -- The values that the source builds; an object from its members, no key twice.
  pub null : Json
  pub boolean_of : Bool → Json
  pub integer : Signed → Json
  pub string : Str → Json
  pub array : List Json → Json
  pub object : Dict Str Json → Json
  -- `j[key] = v` on an object.
  pub put : Str → Json → Json → Json
  -- The value that a dumped text parses to: a number that is not finite comes back as null.
  pub reread : Json → Json
  pub kind-null : kind null ≡ Kind.nothing
  pub kind-array : (xs : List Json) → kind (array xs) ≡ Kind.list
  pub kind-object : (d : Dict Str Json) → kind (object d) ≡ Kind.members
  pub kind-put :
      (key : Str) (v j : Json) → kind j ≡ Kind.members → kind (put key v j) ≡ Kind.members
  pub elements-array : (xs : List Json) → elements (array xs) ≡ xs
  pub as_string-string : (s : Str) → as_string (string s) ≡ some s
  pub as_uint64-integer :
      (n : ℕ)
      → n < 2 ^ 64
      → as_uint64 (integer (record { negative = false; magnitude = n })) ≡ some n
  pub find-object : (key : Str) (d : Dict Str Json) → find key (object d) ≡ lookup key d
  pub find-put :
      (key other : Str) (v j : Json)
      → kind j ≡ Kind.members
      → find other (put key v j) ≡ (if key == other then some v else find other j)
  pub find-reread : (key : Str) (j : Json) → find key (reread j) ≡ Option.map reread (find key j)
  pub parse-dump : (j : Json) (s : Str) → dump j ≡ returned s → parse s ≡ some (reread j)

module _ (js : JsonLib) where
  open js use {
    Json, kind, find, as_string, put, object, value_message, convert_message, assign_message,
  }

  abbrev pub contains : Json → Str → Bool
  contains j key = elim (find key j) [ none ↦ false | some v ↦ true ]

  abbrev pub is_object : Json → Bool
  is_object j = elim (kind j) [ Kind.members ↦ true | _ ↦ false ]

  abbrev pub is_array : Json → Bool
  is_array j = elim (kind j) [ Kind.list ↦ true | _ ↦ false ]

  -- `j == "…"`: a string is equal to strings with its text only.
  abbrev pub is_text : Json → Str → Bool
  is_text j s = elim (as_string j) [ none ↦ false | some t ↦ t == s ]

  abbrev pub read_string : Json → Outcome JsonError Str
  read_string j = elim (as_string j) [
    | none ↦ thrown (type_error (convert_message j))
    | some t ↦ returned t
  ]

  assign_at : Kind → Str → Json → Json → Outcome JsonError Json
  assign_at Kind.members key v j = returned (put key v j)
  assign_at Kind.nothing key v j = returned (object ((key, v) ∷ []))
  assign_at Kind.boolean key v j = thrown (type_error (assign_message j))
  assign_at Kind.number key v j = thrown (type_error (assign_message j))
  assign_at Kind.text key v j = thrown (type_error (assign_message j))
  assign_at Kind.list key v j = thrown (type_error (assign_message j))

  -- `j[key] = v`, which makes an object of null.
  unfoldable pub assign : Str → Json → Json → Outcome JsonError Json
  unfolding assign_at
  assign key v j = assign_at (kind j) key v j

  pub assign-members :
      (key : Str) (v j : Json) → kind j ≡ Kind.members → assign key v j ≡ returned (put key v j)
  unfolding assign assign_at
  assign-members key v j h = ap (λ k. assign_at k key v j) h

  string_or : Str → Option Json → Outcome JsonError Str
  string_or default none = returned default
  string_or default (some v) = read_string v

  json_or : Json → Option Json → Json
  json_or default none = default
  json_or default (some v) = v

  -- `j.value(key, default)` for a text: throws on what is no object and on a member of another kind.
  unfoldable pub value_string : Json → Str → Str → Outcome JsonError Str
  unfolding string_or
  value_string j key default =
      if is_object j then string_or default (find key j) else thrown (type_error (value_message j))

  -- The same for any value.
  unfoldable pub value_json : Json → Str → Json → Outcome JsonError Json
  unfolding json_or
  value_json j key default =
      if is_object j
      then returned (json_or default (find key j))
      else thrown (type_error (value_message j))

  pub value_json-returned :
      (j : Json) (key : Str) (default : Json)
      → is_object j ≡ true
      → (v : Json) × (value_json j key default ≡ returned v)
        × ((w : Json) → find key j ≡ some w → v ≡ w)
        × (find key j ≡ none → v ≡ default)
  unfolding value_json json_or
  value_json-returned j key default h = elim (Option-cases (find key j)) [
    | inl e ↦ (default, rw (h, e) refl, λ w f. cc, λ _. refl)
    | inr (w, e) ↦ (w, rw (h, e) refl, λ u f. cc, λ n. cc)
  ]

  pub is_object-object : (d : Dict Str Json) → is_object (object d) ≡ true
  is_object-object d =
      ap (λ k. elim k as (λ _. Bool) [ Kind.members ↦ true | _ ↦ false ]) (js.kind-object d)

  pub is_array-object : (d : Dict Str Json) → is_array (object d) ≡ false
  is_array-object d =
      ap (λ k. elim k as (λ _. Bool) [ Kind.list ↦ true | _ ↦ false ]) (js.kind-object d)

  pub is_array-array : (xs : List Json) → is_array (js.array xs) ≡ true
  is_array-array xs =
      ap (λ k. elim k as (λ _. Bool) [ Kind.list ↦ true | _ ↦ false ]) (js.kind-array xs)

  pub is_object-array : (xs : List Json) → is_object (js.array xs) ≡ false
  is_object-array xs =
      ap (λ k. elim k as (λ _. Bool) [ Kind.members ↦ true | _ ↦ false ]) (js.kind-array xs)

  pub contains-object :
      (key : Str) (d : Dict Str Json) (o : Option Json)
      → lookup key d ≡ o
      → contains (object d) key ≡ elim o as (λ _. Bool) [ none ↦ false | some v ↦ true ]
  contains-object key d o e =
      ap (λ (x : Option Json). elim x as (λ _. Bool) [ none ↦ false | some v ↦ true ])
        (js.find-object key d ∙ e)

  pub value_json-object :
      (key : Str) (default v : Json) (d : Dict Str Json)
      → lookup key d ≡ some v
      → value_json (object d) key default ≡ returned v
  value_json-object key default v d e =
      let (w, made, found, _) = value_json-returned (object d) key default (is_object-object d) in
      made ∙ ap returned (found v (js.find-object key d ∙ e))

  pub read_string-string : (s : Str) → read_string (js.string s) ≡ returned s
  read_string-string s =
      ap
        (λ (o : Option Str). elim o as (λ _. Outcome JsonError Str) [
          | none ↦ thrown (type_error (convert_message (js.string s)))
          | some t ↦ returned t
        ])
        (js.as_string-string s)

  pub value_string-object :
      (key : Str) (default s : Str) (d : Dict Str Json)
      → lookup key d ≡ some (js.string s)
      → value_string (object d) key default ≡ returned s
  unfolding value_string string_or
  value_string-object key default s d e =
      let read : string_or default (find key (object d)) ≡ returned s =
        ap (string_or default) (js.find-object key d ∙ e) ∙ read_string-string s in
      rw (is_object-object d) read
