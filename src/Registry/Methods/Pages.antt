-- ===== src/Registry/Methods/Pages.antt =====
-- A client of tools/list, resources/list and prompts/list in src/mcp/server/mcp_server.cc, which asks
-- for page after page until a reply has no nextCursor.
use mathlib.Core.Option
use mcp_server.Base.{
  ℕ, zero, suc, ◌+◌, ◌*◌, ◌%◌, ◌^◌, ◌≤◌, ◌<◌, ◌≡◌, refl, sym, ap, ap₂, ◌∙◌, false, List, [], ◌∷◌,
  ◌++◌, Option, none, some, arith, inl, inr, ◌⊎◌, Bool-cases, ltb, leb→le, ltb→lt, or_else,
  drop-past, drop-drop, ==_refl, leb, if◌then◌else◌, ◌==◌, Str, str_eq, str_beq, lit, Dict, lookup,
  length, take, drop, take-append-drop, to_string, Outcome, returned, stoul-digits,
}
use mcp_server.Json.{JsonLib, JsonError}
use mcp_server.Rpc.{HandlerError}
use mcp_server.Rpc.Actions.{Action, pure, ◌>>=◌}
use mcp_server.Registry.{McpRegistry, get_tools_list, get_resources_list, get_prompts_list}
use mcp_server.Registry.Methods.{
  MethodState, Method, page, page_from, offset_of, offset_of_text, tools_list, resources_list,
  prompts_list,
}

pub data Listing : Type 0 where
  tools resources prompts : Listing

module _ (js : JsonLib) where
  open js use {
    Json, find, elements, as_string, string, array, object, find-object, elements-array,
    as_string-string,
  }

  -- What a client sends and reads.
  abbrev pub cursor_params : Option Str → Json
  cursor_params none = object []
  cursor_params (some cursor) = object ((lit "cursor", string cursor) ∷ [])

  abbrev text_of : Option Json → Option Str
  text_of none = none
  text_of (some v) = as_string v

  abbrev pub next_cursor : Json → Option Str
  next_cursor reply = text_of (find (lit "nextCursor") reply)

  abbrev elements_of : Option Json → List Json
  elements_of none = []
  elements_of (some v) = elements v

  abbrev pub listed : Str → Json → List Json
  listed key reply = elements_of (find key reply)

  -- A page holds the rest of the listing, or 50 entries and the cursor of those behind them.
  abbrev Reads : Str → Json → List Json → ℕ → Type 0
  Reads key reply all offset =
      (listed key reply ≡ drop offset all) × (next_cursor reply ≡ none) × (length all ≤ offset + 50)
      ⊎ (listed key reply ≡ take 50 (drop offset all))
        × (next_cursor reply ≡ some (to_string (offset + 50)))
        × (offset + 50 < length all)

  lookup_first : (key : Str) (v : Json) (d : Dict Str Json) → lookup key ((key, v) ∷ d) ≡ some v
  unfolding lookup
  lookup_first key v d = ap (λ b. if b then some v else lookup key d) (==_refl key)

  lookup_later :
      (key other : Str) (v : Json) (d : Dict Str Json)
      → key == other ≡ false
      → lookup other ((key, v) ∷ d) ≡ lookup other d
  unfolding lookup
  lookup_later key other v d h = ap (λ b. if b then some v else lookup other d) h

  listed-object :
      (key : Str) (xs : List Json) (d : Dict Str Json)
      → listed key (object ((key, array xs) ∷ d)) ≡ xs
  listed-object key xs d =
      ap elements_of (find-object key ((key, array xs) ∷ d) ∙ lookup_first key (array xs) d)
      ∙ elements-array xs

  next_cursor-object :
      (key : Str) (v : Json) (d : Dict Str Json)
      → key == lit "nextCursor" ≡ false
      → next_cursor (object ((key, v) ∷ d)) ≡ text_of (lookup (lit "nextCursor") d)
  next_cursor-object key v d h =
      ap text_of
        (find-object (lit "nextCursor") ((key, v) ∷ d) ∙ lookup_later key (lit "nextCursor") v d h)

  page_from-Reads :
      (key : Str) (all : List Json) (offset : ℕ)
      → key == lit "nextCursor" ≡ false
      → length all + 50 < 2 ^ 64
      → Reads key (page_from js key offset all) all offset
  unfolding page_from lookup
  page_from-Reads key all offset k bound = elim (Bool-cases (leb (length all) offset)) [
    | inl past ↦
        rw (past, listed-object key [] [], next_cursor-object key (array []) [] k)
          (inl (
            sym (drop-past offset all (leb→le (length all) offset past)),
            refl,
            omega (arith, leb→le (length all) offset past),
          ))
    | inr before ↦
        let same : (offset + 50) % 2 ^ 64 ≡ offset + 50 = ground (arith, before) in
        let first = take 50 (drop offset all) in
        let cursor = string (to_string (offset + 50)) in
        elim (Bool-cases (ltb (offset + 50) (length all))) [
          | inl more ↦
              rw (before, same, more)
                (inr (
                  listed-object key first ((lit "nextCursor", cursor) ∷ []),
                  next_cursor-object key (array first) ((lit "nextCursor", cursor) ∷ []) k
                      ∙ ap text_of (lookup_first (lit "nextCursor") cursor [])
                      ∙ as_string-string (to_string (offset + 50)),
                  ltb→lt (offset + 50) (length all) more,
                ))
          | inr last ↦
              rw (before, same, last)
                (inl (
                  listed-object key (drop offset all) [],
                  next_cursor-object key (array (drop offset all)) [] k,
                  ground (arith, last),
                ))
        ]
  ]

  offset_of-cursor :
      (n : ℕ)
      → n < 2 ^ 64
      → offset_of js (find (lit "cursor") (cursor_params (some (to_string n)))) ≡ n
  unfolding offset_of offset_of_text
  offset_of-cursor n h =
      let v = string (to_string n) in
      ap (offset_of js)
        (find-object (lit "cursor") ((lit "cursor", v) ∷ []) ∙ lookup_first (lit "cursor") v [])
      ∙ ap (offset_of_text js) (as_string-string (to_string n))
      ∙ ap (or_else 0) (stoul-digits n h)

  offset_of-start : offset_of js (find (lit "cursor") (cursor_params none)) ≡ 0
  unfolding offset_of lookup
  offset_of-start = ap (offset_of js) (find-object (lit "cursor") [])

  module _ (W : Type 0) where
    abbrev follow :
        List Json
        → Option Str
        → (Str → Action (HandlerError js) (MethodState W) (Option (List Json)))
        → Action (HandlerError js) (MethodState W) (Option (List Json))
    follow xs none rest = pure (some xs)
    follow xs (some cursor) rest = do ys ← rest cursor; pure (Option.map (λ zs. xs ++ zs) ys)

    -- The first `fuel` pages; `none` where the last of them still has a cursor.
    pub walk :
        ℕ
        → Str
        → Method js W
        → Option Str
        → Action (HandlerError js) (MethodState W) (Option (List Json))
    walk zero key method cursor = pure none
    walk (suc fuel) key method cursor = do
      reply ← method (cursor_params cursor)
      follow (listed key reply) (next_cursor reply) λ c. walk fuel key method (some c)

    walk-step :
        (fuel : ℕ) (key : Str) (method : Method js W) (cursor : Option Str) (s : MethodState W)
        → (reply : Json) (xs : List Json) → method (cursor_params cursor) s ≡ (returned reply, s)
        → (next_cursor reply ≡ none × (listed key reply ≡ xs))
          ⊎ (c : Str) × (ys : List Json) × (next_cursor reply ≡ some c)
            × (walk fuel key method (some c) s ≡ (returned (some ys), s))
            × (listed key reply ++ ys ≡ xs)
        → walk (suc fuel) key method cursor s ≡ (returned (some xs), s)
    unfolding walk
    walk-step fuel key method cursor s reply xs e (inl (stop, same)) = rw (e, stop, same) refl
    walk-step fuel key method cursor s reply xs e (inr (c, ys, more, rest, same)) =
        rw (e, more, rest, same) refl

    module _ (key : Str) (method : Method js W) (all : List Json) (s : MethodState W)
        (k : key == lit "nextCursor" ≡ false) (bound : length all + 50 < 2 ^ 64)
        (answers : (params : Json) → method params s ≡ (returned (page js key params all), s)) where
      walk-page :
          (fuel : ℕ) (cursor : Option Str) (offset : ℕ)
          → offset_of js (find (lit "cursor") (cursor_params cursor)) ≡ offset
          → (offset + 50 < length all
              → walk fuel key method (some (to_string (offset + 50))) s
                ≡ (returned (some (drop (offset + 50) all)), s))
          → walk (suc fuel) key method cursor s ≡ (returned (some (drop offset all)), s)
      unfolding page
      walk-page fuel cursor offset e rest =
          let reply = page_from js key offset all in
          let replied =
            answers (cursor_params cursor) ∙ ap (λ n. (returned (page_from js key n all), s)) e in
          elim (page_from-Reads key all offset k bound) [
            | inl (xs, stop, _) ↦
                walk-step fuel key method cursor s reply (drop offset all) replied (inl (stop, xs))
            | inr (xs, more, below) ↦
                walk-step fuel key method cursor s reply (drop offset all) replied (
                  inr (
                    to_string (offset + 50),
                    drop (offset + 50) all,
                    more,
                    rest below,
                    ap₂ ◌++◌ xs (sym (drop-drop 50 offset all))
                        ∙ take-append-drop 50 (drop offset all),
                  ))
          ]

      walk-from :
          (fuel : ℕ) (cursor : Option Str) (offset : ℕ)
          → offset_of js (find (lit "cursor") (cursor_params cursor)) ≡ offset
          → length all ≤ offset + 50 * suc fuel
          → walk (suc fuel) key method cursor s ≡ (returned (some (drop offset all)), s)
      walk-from zero cursor offset e enough =
          walk-page zero cursor offset e λ below. absurd (omega arith)
      walk-from (suc fuel) cursor offset e enough = walk-page (suc fuel) cursor offset e λ below.
          walk-from fuel (some (to_string (offset + 50))) (offset + 50)
            (offset_of-cursor (offset + 50) (omega arith)) (omega arith)

      -- Too few requests for what is left.
      walk-few :
          (fuel : ℕ) (cursor : Option Str) (offset : ℕ)
          → offset_of js (find (lit "cursor") (cursor_params cursor)) ≡ offset
          → offset + 50 * fuel < length all
          → walk fuel key method cursor s ≡ (returned none, s)
      unfolding walk page
      walk-few zero cursor offset e few = refl
      walk-few (suc fuel) cursor offset e few =
          let reply = page_from js key offset all in
          let replied =
            answers (cursor_params cursor) ∙ ap (λ n. (returned (page_from js key n all), s)) e in
          elim (page_from-Reads key all offset k bound) [
            | inl (xs, stop, short) ↦ absurd (omega arith)
            | inr (xs, more, below) ↦
                let rest =
                  walk-few fuel (some (to_string (offset + 50))) (offset + 50)
                    (offset_of-cursor (offset + 50) (omega arith)) (omega arith) in
                rw (replied, more, rest) refl
          ]

    abbrev pub listing_key : Listing → Str
    listing_key tools = lit "tools"
    listing_key resources = lit "resources"
    listing_key prompts = lit "prompts"

    abbrev pub listing_method : Listing → McpRegistry js (MethodState W) → Method js W
    listing_method tools = tools_list js W
    listing_method resources = resources_list js W
    listing_method prompts = prompts_list js W

    abbrev pub listing_entries :
        Listing → McpRegistry js (MethodState W) → Outcome JsonError (List Json)
    listing_entries tools = get_tools_list js (MethodState W)
    listing_entries resources = get_resources_list js (MethodState W)
    listing_entries prompts = get_prompts_list js (MethodState W)

    listing_key-ne : (l : Listing) → listing_key l == lit "nextCursor" ≡ false
    unfolding lit str_beq
    listing_key-ne tools = refl
    listing_key-ne resources = refl
    listing_key-ne prompts = refl

    listing_method-answers :
        (l : Listing) (r : McpRegistry js (MethodState W)) (all : List Json) (s : MethodState W)
        → listing_entries l r ≡ returned all
        → (params : Json)
        → listing_method l r params s ≡ (returned (page js (listing_key l) params all), s)
    unfolding tools_list resources_list prompts_list
    listing_method-answers tools r all s e params = rw e refl
    listing_method-answers resources r all s e params = rw e refl
    listing_method-answers prompts r all s e params = rw e refl

    -- tools/list, resources/list and prompts/list. Where the registry can make the listing, a client
    -- that starts without a cursor and follows nextCursor has all its entries in their order, each
    -- once, after as many requests as there are started fifties (one where there is nothing) and not
    -- after fewer, when a further page is still announced; and the state of the server is as before. Listings whose length comes within 50 of 2 ^ 64 are left
    -- out.
    pub walk-listing_method :
        (l : Listing) (r : McpRegistry js (MethodState W)) (all : List Json) (fuel : ℕ)
        (s : MethodState W)
        → listing_entries l r ≡ returned all
        → length all + 50 < 2 ^ 64
        → walk (suc fuel) (listing_key l) (listing_method l r) none s
          ≡ (returned (if leb (length all) (50 * suc fuel) then some all else none), s)
    walk-listing_method l r all fuel s e bound =
        elim (Bool-cases (leb (length all) (50 * suc fuel))) [
          | inl enough ↦
              walk-from (listing_key l) (listing_method l r) all s (listing_key-ne l) bound
                (listing_method-answers l r all s e) fuel none 0 offset_of-start
                (ground (arith, enough))
              ∙ sym (ap (λ b. (returned (if b then some all else none), s)) enough)
          | inr few ↦
              walk-few (listing_key l) (listing_method l r) all s (listing_key-ne l) bound
                (listing_method-answers l r all s e) (suc fuel) none 0 offset_of-start
                (ground (arith, few))
              ∙ sym (ap (λ b. (returned (if b then some all else none), s)) few)
        ]
