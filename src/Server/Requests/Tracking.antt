-- ===== src/Server/Requests/Tracking.antt =====
-- The table of the requests that wait for a client, and the futures.
use mcp_server.Base.{
  ℕ, ◌+◌, ◌%◌, ◌^◌, ◌≤◌, ◌<◌, ◌≡◌, refl, sym, ap, subst, ◌∙◌, ◌≢◌, [], ◌∷◌, ◌++◌, Option, none,
  some, arith, inl, inr, Option-cases, nat_eq, Str, length, set, get_elem?, Dict, lookup, insert,
  erase, lookup-insert_hit, lookup-erase_hit, lookup-insert_self, get_elem?-lt, get_elem?-append,
  get_elem?-length, get_elem?-set_ne, lit, Outcome-cases, Outcome, returned,
}
use mcp_server.Json.{JsonLib, JsonError}
use mcp_server.Server.Sessions.{Sessions, push_to_session}
use mcp_server.Server.Requests.{
  Settlement, ClientRequests, no_requests, request_json, emplace, enter_request,
  send_request_to_client, send_entered, push_request, settle_cell, settle_found, settle_id,
  settlement, handle_client_response, id_of, stop_requests,
}

module _ (js : JsonLib) where
  open js use {Json, dump}

  -- Every request that waits has an unsettled future of its own and a number that was given out.
  pub record IsTracked (r : ClientRequests js) : Type 0 where
    pub waiting :
        (id cell : ℕ)
        → lookup id r.pending_client_requests ≡ some cell
        → get_elem? r.futures cell ≡ some none
    pub apart :
        (id other cell : ℕ)
        → lookup id r.pending_client_requests ≡ some cell
        → lookup other r.pending_client_requests ≡ some cell
        → id ≡ other
    pub known :
        (id cell : ℕ)
        → lookup id r.pending_client_requests ≡ some cell
        → id ≤ r.server_request_counter

  pub no_requests-IsTracked : IsTracked (no_requests js)
  unfolding lookup
  no_requests-IsTracked = record {
    waiting = λ id c e. cc;
    apart = λ id other c e f. cc;
    known = λ id c e. cc;
  }

  abbrev pub entered : ClientRequests js → ClientRequests js
  entered r = record {
    server_request_counter = r.server_request_counter + 1;
    pending_client_requests =
        insert (r.server_request_counter + 1) (length r.futures) r.pending_client_requests;
    futures = r.futures ++ none ∷ [];
  }

  no_next :
      (r : ClientRequests js)
      → IsTracked r
      → lookup (r.server_request_counter + 1) r.pending_client_requests ≡ none
  no_next r t =
      elim (Option-cases (lookup (r.server_request_counter + 1) r.pending_client_requests)) [
        | inl e ↦ e
        | inr (cell, e) ↦ absurd (omega (arith, t.known (r.server_request_counter + 1) cell e))
      ]

  emplace_lem :
      (key cell : ℕ) (d : Dict ℕ ℕ)
      → lookup key d ≡ none
      → emplace js key cell d ≡ insert key cell d
  unfolding emplace
  emplace_lem key cell d h = rw (emplace, h) refl

  pub enter_request_lem :
      (r : ClientRequests js)
      → r.server_request_counter + 1 < 2 ^ 64
      → IsTracked r
      → enter_request js r ≡ (r.server_request_counter + 1, length r.futures, entered r)
  unfolding enter_request
  enter_request_lem r bound t =
      let same : (r.server_request_counter + 1) % 2 ^ 64 ≡ r.server_request_counter + 1 =
        omega arith in
      let added =
        emplace_lem (r.server_request_counter + 1) (length r.futures) r.pending_client_requests
          (no_next r t) in
      rw (same, added) refl

  pub send_request_to_client_lem :
      (s : Sessions) (r : ClientRequests js) (session_id method text : Str) (params : Json)
      → r.server_request_counter + 1 < 2 ^ 64
      → IsTracked r
      → dump (request_json js (r.server_request_counter + 1) method params) ≡ returned text
      → send_request_to_client js s r session_id method params
        ≡ (returned (length r.futures), push_to_session s session_id text, entered r)
  unfolding send_request_to_client send_entered
  send_request_to_client_lem s r session_id method text params bound t e =
      ap (send_entered js s session_id method params) (enter_request_lem r bound t)
      ∙ ap
          (λ (o : Outcome JsonError Str).
            let (sent, s') = push_request js s session_id (length r.futures) o in
            (sent, s', entered r))
          e

  pub entered-IsTracked : (r : ClientRequests js) → IsTracked r → IsTracked (entered r)
  entered-IsTracked r t =
      let next = r.server_request_counter + 1 in
      let cell = length r.futures in
      let cases =
        λ (id c : ℕ) (e : lookup id (insert next cell r.pending_client_requests) ≡ some c).
          lookup-insert_hit next id cell r.pending_client_requests c e in
      let below = λ (id c : ℕ) (e : lookup id r.pending_client_requests ≡ some c).
        get_elem?-lt r.futures c none (t.waiting id c e) in
      record {
        waiting = λ id c e. elim (cases id c e) [
          | inl (_, same) ↦
              ap (get_elem? (r.futures ++ none ∷ [])) (sym same) ∙ get_elem?-length r.futures none
          | inr (_, old) ↦ get_elem?-append r.futures (none ∷ []) c none (t.waiting id c old)
        ];
        apart = λ id other c e f. elim (cases id c e) [
          | inl (a, same) ↦ elim (cases other c f) [
            | inl (b, _) ↦ sym a ∙ b
            | inr (_, old) ↦ absurd (omega (arith, below other c old, same))
          ]
          | inr (_, old) ↦ elim (cases other c f) [
            | inl (_, same) ↦ absurd (omega (arith, below id c old, same))
            | inr (_, older) ↦ t.apart id other c old older
          ]
        ];
        known = λ id c e. elim (cases id c e) [
          | inl (a, _) ↦ omega (arith, a)
          | inr (_, old) ↦ omega (arith, t.known id c old)
        ];
      }

  unfoldable pub settled : ClientRequests js → ℕ → ℕ → Settlement js → ClientRequests js
  settled r id cell v = record r {
    pending_client_requests = erase id r.pending_client_requests;
    futures = set r.futures cell (some v);
  }

  settled-IsTracked :
      (r : ClientRequests js) (id cell : ℕ) (v : Settlement js)
      → lookup id r.pending_client_requests ≡ some cell
      → IsTracked r
      → IsTracked (settled r id cell v)
  unfolding settled
  settled-IsTracked r id cell v h t =
      let left = λ (other c : ℕ) (e : lookup other (erase id r.pending_client_requests) ≡ some c).
        lookup-erase_hit id other r.pending_client_requests c e in
      record {
        waiting = λ other c e.
            let (n, old) = left other c e in
            let apart : cell ≢ c = λ same. n (t.apart id other c (h ∙ ap some same) old) in
            get_elem?-set_ne r.futures cell c (some v) apart ∙ t.waiting other c old;
        apart = λ a b c e f. t.apart a b c (left a c e).1 (left b c f).1;
        known = λ other c e. t.known other c (left other c e).1;
      }

  -- `cell` is what the table has for `id`.
  settle_found-IsTracked :
      (r : ClientRequests js) (id : ℕ) (cell : Option ℕ) (response : Json)
      → lookup id r.pending_client_requests ≡ cell
      → IsTracked r
      → IsTracked (settle_found js r id cell response).1
  unfolding settle_found settle_cell settled
  settle_found-IsTracked r id none response h t = t
  settle_found-IsTracked r id (some cell) response h t =
      elim (Outcome-cases (settlement js response)) [
        | inl (v, e) ↦ rw e (settled-IsTracked r id cell v h t)
        | inr (x, e) ↦ rw e t
      ]

  settle_id-IsTracked :
      (r : ClientRequests js) (id : Option ℕ) (response : Json)
      → IsTracked r
      → IsTracked (settle_id js r id response).1
  unfolding settle_id
  settle_id-IsTracked r none response t = t
  settle_id-IsTracked r (some id) response t =
      settle_found-IsTracked r id (lookup id r.pending_client_requests) response refl t

  stopped-IsTracked : (r : ClientRequests js) → IsTracked (stop_requests js r)
  unfolding stop_requests lookup
  stopped-IsTracked r = record {
    waiting = λ id c e. cc;
    apart = λ id other c e f. cc;
    known = λ id c e. cc;
  }

  -- What every operation keeps, counters below 2 ^ 64 - 1: the request that send_request_to_client
  -- enters is tracked with those before, also where its text cannot be made; a response, of whatever
  -- form, leaves all tracked; stop leaves no request that waits.
  pub IsTracked-step :
      (s : Sessions) (r : ClientRequests js) (session_id method : Str) (params response : Json)
      → r.server_request_counter + 1 < 2 ^ 64
      → IsTracked r
      → IsTracked (send_request_to_client js s r session_id method params).2
        × IsTracked (handle_client_response js r response).1
        × IsTracked (stop_requests js r)
        × (lookup
              (r.server_request_counter + 1)
              (send_request_to_client js s r session_id method params).2.pending_client_requests
            ≡ some (length r.futures))
  unfolding send_request_to_client handle_client_response stop_requests
  IsTracked-step s r session_id method params response bound t =
      let entry = enter_request_lem r bound t in
      (
        subst IsTracked (sym (ap (λ p. p.2) entry)) (entered-IsTracked r t),
        settle_id-IsTracked r (id_of js (js.find (lit "id") response)) response t,
        stopped-IsTracked r,
        ap (λ p. lookup (r.server_request_counter + 1) p.2.pending_client_requests) entry
            ∙ lookup-insert_self (r.server_request_counter + 1) (length r.futures)
                r.pending_client_requests,
      )
