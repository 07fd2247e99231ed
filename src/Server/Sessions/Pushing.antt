-- ===== src/Server/Sessions/Pushing.antt =====
-- What push_to_session does to an active session.
use mcp_server.Base.{
  ℕ, ◌≡◌, ◌≢◌, ap, ◌∙◌, inl, inr, Bool, sym, if_rule, if◌then◌else◌, Option-cases,
  get_elem?-set_self, get_elem?-set_ne, List, refl, true, some, Str, set, get_elem?,
}
use mcp_server.Server.Sessions.{SseSession, Sessions, enqueue, get_session, push, push_to_session}

pub push_to_session_lem :
    (s : Sessions) (id msg : Str) (i : ℕ) (x : SseSession)
    → get_session s id ≡ some i
    → get_elem? s.heap i ≡ some x
    → x.active ≡ true
    → push_to_session s id msg ≡ record s { heap = set s.heap i (enqueue msg x) }
unfolding push_to_session push
push_to_session_lem s id msg i x e f h = rw (push_to_session, e, push, f, h) refl

-- A session after a message: one that is no longer active gets none.
abbrev pub told : Str → SseSession → SseSession
told msg x = if x.active then enqueue msg x else x

push_self :
    (heap : List SseSession) (i : ℕ) (msg : Str) (x : SseSession)
    → get_elem? heap i ≡ some x
    → get_elem? (push heap i msg) i ≡ some (told msg x)
unfolding push
push_self heap i msg x e =
    let more = enqueue msg x in
    let choose = λ (b : Bool). some (if b then more else x) in
    rw (push, e)
      (if_rule (λ h. get_elem? h i ≡ some (told msg x)) x.active
        (λ a. get_elem?-set_self heap i more x e ∙ sym (ap choose a)) (λ a. e ∙ sym (ap choose a)))

push_ne :
    (heap : List SseSession) (i j : ℕ) (msg : Str)
    → j ≢ i
    → get_elem? (push heap j msg) i ≡ get_elem? heap i
unfolding push
push_ne heap i j msg n = elim (Option-cases (get_elem? heap j)) [
  | inl e ↦ rw (push, e) refl
  | inr (x, e) ↦
      rw (push, e)
        (if_rule (λ h. get_elem? h i ≡ get_elem? heap i) x.active
          (λ _. get_elem?-set_ne heap j i (enqueue msg x) n) (λ _. refl))
]

pub push_to_session-table :
    (s : Sessions) (id msg : Str) → (push_to_session s id msg).sessions ≡ s.sessions
unfolding push_to_session
push_to_session-table s id msg = elim (Option-cases (get_session s id)) [
  | inl e ↦ rw (push_to_session, e) refl
  | inr (i, e) ↦ rw (push_to_session, e) refl
]

pub push_to_session-told :
    (s : Sessions) (id msg : Str) (i : ℕ) (x : SseSession)
    → get_session s id ≡ some i
    → get_elem? s.heap i ≡ some x
    → get_elem? (push_to_session s id msg).heap i ≡ some (told msg x)
unfolding push_to_session
push_to_session-told s id msg i x e f = rw (push_to_session, e) (push_self s.heap i msg x f)

pub push_to_session-elsewhere :
    (s : Sessions) (id msg : Str) (i : ℕ)
    → get_session s id ≢ some i
    → get_elem? (push_to_session s id msg).heap i ≡ get_elem? s.heap i
unfolding push_to_session
push_to_session-elsewhere s id msg i n = elim (Option-cases (get_session s id)) [
  | inl e ↦ rw (push_to_session, e) refl
  | inr (j, e) ↦ rw (push_to_session, e) (push_ne s.heap i j msg λ same. n (e ∙ ap some same))
]
