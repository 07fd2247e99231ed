-- ===== src/Server/Routes/Flight/Counting.antt =====
-- How often a response is in a queue, sent, and under way to another core.
use mcp_server.Base.{
  ℕ, zero, suc, ◌+◌, ◌≡◌, ap, arith, List, [], ◌∷◌, ◌++◌, some, if◌then◌else◌, ◌==◌, nat_eq, Str,
  str_eq, get_elem?,
}
use mcp_server.Server.Routes.Flight.{Call, without_at, Move, responds, arrives}

-- How often a text is in a list.
unfoldable pub count : Str → List Str → ℕ
count a [] = 0
count a (m ∷ ms) = (if m == a then 1 else 0) + count a ms

pub count-append : (a : Str) (xs ys : List Str) → count a (xs ++ ys) ≡ count a xs + count a ys
unfolding count
count-append a [] ys = omega arith
count-append a (x ∷ xs) ys = omega (arith, count-append a xs ys)

-- One if the text is `a` and is for `id`.
unfoldable pub one_for : Str → Str → Str → Str → ℕ
one_for id a other msg = if other == id then (if msg == a then 1 else 0) else 0

-- How often a text is under way to a session.
unfoldable pub flying : Str → Str → List Call → ℕ
flying id a [] = 0
flying id a (p ∷ ps) = one_for id a p.session_id p.msg + flying id a ps

-- How often a text was sent to a session.
unfoldable pub sent : Str → Str → List Move → ℕ
sent id a [] = 0
sent id a (responds sender here other msg ∷ ms) = one_for id a other msg + sent id a ms
sent id a (arrives i ∷ ms) = sent id a ms

module _ (id a : Str) where
  pub flying-without :
      (ps : List Call) (i : ℕ) (p : Call)
      → get_elem? ps i ≡ some p
      → flying id a ps ≡ one_for id a p.session_id p.msg + flying id a (without_at i ps)
  unfolding flying
  flying-without [] i p e = cc
  flying-without (q ∷ ps) zero p e =
      let same : q ≡ p = cc in ap (λ r. one_for id a r.session_id r.msg + flying id a ps) same
  flying-without (q ∷ ps) (suc i) p e = omega (arith, flying-without ps i p e)

  pub flying-snoc :
      (ps : List Call) (p : Call)
      → flying id a (ps ++ p ∷ []) ≡ flying id a ps + one_for id a p.session_id p.msg
  unfolding flying
  flying-snoc [] p = omega arith
  flying-snoc (q ∷ ps) p = omega (arith, flying-snoc ps p)
