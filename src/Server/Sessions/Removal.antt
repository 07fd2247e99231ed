-- ===== src/Server/Sessions/Removal.antt =====
-- What remove_session takes away.
use mcp_server.Base.{
  ℕ, zero, suc, ◌-◌, Bool, true, false, leb, ◌≡◌, refl, sym, subst, ap, ap₂, ◌∙◌, Option-cases,
  Bool-cases, inl, inr, Dict, lookup-insert, str_beq_iff, arith, Option, none, some, if◌then◌else◌,
  ◌==◌, Str, str_eq, lookup, erase, lookup-erase,
}
use mcp_server.Server.Sessions.{
  Sessions, get_session, released, release_ip, forget_ip, remove_session,
}

forget_ip-sessions :
    (s : Sessions) (id : Str) (o : Option Str)
    → ((forget_ip s id o).sessions ≡ s.sessions) × ((forget_ip s id o).heap ≡ s.heap)
forget_ip-sessions s id none = (refl, refl)
forget_ip-sessions s id (some ip) = (refl, refl)

-- The session leaves the table, and the others stay.
pub get_session-remove_session :
    (s : Sessions) (id other : Str)
    → get_session (remove_session s id) other ≡ (if id == other then none else get_session s other)
unfolding get_session remove_session
get_session-remove_session s id other =
    ap (λ t. lookup other (erase id t)) (forget_ip-sessions s id (lookup id s.session_to_ip)).0
    ∙ lookup-erase id other s.sessions

pub remove_session-heap : (s : Sessions) (id : Str) → (remove_session s id).heap ≡ s.heap
unfolding remove_session
remove_session-heap s id = (forget_ip-sessions s id (lookup id s.session_to_ip)).1

-- One connection less; there is no entry for none.
abbrev pub one_less : Bool → Option ℕ → Option ℕ
one_less false o = o
one_less true none = none
one_less true (some n) = if leb n 1 then none else some (n - 1)

abbrev pub is_of : Str → Option Str → Bool
is_of ip none = false
is_of ip (some j) = j == ip

lookup-released :
    (counts : Dict Str ℕ) (j ip : Str) (n : ℕ)
    → lookup ip (released counts j (some n))
      ≡ (if j == ip then if leb n 1 then none else some (n - 1) else lookup ip counts)
lookup-released counts j ip zero = lookup-erase j ip counts
lookup-released counts j ip (suc zero) = lookup-erase j ip counts
lookup-released counts j ip (suc (suc n)) =
    ground (arith, lookup-insert j ip (suc (suc n) - 1) counts)

release_ip-one_less :
    (counts : Dict Str ℕ) (j ip : Str)
    → lookup ip (release_ip counts j) ≡ one_less (j == ip) (lookup ip counts)
unfolding release_ip
release_ip-one_less counts j ip = elim (Option-cases (lookup j counts)) [
  | inl e ↦ ap (λ o. lookup ip (released counts j o)) e ∙ elim (Bool-cases (j == ip)) [
    | inl same ↦
        let gone : lookup ip counts ≡ none =
          subst (λ x. lookup x counts ≡ none) ((str_beq_iff j ip).0 same) e in
        gone ∙ sym (ap₂ one_less same gone)
    | inr other ↦ sym (ap (λ b. one_less b (lookup ip counts)) other)
  ]
  | inr (n, e) ↦
      ap (λ o. lookup ip (released counts j o)) e
      ∙ lookup-released counts j ip n
      ∙ elim (Bool-cases (j == ip)) [
        | inl same ↦
            let has : lookup ip counts ≡ some n =
              subst (λ x. lookup x counts ≡ some n) ((str_beq_iff j ip).0 same) e in
            ap (λ b. if b then if leb n 1 then none else some (n - 1) else lookup ip counts) same
            ∙ sym (ap₂ one_less same has)
        | inr other ↦
            ap (λ b. if b then if leb n 1 then none else some (n - 1) else lookup ip counts) other
            ∙ sym (ap (λ b. one_less b (lookup ip counts)) other)
      ]
]

forget_ip-one_less :
    (s : Sessions) (id ip : Str) (o : Option Str)
    → lookup ip (forget_ip s id o).ip_conn_count ≡ one_less (is_of ip o) (lookup ip s.ip_conn_count)
forget_ip-one_less s id ip none = refl
forget_ip-one_less s id ip (some j) = release_ip-one_less s.ip_conn_count j ip

-- The address of the session, if it has one, counts one connection less, and the others stay.
pub remove_session-ip_conn_count :
    (s : Sessions) (id ip : Str)
    → lookup ip (remove_session s id).ip_conn_count
      ≡ one_less (is_of ip (lookup id s.session_to_ip)) (lookup ip s.ip_conn_count)
unfolding remove_session
remove_session-ip_conn_count s id ip = forget_ip-one_less s id ip (lookup id s.session_to_ip)
