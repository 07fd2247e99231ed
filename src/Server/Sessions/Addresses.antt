-- ===== src/Server/Sessions/Addresses.antt =====
-- The table and the addresses of a shard against a list of sessions with the address of each.
use mcp_server.Base.{
  ℕ, ◌≡◌, refl, sym, ap, ◌∙◌, inl, inr, Bool, true, false, Option, none, some, [], ◌∷◌, arith,
  if◌then◌else◌, Bool-cases, Option-cases, is_empty, ◌==◌, Str, str_eq, str_beq_iff, Dict, lookup,
  insert, erase, lookup-insert, lookup-erase, length,
}
use mcp_server.Server.Sessions.{
  Sessions, create_session_with_id, remove_session, add_session, track_ip_conn,
}
use mcp_server.Server.Sessions.Counting.{
  held, held-insert, held-erase, one_more_if, Distinct, Distinct-insert, Distinct-erase,
  erase_absent,
}

abbrev pub is_some {ℓ} : {A : Type ℓ} → Option A → Bool
is_some none = false
is_some (some a) = true

none_of_some {ℓ} : {A : Type ℓ} (o : Option A) → is_some o ≡ false → o ≡ none
none_of_some none e = refl
none_of_some (some a) e = absurd (cc)

abbrev pub known : Option Str → Option Str
known none = none
known (some ip) = if is_empty ip then none else some ip

-- The table and the addresses of the shard are those of the calls; an empty address is not kept.
pub record Keeps (s : Sessions) (o : Dict Str Str) : Type 0 where
  pub present : (id : Str) → is_some (lookup id s.sessions) ≡ is_some (lookup id o)
  pub apart : Distinct o
  pub address : (id : Str) → lookup id s.session_to_ip ≡ known (lookup id o)
  pub number : (ip : Str) → is_empty ip ≡ false → held ip s.session_to_ip ≡ held ip o

empty_differs : (a b : Str) → is_empty a ≡ true → is_empty b ≡ false → (a == b) ≡ false
empty_differs [] [] e f = absurd (cc)
empty_differs [] (c ∷ b) e f = elim (Bool-cases ([] == c ∷ b)) [
  | inl same ↦ let bad : [] ≡ c ∷ b = (str_beq_iff [] (c ∷ b)).0 same in absurd (cc)
  | inr other ↦ other
]
empty_differs (c ∷ a) b e f = absurd (cc)

lookup-insert-is_some :
    {V : Type 0} (id j : Str) (v : V) (d : Dict Str V)
    → is_some (lookup j (insert id v d)) ≡ (if id == j then true else is_some (lookup j d))
lookup-insert-is_some id j v d = elim (Bool-cases (id == j)) [
  | inl same ↦
      rw same
        (ap is_some (lookup-insert id j v d ∙ ap (λ b. if b then some v else lookup j d) same))
  | inr other ↦
      rw other
        (ap is_some (lookup-insert id j v d ∙ ap (λ b. if b then some v else lookup j d) other))
]

lookup-erase-is_some :
    {V : Type 0} (id j : Str) (d : Dict Str V)
    → is_some (lookup j (erase id d)) ≡ (if id == j then false else is_some (lookup j d))
lookup-erase-is_some id j d = elim (Bool-cases (id == j)) [
  | inl same ↦
      rw same (ap is_some (lookup-erase id j d ∙ ap (λ b. if b then none else lookup j d) same))
  | inr other ↦
      rw other (ap is_some (lookup-erase id j d ∙ ap (λ b. if b then none else lookup j d) other))
]

pub create-Keeps :
    (s : Sessions) (o : Dict Str Str) (counter : ℕ) (id client_ip : Str)
    → lookup id s.sessions ≡ none
    → Keeps s o
    → Keeps
        (create_session_with_id (record s { session_counter = counter }) id client_ip)
        (insert id client_ip o)
unfolding create_session_with_id add_session track_ip_conn
create-Keeps s o counter id client_ip fresh k =
    let new : lookup id o ≡ none =
      none_of_some (lookup id o) (sym (k.present id) ∙ ap is_some fresh) in
    let unknown : lookup id s.session_to_ip ≡ none = k.address id ∙ ap known new in
    let present = λ (j : Str).
      lookup-insert-is_some id j (length s.heap) s.sessions
      ∙ ap (λ b. if id == j then true else b) (k.present j)
      ∙ sym (lookup-insert-is_some id j client_ip o) in
    elim (Bool-cases (is_empty client_ip)) [
      | inl anonymous ↦ rw anonymous (record {
        present = present;
        apart = Distinct-insert id client_ip o new k.apart;
        address = λ j. elim (Bool-cases (id == j)) [
          | inl same ↦
              ap (λ x. lookup x s.session_to_ip) (sym ((str_beq_iff id j).0 same))
              ∙ unknown
              ∙ sym (
                  ap known (
                    lookup-insert id j client_ip o
                    ∙ ap (λ b. if b then some client_ip else lookup j o) same)
                  ∙ ap (λ b. if b then none else some client_ip) anonymous)
          | inr other ↦
              k.address j
              ∙ sym (
                  ap known (
                    lookup-insert id j client_ip o
                    ∙ ap (λ b. if b then some client_ip else lookup j o) other))
        ];
        number = λ j full.
            k.number j full
            ∙ sym (
                held-insert j id client_ip o new
                ∙ ap (λ b. one_more_if b (held j o)) (empty_differs client_ip j anonymous full));
      })
      | inr named ↦ rw named (record {
        present = present;
        apart = Distinct-insert id client_ip o new k.apart;
        address = λ j. elim (Bool-cases (id == j)) [
          | inl same ↦
              lookup-insert id j client_ip s.session_to_ip
              ∙ ap (λ b. if b then some client_ip else lookup j s.session_to_ip) same
              ∙ sym (
                  ap known (
                    lookup-insert id j client_ip o
                    ∙ ap (λ b. if b then some client_ip else lookup j o) same)
                  ∙ ap (λ b. if b then none else some client_ip) named)
          | inr other ↦
              lookup-insert id j client_ip s.session_to_ip
              ∙ ap (λ b. if b then some client_ip else lookup j s.session_to_ip) other
              ∙ k.address j
              ∙ sym (
                  ap known (
                    lookup-insert id j client_ip o
                    ∙ ap (λ b. if b then some client_ip else lookup j o) other))
        ];
        number = λ j full.
            held-insert j id client_ip s.session_to_ip unknown
            ∙ ap (one_more_if (client_ip == j)) (k.number j full)
            ∙ sym (held-insert j id client_ip o new);
      })
    ]

known_some : (o : Option Str) (ip : Str) → known o ≡ some ip → o ≡ some ip
known_some none ip e = absurd (cc)
known_some (some []) ip e = absurd (cc)
known_some (some (c ∷ x)) ip e = e

known_none : (o : Option Str) (ip : Str) → known o ≡ none → o ≡ some ip → is_empty ip ≡ true
known_none o [] e f = refl
known_none o (c ∷ ip) e f =
    let bad : known (some (c ∷ ip)) ≡ none = ap known (sym f) ∙ e in absurd (cc)

one_more_if-injective : (b : Bool) (n m : ℕ) → one_more_if b n ≡ one_more_if b m → n ≡ m
one_more_if-injective true n m e = omega (arith, e)
one_more_if-injective false n m e = e

-- A session without an address counts for none.
held-erase_anonymous :
    (o : Dict Str Str) (id j : Str)
    → Distinct o
    → known (lookup id o) ≡ none
    → is_empty j ≡ false
    → held j o ≡ held j (erase id o)
held-erase_anonymous o id j apart e full = elim (Option-cases (lookup id o)) [
  | inl absent ↦ ap (held j) (sym (erase_absent id o absent))
  | inr (ip, there) ↦
      held-erase j id ip o apart there
      ∙ ap (λ b. one_more_if b (held j (erase id o)))
          (empty_differs ip j (known_none (lookup id o) ip e there) full)
]

known-erase :
    (s : Sessions) (o : Dict Str Str) (id j : Str)
    → Keeps s o
    → (if id == j then none else lookup j s.session_to_ip) ≡ known (lookup j (erase id o))
known-erase s o id j k = elim (Bool-cases (id == j)) [
  | inl same ↦
      rw same (sym (ap known (lookup-erase id j o ∙ ap (λ b. if b then none else lookup j o) same)))
  | inr other ↦ rw other (
      k.address j
      ∙ sym (ap known (lookup-erase id j o ∙ ap (λ b. if b then none else lookup j o) other)))
]

pub remove-Keeps :
    (s : Sessions) (o : Dict Str Str) (id : Str)
    → Distinct s.session_to_ip
    → Keeps s o
    → Keeps (remove_session s id) (erase id o)
unfolding remove_session
remove-Keeps s o id distinct k =
    let present = λ (j : Str).
      lookup-erase-is_some id j s.sessions
      ∙ ap (λ b. if id == j then false else b) (k.present j)
      ∙ sym (lookup-erase-is_some id j o) in
    elim (Option-cases (lookup id s.session_to_ip)) [
      | inl e ↦ rw e (record {
        present = present;
        apart = Distinct-erase id o k.apart;
        address = λ j. elim (Bool-cases (id == j)) [
          | inl same ↦
              ap (λ x. lookup x s.session_to_ip) (sym ((str_beq_iff id j).0 same))
              ∙ e
              ∙ sym (ap (λ b. if b then none else lookup j s.session_to_ip) same)
              ∙ known-erase s o id j k
          | inr other ↦
              sym (ap (λ b. if b then none else lookup j s.session_to_ip) other)
              ∙ known-erase s o id j k
        ];
        number = λ j full.
            k.number j full ∙ held-erase_anonymous o id j k.apart (sym (k.address id) ∙ e) full;
      })
      | inr (ip, e) ↦
          let there : lookup id o ≡ some ip =
            known_some (lookup id o) ip (sym (k.address id) ∙ e) in
          rw e (record {
            present = present;
            apart = Distinct-erase id o k.apart;
            address = λ j. lookup-erase id j s.session_to_ip ∙ known-erase s o id j k;
            number = λ j full. one_more_if-injective (ip == j) _ _ (
                sym (held-erase j id ip s.session_to_ip distinct e)
                ∙ k.number j full
                ∙ held-erase j id ip o k.apart there);
          })
    ]
