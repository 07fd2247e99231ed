-- ===== src/Server/Sessions/Counting.antt =====
-- _session_to_ip against _ip_conn_count: how many sessions an address holds, and what a
-- session more or less does to that number.
use mcp_server.Base.{
  ℕ, zero, suc, ◌+◌, ◌-◌, ◌%◌, ◌^◌, ◌<◌, ◌≡◌, refl, sym, ap, ◌∙◌, inl, inr, Bool, true, false,
  Option, none, some, [], ◌∷◌, arith, if◌then◌else◌, if_rule, Bool-cases, Option-cases, ltb, ◌==◌,
  nat_eq, Str, str_eq, str_beq_iff, Dict, lookup, insert, erase, lookup-insert, lookup-insert_self,
  lookup-erase, ==_refl, subst,
}
use mcp_server.Server.Sessions.{release_ip, released, count_or_zero}

abbrev pub one_more_if : Bool → ℕ → ℕ
one_more_if true n = suc n
one_more_if false n = n

one_more_if_swap :
    (b c : Bool) (n : ℕ) → one_more_if b (one_more_if c n) ≡ one_more_if c (one_more_if b n)
one_more_if_swap true true n = refl
one_more_if_swap true false n = refl
one_more_if_swap false c n = refl

-- The number of sessions of an address.
abbrev pub held : Str → Dict Str Str → ℕ
held ip [] = 0
held ip ((id, j) ∷ rest) = one_more_if (j == ip) (held ip rest)

-- An unordered_map has one entry for a key.
abbrev pub Distinct : Dict Str Str → Type 0
Distinct [] = Unit {0}
Distinct ((k, v) ∷ rest) = (lookup k rest ≡ none) × Distinct rest

-- How the counts represent `n`: an address without a session has no entry.
abbrev pub stored : ℕ → Option ℕ
stored zero = none
stored (suc n) = some (suc n)

pub held-insert :
    (j id ip : Str) (d : Dict Str Str)
    → lookup id d ≡ none
    → held j (insert id ip d) ≡ one_more_if (ip == j) (held j d)
unfolding lookup insert
held-insert j id ip [] e = refl
held-insert j id ip ((k, v) ∷ rest) e = elim (Bool-cases (k == id)) [
  | inl same ↦ absurd (ground (arith, e, same))
  | inr other ↦
      let tail : lookup id rest ≡ none = ground (arith, e, other) in
      rw other (
        ap (one_more_if (v == j)) (held-insert j id ip rest tail)
        ∙ one_more_if_swap (v == j) (ip == j) (held j rest))
]

pub Distinct-insert :
    (id ip : Str) (d : Dict Str Str) → lookup id d ≡ none → Distinct d → Distinct (insert id ip d)
unfolding lookup insert
Distinct-insert id ip [] e h = (refl, tt)
Distinct-insert id ip ((k, v) ∷ rest) e (n, h) = elim (Bool-cases (k == id)) [
  | inl same ↦ absurd (ground (arith, e, same))
  | inr other ↦ rw other (
    ground (arith, lookup-insert id k ip rest, str_beq_iff id k, str_beq_iff k id, n, other),
    Distinct-insert id ip rest (ground (arith, e, other)) h,
  )
]

pub erase_absent : (id : Str) (d : Dict Str Str) → lookup id d ≡ none → erase id d ≡ d
unfolding lookup erase
erase_absent id [] e = refl
erase_absent id ((k, v) ∷ rest) e = elim (Bool-cases (k == id)) [
  | inl same ↦ absurd (ground (arith, e, same))
  | inr other ↦ rw other (ap (◌∷◌ (k, v)) (erase_absent id rest (ground (arith, e, other))))
]

pub held-erase :
    (j id ip : Str) (d : Dict Str Str)
    → Distinct d
    → lookup id d ≡ some ip
    → held j d ≡ one_more_if (ip == j) (held j (erase id d))
unfolding lookup erase
held-erase j id ip [] h e = absurd (cc)
held-erase j id ip ((k, v) ∷ rest) (n, h) e = elim (Bool-cases (k == id)) [
  | inl same ↦
      let absent : lookup id rest ≡ none =
        subst (λ x. lookup x rest ≡ none) ((str_beq_iff k id).0 same) n in
      let value : v ≡ ip = ground (arith, e, same) in
      rw (same, erase_absent id rest absent) (ap (λ x. one_more_if (x == j) (held j rest)) value)
  | inr other ↦ rw other (
      ap (one_more_if (v == j)) (held-erase j id ip rest h (ground (arith, e, other)))
      ∙ one_more_if_swap (v == j) (ip == j) (held j (erase id rest)))
]

pub Distinct-erase : (id : Str) (d : Dict Str Str) → Distinct d → Distinct (erase id d)
unfolding lookup erase
Distinct-erase id [] h = tt
Distinct-erase id ((k, v) ∷ rest) (n, h) = elim (Bool-cases (k == id)) [
  | inl same ↦ rw same (Distinct-erase id rest h)
  | inr other ↦ rw other (ground (arith, lookup-erase id k rest, n), Distinct-erase id rest h)
]

-- The counts represent the table.
abbrev pub IsCounted : Dict Str ℕ → Dict Str Str → Type 0
IsCounted counts d = (j : Str) → lookup j counts ≡ stored (held j d)

pub stored-or_zero : (n : ℕ) → count_or_zero (stored n) ≡ n
stored-or_zero zero = refl
stored-or_zero (suc n) = refl

-- The count of one address changes and those of the others stay.
count_one :
    (counts new : Dict Str ℕ) (d e : Dict Str Str) (ip : Str)
    → lookup ip new ≡ stored (held ip e)
    → ((j : Str) → (ip == j) ≡ false → lookup j new ≡ lookup j counts)
    → ((j : Str) → (ip == j) ≡ false → held j e ≡ held j d)
    → IsCounted counts d
    → IsCounted new e
count_one counts new d e ip here there kept h j = elim (Bool-cases (ip == j)) [
  | inl same ↦ subst (λ x. lookup x new ≡ stored (held x e)) ((str_beq_iff ip j).0 same) here
  | inr other ↦ there j other ∙ (h j ∙ ap stored (sym (kept j other)))
]

pub insert-IsCounted :
    (counts : Dict Str ℕ) (d : Dict Str Str) (id ip : Str)
    → lookup id d ≡ none
    → held ip d + 1 < 2 ^ 64
    → IsCounted counts d
    → IsCounted
        (insert ip ((count_or_zero (lookup ip counts) + 1) % 2 ^ 64) counts)
        (insert id ip d)
insert-IsCounted counts d id ip e l h =
    let n = (count_or_zero (lookup ip counts) + 1) % 2 ^ 64 in
    let was : count_or_zero (lookup ip counts) ≡ held ip d =
      ap count_or_zero (h ip) ∙ stored-or_zero (held ip d) in
    let now : held ip (insert id ip d) ≡ suc (held ip d) =
      held-insert ip id ip d e ∙ ap (λ b. one_more_if b (held ip d)) (==_refl ip) in
    let next : n ≡ suc (held ip d) = omega (arith, was) in
    count_one counts (insert ip n counts) d (insert id ip d) ip
      (lookup-insert_self ip n counts ∙ (ap some next ∙ ap stored (sym now)))
      (λ j other. ground (arith, lookup-insert ip j n counts))
      (λ j other. held-insert j id ip d e ∙ ap (λ b. one_more_if b (held j d)) other) h

release_ip-counted :
    (counts : Dict Str ℕ) (ip : Str) (n : ℕ)
    → lookup ip counts ≡ stored (suc n)
    → lookup ip (release_ip counts ip) ≡ stored n
unfolding release_ip
release_ip-counted counts ip zero e =
    ap (λ o. lookup ip (released counts ip o)) e
    ∙ (lookup-erase ip ip counts ∙ ap (λ b. if b then none else lookup ip counts) (==_refl ip))
release_ip-counted counts ip (suc n) e =
    ap (λ o. lookup ip (released counts ip o)) e
    ∙ ground (arith, lookup-insert_self ip (suc n) counts)

release_ip-ne :
    (counts : Dict Str ℕ) (ip j : Str)
    → (ip == j) ≡ false
    → lookup j (release_ip counts ip) ≡ lookup j counts
unfolding release_ip
release_ip-ne counts ip j other = elim (Option-cases (lookup ip counts)) [
  | inl e ↦ ap (λ o. lookup j (released counts ip o)) e
  | inr (n, e) ↦
      let left = if ltb 0 n then n - 1 else n in
      ap (λ o. lookup j (released counts ip o)) e
      ∙ if_rule (λ m. lookup j m ≡ lookup j counts) (left == 0)
          (λ _. ground (arith, lookup-erase ip j counts))
          (λ _. ground (arith, lookup-insert ip j left counts))
]

pub erase-IsCounted :
    (counts : Dict Str ℕ) (d : Dict Str Str) (id ip : Str)
    → Distinct d
    → lookup id d ≡ some ip
    → IsCounted counts d
    → IsCounted (release_ip counts ip) (erase id d)
erase-IsCounted counts d id ip apart e h =
    let before : held ip d ≡ suc (held ip (erase id d)) =
      held-erase ip id ip d apart e ∙ ap (λ b. one_more_if b (held ip (erase id d))) (==_refl ip) in
    count_one counts (release_ip counts ip) d (erase id d) ip
      (release_ip-counted counts ip (held ip (erase id d)) (h ip ∙ ap stored before))
      (release_ip-ne counts ip)
      (λ j other.
        sym (held-erase j id ip d apart e ∙ ap (λ b. one_more_if b (held j (erase id d))) other))
      h
