-- ===== src/Security/Filter/Blocks.antt =====
-- IpFilter against its meaning on host addresses: a block holds the addresses that agree with its
-- own in the first `prefix` bits.
use Prim.Native.Nat.{bit_and}
use native.Mathlib.Nat.{div-mul-le_self}
use mcp_server.Base.{
  Lacks, ℕ, zero, suc, ◌-◌, ◌*◌, ◌/◌, ◌^◌, ◌≤◌, ◌<◌, ◌≡◌, refl, sym, ap, ◌∙◌, subst, Bool, true,
  ◌&&◌, some, arith, ltb, ◌==◌, nat_eq, nat_beq_iff, eq_of_iff, Str, str_eq,
}
use mcp_server.Base.Masks.{bit_and-mask, bit_and-mask_iff}
use mcp_server.Security.Filter.Platform.{Sockets}
use mcp_server.Security.Filter.{mask_host, parse_ip, entry, matches}

all_upto : ℕ → (ℕ → Bool) → Bool
all_upto zero p = p 0
all_upto (suc n) p = p (suc n) && all_upto n p

all_upto_sound : (n : ℕ) (p : ℕ → Bool) (x : ℕ) → all_upto n p ≡ true → x ≤ n → p x ≡ true
unfolding all_upto
all_upto_sound zero p zero h l = h
all_upto_sound zero p (suc x) h l = absurd (omega arith)
all_upto_sound (suc n) p x h l = ground (arith, all_upto_sound n p x)

abbrev mask_agrees : ℕ → Bool
mask_agrees p =
    mask_host p == (2 ^ p - 1) * 2 ^ (32 - p)
    && (2 ^ p * 2 ^ (32 - p) == 2 ^ 32 && ltb (mask_host p) (2 ^ 32))

mask_table : all_upto 32 mask_agrees ≡ true
unfolding all_upto mask_host
mask_table = refl

mask_host_lem :
    (p : ℕ)
    → p ≤ 32
    → (mask_host p ≡ (2 ^ p - 1) * 2 ^ (32 - p))
      × (2 ^ p * 2 ^ (32 - p) ≡ 2 ^ 32)
      × (mask_host p < 2 ^ 32)
mask_host_lem p h = let checked = all_upto_sound 32 mask_agrees p mask_table h in ground arith

abbrev pub in_block : ℕ → ℕ → ℕ → Bool
in_block address prefix x = x / 2 ^ (32 - prefix) == address / 2 ^ (32 - prefix)

masked : (p x : ℕ) → p ≤ 32 → x < 2 ^ 32 → bit_and x (mask_host p) ≡ x / 2 ^ (32 - p) * 2 ^ (32 - p)
masked p x h l =
    let (as_mask, whole, _) = mask_host_lem p h in
    ap (bit_and x) as_mask ∙ bit_and-mask p (32 - p) x (subst (λ w. x < w) (sym whole) l)

masked_lt : (p x : ℕ) → p ≤ 32 → x < 2 ^ 32 → bit_and x (mask_host p) < 2 ^ 32
masked_lt p x h l = omega (arith, masked p x h l, div-mul-le_self x (2 ^ (32 - p)))

module _ (os : Sockets) where
  open os use {inet_pton, htonl, htonl-and, htonl-injective, inet_pton_zero, htonl-zero}

  -- A text, without NUL, that inet_pton reads as the host address `a`.
  abbrev pub Reads : Str → ℕ → Type 0
  Reads s a = (inet_pton s ≡ some (htonl a)) × (a < 2 ^ 32) × Lacks 0 s

  pub parse_ip_of_Reads : (s : Str) (a : ℕ) → Reads s a → parse_ip os s ≡ htonl a
  unfolding parse_ip
  parse_ip_of_Reads s a (r, _, _) = ground (arith, r)

  pub matches-entry :
      (s : Str) (a p x : ℕ)
      → Reads s a
      → p ≤ 32
      → x < 2 ^ 32
      → matches os (htonl x) (entry os s p) ≡ in_block a p x
  unfolding matches entry
  matches-entry s a p x r h l =
      let m = mask_host p in
      let (_, _, fits) = mask_host_lem p h in
      let left : bit_and (htonl x) (htonl m) ≡ htonl (bit_and x m) = htonl-and x m l fits in
      let right : bit_and (parse_ip os s) (htonl m) ≡ htonl (bit_and a m) =
        ap (λ t. bit_and t (htonl m)) (parse_ip_of_Reads s a r) ∙ htonl-and a m r.1 fits in
      let same = bit_and-mask_iff (32 - p) x a in
      eq_of_iff _ _ (
        λ e. (nat_beq_iff _ _).1 (
            same.0 (
              sym (masked p x h l)
              ∙ htonl-injective _ _ (masked_lt p x h l) (masked_lt p a h r.1)
                  (sym left ∙ (nat_beq_iff _ _).0 e ∙ right)
              ∙ masked p a h r.1)),
        λ e. (nat_beq_iff _ _).1 (
            left
            ∙ ap htonl (masked p x h l ∙ same.1 ((nat_beq_iff _ _).0 e) ∙ sym (masked p a h r.1))
            ∙ sym right),
      )
