-- ===== src/Transport/Clients.antt =====
-- What _get_client_ip and _get_api_key read out of the headers.
use mathlib.Core.List.{append-nil, reverse-append, reverse-reverse}
use mcp_server.Base.{
  ℕ, zero, suc, ◌≡◌, refl, sym, ap, ◌∙◌, ◌≢◌, false, [], ◌∷◌, ◌++◌, reverse, arith, ◌==◌, nat_eq,
  Str, str_eq, lit, is_empty, length, take, drop, replicate, find_byte, Lacks, find_byte-append,
  find_byte-none, take-length-append, ==_refl, All-append,
}
use mcp_server.Transport.{
  Headers, trim_front, trim_back, first_field, up_to, get_client_ip, get_api_key,
}

abbrev pub spaces : ℕ → Str
spaces n = replicate n b' '

-- A text that does not start with a space.
abbrev pub IsFlush : Str → Type 0
IsFlush [] = Unit {0}
IsFlush (c ∷ s) = (c == b' ') ≡ false

trim_front-spaces : (n : ℕ) (a : Str) → trim_front (spaces n ++ a) ≡ trim_front a
unfolding trim_front
trim_front-spaces zero a = refl
trim_front-spaces (suc n) a = trim_front-spaces n a

spaces-snoc : (n : ℕ) → spaces n ++ b' ' ∷ [] ≡ spaces (suc n)
spaces-snoc zero = refl
spaces-snoc (suc n) = ap (◌∷◌ b' ') (spaces-snoc n)

reverse-spaces : (n : ℕ) → reverse (spaces n) ≡ spaces n
reverse-spaces zero = refl
reverse-spaces (suc n) =
    reverse-append (b' ' ∷ []) (spaces n)
    ∙ (ap (λ t. t ++ b' ' ∷ []) (reverse-spaces n) ∙ spaces-snoc n)

trim_front-flush : (a b : Str) → a ≢ [] → IsFlush a → trim_front (a ++ b) ≡ a ++ b
unfolding trim_front
trim_front-flush [] b ne h = absurd (ne refl)
trim_front-flush (c ∷ a) b ne h = rw h refl

reverse-ne-nil : (a : Str) → a ≢ [] → reverse a ≢ []
reverse-ne-nil a ne e = ne (sym (reverse-reverse a) ∙ ap reverse e)

trims :
    (a : Str) (m n : ℕ)
    → a ≢ []
    → IsFlush a
    → IsFlush (reverse a)
    → trim_back (trim_front (spaces m ++ (a ++ spaces n))) ≡ a
unfolding trim_back
trims a m n ne front back =
    ap (λ s. reverse (trim_front (reverse s)))
      (trim_front-spaces m (a ++ spaces n) ∙ trim_front-flush a (spaces n) ne front)
    ∙ (ap (λ s. reverse (trim_front s))
          (reverse-append a (spaces n) ∙ ap (λ s. s ++ reverse a) (reverse-spaces n))
        ∙ (ap reverse (
              trim_front-spaces n (reverse a)
              ∙ (ap trim_front (sym (append-nil (reverse a)))
                  ∙ (trim_front-flush (reverse a) [] (reverse-ne-nil a ne) back
                      ∙ append-nil (reverse a))))
            ∙ reverse-reverse a))

spaces-Lacks : (n : ℕ) → Lacks b',' (spaces n)
spaces-Lacks zero = tt
spaces-Lacks (suc n) = (omega arith, spaces-Lacks n)

-- The first address of a forwarding list, with spaces around it.
abbrev pub padded : ℕ → Str → ℕ → Str
padded m a n = spaces m ++ (a ++ spaces n)

padded-Lacks : (m : ℕ) (a : Str) (n : ℕ) → Lacks b',' a → Lacks b',' (padded m a n)
padded-Lacks m a n h =
    All-append (λ x. x ≢ b',') (spaces m) (a ++ spaces n) (spaces-Lacks m)
      (All-append (λ x. x ≢ b',') a (spaces n) h (spaces-Lacks n))

padded-ne-nil : (m : ℕ) (a : Str) (n : ℕ) (t : Str) → a ≢ [] → is_empty (padded m a n ++ t) ≡ false
padded-ne-nil zero [] n t ne = absurd (ne refl)
padded-ne-nil zero (c ∷ a) n t ne = refl
padded-ne-nil (suc m) a n t ne = refl

forwarded :
    (req : Headers) (a t : Str) (m n : ℕ)
    → req.x_real_ip ≡ []
    → req.x_forwarded_for ≡ padded m a n ++ t
    → first_field (padded m a n ++ t) ≡ padded m a n
    → a ≢ []
    → IsFlush a
    → IsFlush (reverse a)
    → get_client_ip req ≡ a
unfolding get_client_ip
forwarded req a t m n r f e ne front back =
    let here : is_empty req.x_forwarded_for ≡ false = ap is_empty f ∙ padded-ne-nil m a n t ne in
    let found : trim_back (trim_front (first_field req.x_forwarded_for)) ≡ a =
      ap (λ s. trim_back (trim_front s)) (ap first_field f ∙ e) ∙ trims a m n ne front back in
    ground (arith, ap is_empty r, here, found)

is_empty_ne : (s : Str) → s ≢ [] → is_empty s ≡ false
is_empty_ne [] n = absurd (n refl)
is_empty_ne (c ∷ s) n = refl

-- The client address is X-Real-IP where that is not empty. Else it is the first entry of
-- X-Forwarded-For, with or without further entries behind a comma and with any number of spaces
-- around it, and the empty text where that header is empty too.
pub get_client_ip_lem :
    (req : Headers) (a rest : Str) (m n : ℕ)
    → a ≢ []
    → IsFlush a
    → IsFlush (reverse a)
    → Lacks b',' a
    → (req.x_real_ip ≢ [] → get_client_ip req ≡ req.x_real_ip)
      × (req.x_real_ip ≡ []
          → (req.x_forwarded_for ≡ padded m a n ++ b',' ∷ rest → get_client_ip req ≡ a)
            × (req.x_forwarded_for ≡ padded m a n ++ [] → get_client_ip req ≡ a)
            × (req.x_forwarded_for ≡ [] → get_client_ip req ≡ []))
unfolding first_field up_to get_client_ip
get_client_ip_lem req a rest m n ne front back lacks =
    let plain = padded-Lacks m a n lacks in
    (
      λ r. ground (arith, is_empty_ne req.x_real_ip r),
      λ r. (
        λ f.
            forwarded req a (b',' ∷ rest) m n r f
              (ap (up_to (padded m a n ++ b',' ∷ rest))
                  (find_byte-append b',' (padded m a n) rest plain)
                ∙ take-length-append (padded m a n) (b',' ∷ rest))
              ne front back,
        λ f.
            forwarded req a [] m n r f
              (ap (up_to (padded m a n ++ [])) (
                  ap (find_byte b',') (append-nil (padded m a n))
                  ∙ find_byte-none b',' (padded m a n) plain)
                ∙ append-nil (padded m a n))
              ne front back,
        λ f. ground (arith, ap is_empty r, ap is_empty f),
      ),
    )

-- The API key is X-API-Key where that is not empty, and else the text behind "Bearer " of the
-- Authorization header; a header that is only that word gives the empty key.
pub get_api_key_lem :
    (req : Headers) (token : Str)
    → (req.x_api_key ≢ [] → get_api_key req ≡ req.x_api_key)
      × (req.x_api_key ≡ [] → req.authorization ≡ lit "Bearer " ++ token → get_api_key req ≡ token)
unfolding get_api_key lit
get_api_key_lem req [] = (
  λ k. ground (arith, is_empty_ne req.x_api_key k),
  λ k e. ground (arith, ap is_empty k, ap length e),
)
get_api_key_lem req (c ∷ token) = (
  λ k. ground (arith, is_empty_ne req.x_api_key k),
  λ k e. ground (
    arith,
    ap is_empty k,
    ap length e,
    ap (λ s. take 7 s == lit "Bearer ") e ∙ ==_refl (lit "Bearer "),
    ap (drop 7) e,
  ),
)
