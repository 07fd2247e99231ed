-- ===== src/Security/Filter/Rules.antt =====
-- IpFilter from its configuration texts to its answers.
use mathlib.Core.List.{append-nil}
use mcp_server.Base.{
  ℕ, ◌≤◌, ◌<◌, ◌^◌, ◌≡◌, refl, sym, ap, ap₂, ◌∙◌, ◌≢◌, inl, inr, Bool, false, ◌&&◌, not, ◌||◌, List,
  [], ◌∷◌, ◌++◌, map, none, some, arith, ltb, lt→ltb, if◌then◌else◌, ◌==◌, nat_eq, Bool-cases,
  nat_beq_iff, Str, str_eq, str_beq_iff, lit, is_empty, any, Lacks, find_byte-append,
  take-length-append, drop-suc-length-append, to_string, stoi, stoi-to_string, All, returned,
  thrown,
}
use mcp_server.Security.Policy.{IpFilterConfig}
use mcp_server.Security.Filter.Platform.{Sockets}
use mcp_server.Security.Filter.Blocks.{in_block, Reads, matches-entry, parse_ip_of_Reads}
use mcp_server.Security.Filter.{
  CidrEntry, invalid_prefix, IpFilter, parse_ip, entry, entry_of_prefix, parse_cidr, parse_cidrs,
  make_filter, matches, is_allowed,
}

-- A block as an administrator writes it: `text/prefix`, and the host address that the text denotes.
pub record Rule : Type 0 where
  pub text : Str
  pub address : ℕ
  pub prefix : ℕ

pub cidr_text : Rule → Str
cidr_text r = r.text ++ b'/' ∷ to_string r.prefix

abbrev pub holds : ℕ → Rule → Bool
holds x r = in_block r.address r.prefix x

-- The meaning of a filter on host addresses: the blacklist first, then the whitelist if there is
-- one, then the default.
unfoldable pub decides : List Rule → List Rule → Bool → ℕ → Bool
decides black white default x =
    if any (holds x) black then false else if is_empty white then default else any (holds x) white

module _ (os : Sockets) where
  open os use {inet_pton, htonl, htonl-injective, inet_pton_zero, htonl-zero}

  pub record IsRule (r : Rule) : Type 0 where
    pub plain : Lacks b'/' r.text
    pub reads : Reads os r.text r.address
    pub short : r.prefix ≤ 32

  abbrev pub rule_entry : Rule → CidrEntry
  rule_entry r = entry os r.text r.prefix

  prefix_of_text :
      (r : Rule)
      → Lacks b'/' r.text
      → r.prefix < 2 ^ 31
      → parse_cidr os (cidr_text r)
        ≡ entry_of_prefix os
            (cidr_text r)
            r.text
            (returned (record { negative = false; magnitude = r.prefix }))
  unfolding parse_cidr cidr_text
  prefix_of_text r plain l =
      let rest = to_string r.prefix in
      let found = find_byte-append b'/' r.text rest plain in
      let number : stoi rest ≡ returned (record { negative = false; magnitude = r.prefix }) =
        ap stoi (sym (append-nil rest)) ∙ stoi-to_string r.prefix [] tt l in
      rw found (
        ap₂ (entry_of_prefix os (r.text ++ b'/' ∷ rest)) (take-length-append r.text (b'/' ∷ rest))
          (ap stoi (drop-suc-length-append r.text b'/' rest) ∙ number))

  -- A text of the form `address/prefix` is accepted exactly for a prefix of at most 32 (below 2^31,
  -- where the number still fits an int); otherwise it throws the class's invalid_argument.
  pub parse_cidr-cidr_text :
      (r : Rule)
      → Lacks b'/' r.text
      → r.prefix < 2 ^ 31
      → parse_cidr os (cidr_text r) ≡ (
          if ltb 32 r.prefix
          then thrown (invalid_prefix (cidr_text r))
          else returned (rule_entry r))
  unfolding entry_of_prefix
  parse_cidr-cidr_text r plain l = prefix_of_text r plain l ∙ ground arith

  -- A whitelist whose first text has too long a prefix makes no filter.
  pub make_filter-long :
      (r : Rule) (rest : List Str) (default : Bool)
      → Lacks b'/' r.text
      → r.prefix < 2 ^ 31
      → 32 < r.prefix
      → make_filter os
          (record { whitelist = cidr_text r ∷ rest; blacklist = []; default_allow = default })
        ≡ thrown (invalid_prefix (cidr_text r))
  unfolding make_filter parse_cidrs
  make_filter-long r rest default plain l long =
      let refused : parse_cidr os (cidr_text r) ≡ thrown (invalid_prefix (cidr_text r)) =
        parse_cidr-cidr_text r plain l ∙ ground (arith, lt→ltb 32 r.prefix long) in
      ground (arith, refused)

  parse_cidrs-map :
      (rs : List Rule)
      → All IsRule rs
      → parse_cidrs os (map cidr_text rs) ≡ returned (map rule_entry rs)
  unfolding parse_cidrs
  parse_cidrs-map [] h = refl
  parse_cidrs-map (r ∷ rs) (v, h) =
      let one : parse_cidr os (cidr_text r) ≡ returned (rule_entry r) =
        parse_cidr-cidr_text r v.plain (omega (arith, v.short)) ∙ ground (arith, v.short) in
      ground (arith, one, parse_cidrs-map rs h)

  any-matches :
      (x : ℕ) (rs : List Rule)
      → x < 2 ^ 32
      → All IsRule rs
      → any (matches os (htonl x)) (map rule_entry rs) ≡ any (holds x) rs
  any-matches x [] l h = refl
  any-matches x (r ∷ rs) l (v, h) =
      ap₂ ◌||◌ (matches-entry os r.text r.address r.prefix x v.reads v.short l)
        (any-matches x rs l h)

  is_empty-map : (rs : List Rule) → is_empty (map rule_entry rs) ≡ is_empty rs
  is_empty-map [] = refl
  is_empty-map (r ∷ rs) = refl

  -- Only the text 0.0.0.0 denotes the address 0.
  zero_text : (s : Str) (x : ℕ) → Reads os s x → (x ≡ 0) → s ≡ lit "0.0.0.0"
  zero_text s x r e = inet_pton_zero s r.2 (r.0 ∙ ap (λ t. some (htonl t)) e ∙ ap some htonl-zero)

  known_address :
      (s : Str) (x : ℕ) → Reads os s x → (parse_ip os s == 0 && not (s == lit "0.0.0.0")) ≡ false
  known_address s x r = elim (Bool-cases (parse_ip os s == 0)) [
    | inl e ↦
        let zero_address =
          htonl-injective x 0 r.1 (omega arith)
            (sym (parse_ip_of_Reads os s x r) ∙ (nat_beq_iff _ _).0 e ∙ sym htonl-zero) in
        rw ((str_beq_iff s (lit "0.0.0.0")).1 (zero_text s x r zero_address)) (ground arith)
    | inr e ↦ rw e
  ]

  abbrev pub config : List Rule → List Rule → Bool → IpFilterConfig
  config black white default = record {
    whitelist = map cidr_text white;
    blacklist = map cidr_text black;
    default_allow = default;
  }

  abbrev compiled : List Rule → List Rule → Bool → IpFilter
  compiled black white default = record {
    whitelist = map rule_entry white;
    blacklist = map rule_entry black;
    default_allow = default;
  }

  is_allowed_known :
      (black white : List Rule) (default : Bool) (s : Str) (x : ℕ)
      → All IsRule black
      → All IsRule white
      → s ≢ []
      → Reads os s x
      → is_allowed os (compiled black white default) s ≡ decides black white default x
  unfolding is_allowed decides
  is_allowed_known black white default [] x hb hw ne r = absurd (ne refl)
  is_allowed_known black white default (c ∷ s) x hb hw ne r =
      rw
        (
          known_address (c ∷ s) x r,
          is_empty-map white,
          parse_ip_of_Reads os (c ∷ s) x r,
          any-matches x black r.1 hb,
          any-matches x white r.1 hw,
        )
        (ground arith)

  is_allowed_unknown :
      (f : IpFilter) (s : Str)
      → inet_pton s ≡ none
      → s ≢ lit "0.0.0.0"
      → is_allowed os f s ≡ f.default_allow
  unfolding is_allowed parse_ip
  is_allowed_unknown f [] e ne = refl
  is_allowed_unknown f (c ∷ s) e ne = ground (arith, e, str_beq_iff (c ∷ s) (lit "0.0.0.0"))

  -- A configuration of well-formed blocks `address/prefix` (prefix at most 32) compiles. The filter
  -- decides a text that denotes an IPv4 address by its meaning on host addresses: blacklist blocks
  -- refuse first, then a non-empty whitelist admits exactly its blocks, else the default. A text that
  -- inet_pton does not read, other than 0.0.0.0, and the empty text get the default.
  pub make_filter-decides :
      (black white : List Rule) (default : Bool)
      → All IsRule black
      → All IsRule white
      → (f : IpFilter) × (make_filter os (config black white default) ≡ returned f)
        × ((s : Str) (x : ℕ)
            → s ≢ []
            → Reads os s x
            → is_allowed os f s ≡ decides black white default x)
        × ((s : Str) → inet_pton s ≡ none → s ≢ lit "0.0.0.0" → is_allowed os f s ≡ default)
        × (is_allowed os f [] ≡ default)
  unfolding make_filter is_allowed
  make_filter-decides black white default hb hw = (
    compiled black white default,
    ground (arith, parse_cidrs-map black hb, parse_cidrs-map white hw),
    λ s x ne r. is_allowed_known black white default s x hb hw ne r,
    λ s e ne. is_allowed_unknown (compiled black white default) s e ne,
    refl,
  )
