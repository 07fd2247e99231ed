-- ===== src/Security/Filter.antt =====
-- include/mcp/security/ip_filter.hh: IPv4 filtering by CIDR blocks. inet_pton and htonl are the
-- platform's, and parameters here.
pub mod Platform
pub mod Blocks
pub mod Rules
pub mod Host
mod Tests
use Prim.Native.Nat.{bit_and}
use mcp_server.Base.{
  ℕ, zero, suc, ◌-◌, ◌*◌, ◌%◌, ◌^◌, Bool, true, false, ◌&&◌, not, List, [], ◌∷◌, Option, none, some,
  ltb, if◌then◌else◌, ◌==◌, nat_eq, Str, str_eq, lit, is_empty, any, find_byte, take, drop, Signed,
  stoi, NumberError, Outcome, returned, thrown,
}
use mcp_server.Security.Policy.{IpFilterConfig}
use Platform.{Sockets}

-- Both in network byte order.
pub record CidrEntry : Type 0 where
  pub network : ℕ
  pub mask : ℕ

-- std::invalid_argument of the class itself, or what std::stoi throws.
pub data CidrError : Type 0 where
  invalid_prefix : Str → CidrError
  bad_number : NumberError → CidrError

pub record IpFilter : Type 0 where
  pub whitelist : List CidrEntry
  pub blacklist : List CidrEntry
  pub default_allow : Bool

-- The number after the slash, or 32 where there is none.
prefix_length : Str → Option ℕ → Outcome NumberError Signed
prefix_length cidr none = returned (record { negative = false; magnitude = 32 })
prefix_length cidr (some slash) = stoi (drop (suc slash) cidr)

address_part : Str → Option ℕ → Str
address_part cidr none = cidr
address_part cidr (some slash) = take slash cidr

-- `prefix < 0 || prefix > 32`
abbrev is_bad_prefix : Signed → Bool
is_bad_prefix n = if ltb 32 n.magnitude then true else n.negative && ltb 0 n.magnitude

-- `(prefix == 0) ? 0u : (~0u << (32 - prefix))`
pub mask_host : ℕ → ℕ
mask_host zero = 0
mask_host (suc p) = (2 ^ 32 - 1) * 2 ^ (32 - suc p) % 2 ^ 32

module _ (os : Sockets) where
  open os use {inet_pton, htonl}

  -- The address in network byte order, 0 where the text is none.
  pub parse_ip : Str → ℕ
  parse_ip s = elim (inet_pton s) [ some a ↦ a | none ↦ 0 ]

  pub entry : Str → ℕ → CidrEntry
  unfolding parse_ip mask_host
  entry ip_part prefix =
      let mask = htonl (mask_host prefix) in
      record { network = bit_and (parse_ip ip_part) mask; mask = mask }

  entry_of_prefix : Str → Str → Outcome NumberError Signed → Outcome CidrError CidrEntry
  entry_of_prefix cidr ip_part (thrown e) = thrown (bad_number e)
  entry_of_prefix cidr ip_part (returned n) =
      if is_bad_prefix n then thrown (invalid_prefix cidr) else returned (entry ip_part n.magnitude)

  pub parse_cidr : Str → Outcome CidrError CidrEntry
  unfolding entry_of_prefix prefix_length address_part
  parse_cidr cidr =
      let slash = find_byte b'/' cidr in
      entry_of_prefix cidr (address_part cidr slash) (prefix_length cidr slash)

  -- The loop of the constructor over one list; the first bad text ends it.
  pub parse_cidrs : List Str → Outcome CidrError (List CidrEntry)
  parse_cidrs [] = returned []
  parse_cidrs (s ∷ rest) = elim (parse_cidr s) [
    | thrown e ↦ thrown e
    | returned entry ↦ elim (parse_cidrs rest) [
      | thrown e ↦ thrown e
      | returned entries ↦ returned (entry ∷ entries)
    ]
  ]

  -- `explicit IpFilter(const IpFilterConfig&)`: the blacklist first.
  pub make_filter : IpFilterConfig → Outcome CidrError IpFilter
  unfolding parse_cidrs
  make_filter cfg = elim (parse_cidrs cfg.blacklist) [
    | thrown e ↦ thrown e
    | returned black ↦ elim (parse_cidrs cfg.whitelist) [
      | thrown e ↦ thrown e
      | returned white ↦
          returned
            (record { whitelist = white; blacklist = black; default_allow = cfg.default_allow })
    ]
  ]

  -- `(ip & e.mask) == e.network`
  pub matches : ℕ → CidrEntry → Bool
  matches ip e = bit_and ip e.mask == e.network

  unfoldable pub is_allowed : IpFilter → Str → Bool
  unfolding parse_ip matches
  is_allowed f ip_str =
      if is_empty ip_str
      then f.default_allow
      else let ip = parse_ip ip_str in
        if ip == 0 && not (ip_str == lit "0.0.0.0")
        then f.default_allow
        else if any (matches ip) f.blacklist
        then false
        else if not (is_empty f.whitelist)
        then any (matches ip) f.whitelist
        else f.default_allow
