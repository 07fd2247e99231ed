-- ===== src/Security/Filter/Tests.antt =====
-- IpFilter on the host of Host, and the theorems there.
use mcp_server.Base.{
  ℕ, ◌≡◌, refl, ◌≢◌, false, none, [], ◌∷◌, arith, Str, str_eq, str_beq, lit, returned, thrown,
  find_byte, stoi,
}
use mcp_server.Security.Filter.Host.{quad, known, host}
use mcp_server.Security.Filter.{
  invalid_prefix, IpFilter, make_filter, parse_cidr, is_allowed, entry,
}
use mcp_server.Security.Filter.Blocks.{Reads}
use mcp_server.Security.Filter.Rules.{Rule, IsRule, decides, make_filter-decides, config}

abbrev inner : Rule
inner = record { text = lit "10.1.0.0"; address = quad 10 1 0 0; prefix = 16 }

abbrev outer : Rule
outer = record { text = lit "10.0.0.0"; address = quad 10 0 0 0; prefix = 8 }

inner-IsRule : IsRule host inner
unfolding lit str_beq
inner-IsRule = record {
  plain = omega arith;
  reads = (refl, omega arith, omega arith);
  short = omega arith;
}

outer-IsRule : IsRule host outer
unfolding lit str_beq
outer-IsRule = record {
  plain = omega arith;
  reads = (refl, omega arith, omega arith);
  short = omega arith;
}

parses :
    (parse_cidr host (lit "10.0.0.0/8")
      ≡ returned (record { network = quad 10 0 0 0; mask = quad 255 0 0 0 }))
    × (parse_cidr host (lit "10.0.0.0/33") ≡ thrown (invalid_prefix (lit "10.0.0.0/33")))
    × (parse_cidr host (lit "0.0.0.0/0") ≡ returned (record { network = 0; mask = 0 }))
unfolding parse_cidr entry lit str_beq find_byte stoi
parses = (refl, refl, refl)

make_filter-decides_example :
    (f : IpFilter) × (make_filter host (config host (inner ∷ []) (outer ∷ []) false) ≡ returned f)
    × ((s : Str) (x : ℕ)
        → s ≢ []
        → Reads host s x
        → is_allowed host f s ≡ decides (inner ∷ []) (outer ∷ []) false x)
    × ((s : Str) → known s ≡ none → s ≢ lit "0.0.0.0" → is_allowed host f s ≡ false)
    × (is_allowed host f [] ≡ false)
make_filter-decides_example =
    make_filter-decides host (inner ∷ []) (outer ∷ []) false (inner-IsRule, tt) (outer-IsRule, tt)

blacklisted : decides (inner ∷ []) (outer ∷ []) false (quad 10 1 2 3) ≡ false
unfolding decides
blacklisted = refl
