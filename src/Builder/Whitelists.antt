-- ===== src/Builder/Whitelists.antt =====
-- The address filter that the builder's lists make.
use mcp_server.Base.{
  ℕ, ◌≡◌, refl, ◌∙◌, ◌≢◌, false, ◌&&◌, not, List, [], ◌∷◌, map, arith, any, Str, All, returned,
}
use mcp_server.Security.Filter.{IpFilter, make_filter, is_allowed}
use mcp_server.Security.Filter.Platform.{Sockets}
use mcp_server.Security.Filter.Blocks.{Reads}
use mcp_server.Security.Filter.Rules.{Rule, IsRule, cidr_text, holds, decides, make_filter-decides}
use mcp_server.Builder.{McpServerConfig, with_ip_whitelist, with_ip_blacklist}

whitelist_decides :
    (black white : List Rule) (x : ℕ)
    → decides black white false x ≡ (not (any (holds x) black) && any (holds x) white)
unfolding decides
whitelist_decides black [] x = ground arith
whitelist_decides black (r ∷ white) x = ground arith

module _ (os : Sockets) where
  -- With a whitelist and a blacklist of well-formed blocks set, in whichever order, the filter
  -- compiles and allows an address exactly when a white block holds it and no black one does. An
  -- empty whitelist allows none.
  pub with_ip_whitelist-decides :
      (black white : List Rule) (c : McpServerConfig)
      → All (IsRule os) black
      → All (IsRule os) white
      → (with_ip_whitelist (map cidr_text white) (with_ip_blacklist (map cidr_text black) c)
          ≡ with_ip_blacklist (map cidr_text black) (with_ip_whitelist (map cidr_text white) c))
        × ((f : IpFilter) × (make_filter os
                (with_ip_whitelist
                  (map cidr_text white)
                  (with_ip_blacklist (map cidr_text black) c)).security.ip_filter
              ≡ returned f)
            × ((s : Str) (x : ℕ)
                → s ≢ []
                → Reads os s x
                → is_allowed os f s ≡ (not (any (holds x) black) && any (holds x) white)))
  unfolding with_ip_whitelist with_ip_blacklist
  with_ip_whitelist-decides black white c hb hw =
      let (f, made, known, _, _) = make_filter-decides os black white false hb hw in
      (refl, (f, made, λ s x ne r. known s x ne r ∙ whitelist_decides black white x))
