-- ===== src/Builder/Tests.antt =====
-- Settings of the builder at concrete values.
use mcp_server.Base.{◌≡◌, refl}
use mcp_server.Builder.{default_config, with_rate_limit, with_size_limits}

-- The automatic burst is twice the rate, and 0 at a rate of 2^31.
automatic_bursts :
    ((with_rate_limit 50 0 default_config).security.rate_limit.burst_size ≡ 100)
    × ((with_rate_limit 2147483648 0 default_config).security.rate_limit.burst_size ≡ 0)
    × ((with_size_limits 1 20 default_config).security.size_limits
        ≡ default_config.security.size_limits)
unfolding with_rate_limit with_size_limits
automatic_bursts = (refl, refl, refl)
