-- ===== src/Transport/Tests.antt =====
-- Headers and refusals at concrete values.
use mcp_server.Base.{◌≡◌, refl, [], lit, str_beq, find_byte}
use mcp_server.Transport.{Headers, get_client_ip, get_api_key}

abbrev proxied : Headers
proxied = record {
  x_real_ip = [];
  x_forwarded_for = lit " 10.0.0.7 , 10.0.0.1";
  x_api_key = [];
  authorization = lit "Bearer secret";
}

proxied_client : (get_client_ip proxied ≡ lit "10.0.0.7") × (get_api_key proxied ≡ lit "secret")
unfolding get_client_ip get_api_key lit find_byte str_beq
proxied_client = (refl, refl)
