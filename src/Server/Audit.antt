-- ===== src/Server/Audit.antt =====
-- McpShard::_audit: the security log. The logger's line is kept as its event, address and component.
use mcp_server.Base.{Bool, List, [], ◌∷◌, ◌++◌, if◌then◌else◌, Str, lit, is_empty}

pub record AuditLine : Type 0 where
  pub shard : Str
  pub event : Str
  pub ip : Str
  pub component : Str

-- Every caller gives a component; the log is in the order of writing.
unfoldable pub audit : Bool → Str → Str → Str → Str → List AuditLine → List AuditLine
audit enable_audit_log shard event ip component log =
    if enable_audit_log
    then log
      ++ record {
        shard = shard;
        event = event;
        ip = if is_empty ip then lit "unknown" else ip;
        component = component;
      }
        ∷ []
    else log
