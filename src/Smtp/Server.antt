-- ===== src/Smtp/Server.antt =====
-- internal/smtpedge/server.go: the settings of the SMTP server. A count and a duration (in nanoseconds)
-- is an integer; the server of go-smtp is what the settings are given to.
use agent_layer.Prelude.{String, ◌==◌, if◌then◌else◌}
use agent_layer.Prelude.Int.{ℤ, pos, eqb_ℤ}

-- Config, and the fields of the server that NewServer sets.
pub record Config : Type 0 where
  pub addr : String
  pub domain : String
  pub max_recipients : ℤ
  pub max_message_bytes : ℤ
  pub read_timeout : ℤ
  pub write_timeout : ℤ

unfoldable pub default_string : String → String → String
default_string value fallback = if value == "" then fallback else value

-- defaultInt, defaultInt64 and defaultDuration
unfoldable pub default_int : ℤ → ℤ → ℤ
default_int value fallback = if eqb_ℤ value (pos 0) then fallback else value

unfoldable pub new_server : Config → Config
unfolding default_string default_int
new_server cfg = record {
  addr = default_string cfg.addr "localhost:2525";
  domain = default_string cfg.domain "localhost";
  max_recipients = default_int cfg.max_recipients (pos 1);
  max_message_bytes = default_int cfg.max_message_bytes (pos 26_214_400);
  read_timeout = default_int cfg.read_timeout (pos 10_000_000_000);
  write_timeout = default_int cfg.write_timeout (pos 10_000_000_000);
}
