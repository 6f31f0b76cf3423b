-- ===== src/Http/Settings.antt =====
-- The configuration of the server: Config and applyConfig of internal/transport/http/server.go. The
-- logger is left out; of the registry of the metrics only its presence is kept.
use pet_urls.Prelude.{Bytes, codes, Bool, not, ◌++◌, if◌then◌else◌}
use pet_urls.Prelude.Int.{ℤ, pos, eq_ℤ}

pub record ServerConfig : Type 0 where
  pub debug : Bool
  pub port : ℤ
  pub host : Bytes
  pub registry : Bool

-- The fields of http.Server that are set; a duration of 0 means no timeout.
pub record ServerSettings : Type 0 where
  pub debug : Bool
  pub read_header_timeout : ℤ
  pub read_timeout : ℤ
  pub write_timeout : ℤ
  pub idle_timeout : ℤ
  pub addr : Bytes
  pub metrics : Bool

abbrev pub unless_debug : Bool → ℤ → ℤ
unless_debug debug timeout = if not debug then timeout else pos 0

abbrev pub port_or_default : ℤ → ℤ
port_or_default port = if eq_ℤ port (pos 0) then pos 80 else port

-- `decimal` is the verb %d of fmt.
unfoldable pub apply_config : (ℤ → Bytes) → ServerConfig → ServerSettings
apply_config decimal c = record {
  debug = c.debug;
  read_header_timeout = unless_debug c.debug (pos 2000000000);
  read_timeout = unless_debug c.debug (pos 5000000000);
  write_timeout = unless_debug c.debug (pos 10000000000);
  idle_timeout = unless_debug c.debug (pos 60000000000);
  addr = c.host ++ codes ":" ++ decimal (port_or_default c.port);
  metrics = c.registry;
}
