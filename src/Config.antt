-- ===== src/Config.antt =====
-- include/calc/config.hpp: the limits and the configuration with their default values.
use network_arc_rajasurya.Prelude.{ℕ, ◌+◌, ◌*◌, u64, Bytes, codes}

pub record Limits : Type 0 where
  pub max_header_bytes : ℕ
  pub max_header_count : ℕ
  pub max_body_bytes : ℕ

abbrev pub default_limits : Limits
default_limits = record {
  max_header_bytes = 8 * 1024;
  max_header_count = 100;
  max_body_bytes = 64 * 1024;
}

unfoldable pub max_request_bytes : Limits → ℕ
max_request_bytes l = u64 (l.max_header_bytes + l.max_body_bytes)

pub data LogLevel : Type 0 where
  notice info debug : LogLevel

-- Clock times and durations are numbers of nanoseconds, as those of `std::chrono::steady_clock`.
abbrev pub milliseconds : ℕ → ℕ
milliseconds n = n * 1000000

pub record ServerConfig : Type 0 where
  pub host : Bytes
  pub port : ℕ
  pub idle_timeout : ℕ
  pub linger_timeout : ℕ
  pub max_linger_bytes : ℕ
  pub max_connections : ℕ
  pub output_high_water : ℕ
  pub limits : Limits
  pub log_level : LogLevel

abbrev pub default_config : ServerConfig
default_config = record {
  host = codes "127.0.0.1";
  port = 8080;
  idle_timeout = milliseconds 30000;
  linger_timeout = milliseconds 2000;
  max_linger_bytes = 256 * 1024;
  max_connections = 64;
  output_high_water = 64 * 1024;
  limits = default_limits;
  log_level = info;
}
