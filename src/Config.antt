-- ===== src/Config.antt =====
-- internal/config/config.go: `ServerConfig` and `Validate`. `missing path` says that
-- `os.IsNotExist` holds of the error of `os.Stat`; any other error of it passes. Durations are in nanoseconds.
pub mod Verdict
use kubectl_mcp.Prelude.{String, Bool, ◌&&◌, ◌||◌, not, Option, none, some, str_eq, if◌then◌else◌}
use kubectl_mcp.Prelude.Int.{ℤ, pos, ltb_ℤ}

-- the fields that `Validate` reads
pub record ServerConfig : Type 0 where
  pub port : ℤ
  pub kubeconfig_path : String
  pub log_level : String
  pub log_format : String
  pub max_concurrent_requests : ℤ
  pub request_timeout : ℤ
  pub enable_cache : Bool
  pub cache_ttl : ℤ

-- the errors, by what each says
pub data ConfigError : Type 0 where
  bad_port : ℤ → ConfigError
  no_kubeconfig_path : ConfigError
  kubeconfig_missing : String → ConfigError
  bad_log_level : String → ConfigError
  bad_log_format : String → ConfigError
  too_few_requests : ℤ → ConfigError
  short_timeout : ℤ → ConfigError
  short_cache_ttl : ℤ → ConfigError

unfoldable pub is_log_level : String → Bool
is_log_level level =
    str_eq level "debug" || (str_eq level "info" || (str_eq level "warn" || str_eq level "error"))

unfoldable pub is_log_format : String → Bool
is_log_format format = str_eq format "json" || str_eq format "text"

-- time.Second
abbrev pub second : ℤ
second = pos 1000000000

unfoldable pub validate : (String → Bool) → ServerConfig → Option ConfigError
validate missing c =
    if ltb_ℤ c.port (pos 1) || ltb_ℤ (pos 65535) c.port
    then some (bad_port c.port)
    else if str_eq c.kubeconfig_path ""
    then some no_kubeconfig_path
    else if missing c.kubeconfig_path
    then some (kubeconfig_missing c.kubeconfig_path)
    else if not (is_log_level c.log_level)
    then some (bad_log_level c.log_level)
    else if not (is_log_format c.log_format)
    then some (bad_log_format c.log_format)
    else if ltb_ℤ c.max_concurrent_requests (pos 1)
    then some (too_few_requests c.max_concurrent_requests)
    else if ltb_ℤ c.request_timeout second
    then some (short_timeout c.request_timeout)
    else if c.enable_cache && ltb_ℤ c.cache_ttl second
    then some (short_cache_ttl c.cache_ttl)
    else none
