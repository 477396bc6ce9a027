-- ===== src/Config/Verdict.antt =====
-- The configurations that `Validate` accepts, and the limiter that the server makes of one.
use kubectl_mcp.Prelude.{
  String, Bool, true, false, ◌&&◌, none, ◌≡◌, ◌≢◌, ◌⊎◌, ◌↔◌, refl, arith, str_eq, str_eq_iff,
}
use kubectl_mcp.Prelude.Int.{ℤ, pos, leb_ℤ, ltb_ℤ}
use kubectl_mcp.Config.{ServerConfig, is_log_level, is_log_format, second, validate}

-- what the messages of `Validate` ask for
pub record IsServable (missing : String → Bool) (c : ServerConfig) : Type 0 where
  pub port_low : leb_ℤ (pos 1) c.port ≡ true
  pub port_high : leb_ℤ c.port (pos 65535) ≡ true
  pub path_given : c.kubeconfig_path ≢ ""
  pub path_there : missing c.kubeconfig_path ≡ false
  pub level_known :
      (c.log_level ≡ "debug")
      ⊎ ((c.log_level ≡ "info") ⊎ ((c.log_level ≡ "warn") ⊎ (c.log_level ≡ "error")))
  pub format_known : (c.log_format ≡ "json") ⊎ (c.log_format ≡ "text")
  pub some_requests : leb_ℤ (pos 1) c.max_concurrent_requests ≡ true
  pub timeout_long : leb_ℤ second c.request_timeout ≡ true
  pub ttl_long : c.enable_cache ≡ true → leb_ℤ second c.cache_ttl ≡ true

pub accepted-IsServable :
    (missing : String → Bool) (c : ServerConfig) → validate missing c ≡ none → IsServable missing c
unfolding validate is_log_level is_log_format
accepted-IsServable missing c h = record {
  port_low = ground arith;
  port_high = ground arith;
  path_given = ground (arith, str_eq_iff c.kubeconfig_path "");
  path_there = ground arith;
  level_known = ground (
    arith,
    str_eq_iff c.log_level "debug",
    str_eq_iff c.log_level "info",
    str_eq_iff c.log_level "warn",
    str_eq_iff c.log_level "error",
  );
  format_known = ground (arith, str_eq_iff c.log_format "json", str_eq_iff c.log_format "text");
  some_requests = ground arith;
  timeout_long = ground arith;
  ttl_long = λ on. ground arith;
}

level-known :
    (level : String)
    → (level ≡ "debug") ⊎ ((level ≡ "info") ⊎ ((level ≡ "warn") ⊎ (level ≡ "error")))
    → is_log_level level ≡ true
unfolding is_log_level
level-known level h = ground (
  arith,
  str_eq_iff level "debug",
  str_eq_iff level "info",
  str_eq_iff level "warn",
  str_eq_iff level "error",
)

format-known :
    (format : String) → (format ≡ "json") ⊎ (format ≡ "text") → is_log_format format ≡ true
unfolding is_log_format
format-known format h = ground (arith, str_eq_iff format "json", str_eq_iff format "text")

not_below : (a b : ℤ) → leb_ℤ a b ≡ true → ltb_ℤ b a ≡ false
not_below a b h = ground arith

path-given : (path : String) → path ≢ "" → str_eq path "" ≡ false
path-given path h = ground (arith, str_eq_iff path "")

ttl-long :
    (on : Bool) (ttl : ℤ) → (on ≡ true → leb_ℤ second ttl ≡ true) → (on && ltb_ℤ ttl second) ≡ false
ttl-long true ttl h = not_below second ttl (h refl)
ttl-long false ttl h = refl

IsServable-accepted :
    (missing : String → Bool) (c : ServerConfig) → IsServable missing c → validate missing c ≡ none
unfolding validate
IsServable-accepted missing c s =
    rw
      (
        not_below (pos 1) c.port s.port_low,
        not_below c.port (pos 65535) s.port_high,
        path-given c.kubeconfig_path s.path_given,
        s.path_there,
        level-known c.log_level s.level_known,
        format-known c.log_format s.format_known,
        not_below (pos 1) c.max_concurrent_requests s.some_requests,
        not_below second c.request_timeout s.timeout_long,
        ttl-long c.enable_cache c.cache_ttl s.ttl_long,
      )
      refl

-- `Validate` accepts a configuration exactly when its port is in 1 to 65535, its kubeconfig has a path
-- that `os.Stat` does not report as one that does not exist, its log level and its log format are in
-- the lists, it allows a request, its timeout is a second at least, and so is the time in the cache
-- where the cache is on.
pub validate_iff :
    (missing : String → Bool) (c : ServerConfig)
    → (validate missing c ≡ none) ↔ IsServable missing c
validate_iff missing c = (accepted-IsServable missing c, IsServable-accepted missing c)
