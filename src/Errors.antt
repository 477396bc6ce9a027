-- ===== src/Errors.antt =====
-- pkg/utils/errors.go. An error is what the code can see of it: its message, and what `errors.As`
-- and a type assertion find in its chain. `lower` is `strings.ToLower`. A nil error is `none`.
-- The source changes an `ErrorInfo` of the chain in place where it adds details; the model gives a
-- new one.
pub mod Tables
pub mod Classify
pub mod Format
pub mod Constructors
pub mod Made
mod Tests
use kubectl_mcp.Prelude.{String, Bool, Option}
use kubectl_mcp.Prelude.Int.{ℤ}

pub record ErrorInfo : Type 0 where
  pub kind : String
  pub code : String
  pub message : String
  pub details : String
  pub suggestion : String

-- the status of a `*k8serrors.StatusError`
pub record Status : Type 0 where
  pub reason : String
  pub code : ℤ

-- a `*net.OpError`: its operation, and whether a `syscall.Errno` in it is ECONNREFUSED
pub record OpError : Type 0 where
  pub op : String
  pub refused : Bool

pub record GoError : Type 0 where
  pub message : String
  -- the first `*ErrorInfo` of the chain
  pub info : Option ErrorInfo
  -- the error itself is a `*StatusError`; the source does not look into the chain for it
  pub status : Option Status
  pub op_error : Option OpError
  pub dns_error : Bool
  -- the first `net.Error` of the chain, by its `Timeout()`
  pub net_error : Option Bool

unfoldable pub new_error_info : String → String → String → ErrorInfo
new_error_info kind code message = record {
  kind = kind;
  code = code;
  message = message;
  details = "";
  suggestion = "";
}

-- the type and the code of a class
abbrev pub Class : Type 0
Class = String × String
