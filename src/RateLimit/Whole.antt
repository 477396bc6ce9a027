-- ===== src/RateLimit/Whole.antt =====
-- An arithmetic of whole numbers for the tests, which has what the token bucket relies on.
use kubectl_mcp.Prelude.{◌+◌, ◌-◌, ◌*◌, ◌/◌, arith, ltb, leb}
use kubectl_mcp.Prelude.Int.{pos_part}
use kubectl_mcp.RateLimit.TokenBucket.{Floats}
use kubectl_mcp.RateLimit.TokenBucket.Burst.{IsIeee}

abbrev pub whole : Floats
whole = record {
  add = λ x y. record { bits = x.bits + y.bits };
  sub = λ x y. record { bits = x.bits - y.bits };
  mul = λ x y. record { bits = x.bits * y.bits };
  lt = λ x y. ltb x.bits y.bits;
  le = λ x y. leb x.bits y.bits;
  of_int = λ n. record { bits = pos_part n };
  seconds = λ d. record { bits = pos_part d / 1_000_000_000 };
}

pub whole-IsIeee : IsIeee whole
whole-IsIeee = record {
  not_below_itself = λ x. ground arith;
  not_above = λ b c x over h. ground arith;
  below_one = λ x h. ground arith;
  less_one = λ n x small h. ground arith;
  no_time = λ b x rate h. ground arith;
}
