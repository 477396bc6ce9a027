-- ===== src/Value.antt =====
-- Go's `interface{}` as JSON decoding and the server's own code fill it, and the `==` of two such
-- values. A `float64` is its 64 bits, so that `==` is the comparison of IEEE 754.
use kubectl_mcp.Prelude.{
  ℕ, ◌%◌, ◌^◌, String, Bool, true, false, not, ◌&&◌, ◌||◌, Option, none, some, ltb, ◌==◌, str_eq,
}
use kubectl_mcp.Prelude.Int.{ℤ, pos, negsuc}

pub record Float64 : Type 0 where
  pub bits : ℕ

-- The sign is the top bit.
magnitude : Float64 → ℕ
magnitude f = f.bits % 2 ^ 63

-- an exponent of all ones and a fraction that is not 0
is_nan : Float64 → Bool
unfolding magnitude
is_nan f = ltb 0x7ff0000000000000 (magnitude f)

unfoldable pub float_eq : Float64 → Float64 → Bool
unfolding magnitude is_nan
float_eq f g =
    not (is_nan f) && not (is_nan g) && (f.bits == g.bits || (magnitude f == 0 && magnitude g == 0))

mutual
  pub data Value : Type 0 where
    nil : Value
    str : String → Value
    bool : Bool → Value
    int : ℤ → Value
    int32 : ℤ → Value
    int64 : ℤ → Value
    float64 : Float64 → Value
    -- `[]interface{}`
    arr : Items → Value
    -- `map[string]interface{}`
    obj : Fields → Value

  pub data Items : Type 0 where
    no_items : Items
    item : Value → Items → Items

  pub data Fields : Type 0 where
    no_fields : Fields
    field : String → Value → Fields → Fields

bool_eq : Bool → Bool → Bool
bool_eq true b = b
bool_eq false b = not b

int_eq : ℤ → ℤ → Bool
int_eq (pos a) (pos b) = a == b
int_eq (negsuc a) (negsuc b) = a == b
int_eq _ _ = false

-- `a == b`. Values of different types are unequal; two slices or two maps make the program panic,
-- which is `none`.
unfoldable pub iface_eq : Value → Value → Option Bool
unfolding bool_eq int_eq
iface_eq Value.nil Value.nil = some true
iface_eq (Value.str s) (Value.str t) = some (str_eq s t)
iface_eq (Value.bool a) (Value.bool b) = some (bool_eq a b)
iface_eq (Value.int a) (Value.int b) = some (int_eq a b)
iface_eq (Value.int32 a) (Value.int32 b) = some (int_eq a b)
iface_eq (Value.int64 a) (Value.int64 b) = some (int_eq a b)
iface_eq (Value.float64 a) (Value.float64 b) = some (float_eq a b)
iface_eq (Value.arr a) (Value.arr b) = none
iface_eq (Value.obj a) (Value.obj b) = none
iface_eq _ _ = some false
