-- ===== src/Registry/Validation/Arguments.antt =====
-- What accepted arguments hold: a text under each name that the schema requires one under.
use kubectl_mcp.Prelude.{
  String, str_eq, str_eq_iff, string_eq, true, false, Bool, Bool-cases, Option, none, some, List,
  [], ◌∷◌, ◌||◌, ◌≡◌, inl, inr, refl, arith, All,
}
use kubectl_mcp.GoMap.{lookup, has}
use kubectl_mcp.Value.{Value}
use kubectl_mcp.Registry.{ParameterSchema, InputSchema, Args}
use kubectl_mcp.Registry.Validation.{IsAccepted, Accepts, AcceptsIfAny, FitsKind, kind_of}

unfoldable pub names_one : String → List String → Bool
names_one name [] = false
names_one name (x ∷ xs) = str_eq x name || names_one name xs

-- a property that must be a text
pub record IsRequiredText (name : String) (schema : InputSchema) (s : ParameterSchema)
    : Type 0 where
  pub listed : names_one name schema.required ≡ true
  pub described : lookup name schema.properties ≡ some s
  pub is_text : s.kind ≡ "string"
  pub not_nil : s.required ≡ true

Accepts-text :
    (s : ParameterSchema) (v : Value)
    → s.kind ≡ "string"
    → s.required ≡ true
    → Accepts s v
    → (t : String) × (v ≡ Value.str t)
unfolding Accepts FitsKind kind_of
Accepts-text s Value.nil k r a = ground arith
Accepts-text s (Value.str t) k r a = (t, refl)
Accepts-text s (Value.bool x) k r a = ground (arith, str_eq_iff "string" "boolean")
Accepts-text s (Value.int x) k r a = ground (arith, str_eq_iff "string" "integer")
Accepts-text s (Value.int32 x) k r a = ground (arith, str_eq_iff "string" "integer")
Accepts-text s (Value.int64 x) k r a = ground (arith, str_eq_iff "string" "integer")
Accepts-text s (Value.float64 x) k r a = ground (arith, str_eq_iff "string" "integer")
Accepts-text s (Value.arr x) k r a = ground (arith, str_eq_iff "string" "array")
Accepts-text s (Value.obj x) k r a = ground (arith, str_eq_iff "string" "object")

required-has :
    (name : String) (names : List String) (args : Args)
    → All (λ n. has n args ≡ true) names
    → names_one name names ≡ true
    → has name args ≡ true
unfolding names_one
required-has name [] args h e = ground arith
required-has name (x ∷ xs) args (h, hs) e =
    ground (arith, str_eq_iff x name, required-has name xs args hs)

AcceptsIfAny-some :
    (o : Option ParameterSchema) (s : ParameterSchema) (v : Value)
    → o ≡ some s
    → AcceptsIfAny o v
    → Accepts s v
unfolding AcceptsIfAny
AcceptsIfAny-some none s v e a = ground arith
AcceptsIfAny-some (some s') s v e a = let q : s' ≡ s = ground arith in rw (← q) a

accepted-text :
    (name : String) (schema : InputSchema) (s : ParameterSchema) (args : Args)
    → IsRequiredText name schema s
    → All (λ entry. AcceptsIfAny (lookup entry.0 schema.properties) entry.1) args
    → has name args ≡ true
    → (t : String) × (lookup name args ≡ some (Value.str t))
unfolding AcceptsIfAny has lookup
accepted-text name schema s [] r hs e = ground arith
accepted-text name schema s ((n, v) ∷ args) r (h, hs) e = elim (Bool-cases (str_eq n name)) [
  | inl here ↦
      let (t, q) = Accepts-text s v r.is_text r.not_nil (
        AcceptsIfAny-some (lookup n schema.properties) s v
          (rw ((str_eq_iff n name).0 here) r.described) h) in
      (t, rw (here, q) refl)
  | inr past ↦ let (t, q) = accepted-text name schema s args r hs (ground arith) in (t, rw past q)
]

pub IsAccepted-text :
    (name : String) (schema : InputSchema) (s : ParameterSchema) (args : Args)
    → IsRequiredText name schema s
    → IsAccepted (some schema) args
    → (t : String) × (lookup name args ≡ some (Value.str t))
unfolding IsAccepted
IsAccepted-text name schema s args r (h, hs) =
    accepted-text name schema s args r hs (required-has name schema.required args h r.listed)
