-- ===== src/Tools/Schemas.antt =====
-- The schemas that the tools declare: their defaults, their required parameters and their
-- enumerations.
use kubectl_mcp.Prelude.{
  String, Bool, true, false, not, ◌&&◌, ◌||◌, Option, none, some, List, [], ◌∷◌, every, All, ◌≡◌,
  refl, arith, inl, inr, Bool-cases, str_eq, str_eq_iff, string_eq,
}
use kubectl_mcp.GoMap.{GoMap, lookup}
use kubectl_mcp.Value.{Value, iface_eq}
use kubectl_mcp.Registry.{
  ParameterSchema, InputSchema, Check, pass, fail, panic, Tool, ToolHandler, get_tool,
  validate_param_type,
}
use kubectl_mcp.Registry.Validation.{Accepts, validate_param_type_iff}
use kubectl_mcp.Registry.Validation.Arguments.{names_one}
use kubectl_mcp.Registry.Totality.{IsText, HasTextEnums}
use kubectl_mcp.Tools.{all_tools, init_tool_registry}
use kubectl_mcp.Tools.Table.{lookup-every, registered-every}

-- Every default is a value that its property accepts, every required name has a property, and the
-- list of the required names and the marks of the properties agree.
pub record IsCoherent (schema : InputSchema) : Type 0 where
  pub defaults :
      (name : String) (s : ParameterSchema) (v : Value)
      → lookup name schema.properties ≡ some s
      → s.default_value ≡ some v
      → Accepts s v
  pub described :
      (name : String)
      → names_one name schema.required ≡ true
      → (s : ParameterSchema) × (lookup name schema.properties ≡ some s) × (s.required ≡ true)
  pub listed :
      (name : String) (s : ParameterSchema)
      → lookup name schema.properties ≡ some s
      → s.required ≡ true
      → names_one name schema.required ≡ true

passes : Check → Bool
passes pass = true
passes (fail e) = false
passes panic = false

default_fits : String → ParameterSchema → Option Value → Bool
unfolding passes
default_fits name s none = true
default_fits name s (some v) = passes (validate_param_type name v s)

is_required : Option ParameterSchema → Bool
is_required none = false
is_required (some s) = s.required

coherent : InputSchema → Bool
unfolding default_fits is_required names_one
coherent schema =
    every (λ entry. default_fits entry.0 entry.1 entry.1.default_value) schema.properties
    && (every (λ name. is_required (lookup name schema.properties)) schema.required
        && every (λ entry. not entry.1.required || names_one entry.0 schema.required)
            schema.properties)

coherent_if_any : Option InputSchema → Bool
unfolding coherent
coherent_if_any none = true
coherent_if_any (some schema) = coherent schema

passes-pass : (c : Check) → passes c ≡ true → c ≡ pass
unfolding passes
passes-pass pass h = refl
passes-pass (fail e) h = ground arith
passes-pass panic h = ground arith

default_fits-Accepts :
    (name : String) (s : ParameterSchema) (o : Option Value) (v : Value)
    → default_fits name s o ≡ true
    → o ≡ some v
    → Accepts s v
unfolding default_fits
default_fits-Accepts name s none v h e = ground arith
default_fits-Accepts name s (some w) v h e =
    let q : w ≡ v = ground arith in
    (validate_param_type_iff name v s).0 (passes-pass _ (rw (← q) h))

names_one-every :
    (test : String → Bool) (names : List String) (name : String)
    → every test names ≡ true
    → names_one name names ≡ true
    → test name ≡ true
unfolding names_one
names_one-every test [] name h e = ground arith
names_one-every test (x ∷ xs) name h e = elim (Bool-cases (str_eq x name)) [
  | inl here ↦ rw (← (str_eq_iff x name).0 here) (ground arith)
  | inr past ↦ names_one-every test xs name (ground arith) (ground arith)
]

is_required-some :
    (o : Option ParameterSchema)
    → is_required o ≡ true
    → (s : ParameterSchema) × (o ≡ some s) × (s.required ≡ true)
unfolding is_required
is_required-some none h = ground arith
is_required-some (some s) h = (s, refl, h)

coherent-IsCoherent : (schema : InputSchema) → coherent schema ≡ true → IsCoherent schema
unfolding coherent
coherent-IsCoherent schema h =
    let h0 : every
          (λ (entry : String × ParameterSchema). default_fits entry.0 entry.1 entry.1.default_value)
          schema.properties
        ≡ true =
      ground arith in
    let h1 : every (λ (name : String). is_required (lookup name schema.properties)) schema.required
        ≡ true =
      ground arith in
    let h2 : every
          (λ (entry : String × ParameterSchema).
            not entry.1.required || names_one entry.0 schema.required)
          schema.properties
        ≡ true =
      ground arith in
    record {
      defaults = λ name s v found e.
          default_fits-Accepts name s s.default_value v
            (lookup-every _ schema.properties name s h0 found) e;
      described = λ name e. is_required-some _ (names_one-every _ schema.required name h1 e);
      listed = λ name s found e.
          let q : (not s.required || names_one name schema.required) ≡ true =
            lookup-every _ schema.properties name s h2 found in
          ground arith;
    }

text_values : List Value → Bool
text_values [] = true
text_values (Value.str s ∷ values) = text_values values
text_values (_ ∷ values) = false

text_enums : Option InputSchema → Bool
unfolding text_values
text_enums none = true
text_enums (some schema) = every (λ entry. text_values entry.1.enum) schema.properties

text_values-IsText : (values : List Value) → text_values values ≡ true → All IsText values
unfolding text_values IsText
text_values-IsText [] h = tt
text_values-IsText (Value.str s ∷ values) h = ((s, refl), text_values-IsText values h)
text_values-IsText (_ ∷ values) h = ground arith

properties-IsText :
    (properties : GoMap String ParameterSchema)
    → every (λ entry. text_values entry.1.enum) properties ≡ true
    → All (λ entry. All IsText entry.1.enum) properties
properties-IsText [] h = tt
properties-IsText ((name, s) ∷ properties) h =
    (text_values-IsText s.enum (ground arith), properties-IsText properties (ground arith))

text_enums-HasTextEnums :
    (schema : Option InputSchema) → text_enums schema ≡ true → HasTextEnums schema
unfolding text_enums HasTextEnums
text_enums-HasTextEnums none h = tt
text_enums-HasTextEnums (some schema) h = properties-IsText schema.properties h

module _ {W R E : Type 0} (handlers : String → ToolHandler W R E) where
  all_coherent : every (λ tool. coherent_if_any tool.input_schema) (all_tools handlers) ≡ true
  unfolding coherent_if_any validate_param_type iface_eq lookup names_one
  all_coherent = refl

  all_text_enums : every (λ tool. text_enums tool.input_schema) (all_tools handlers) ≡ true
  unfolding text_enums
  all_text_enums = refl

  pub registered-HasTextEnums :
      (name : String) (tool : Tool W R E)
      → get_tool name (init_tool_registry handlers).0 ≡ some tool
      → HasTextEnums tool.input_schema
  registered-HasTextEnums name tool found =
      text_enums-HasTextEnums tool.input_schema
        (registered-every handlers (λ t. text_enums t.input_schema) name tool all_text_enums found)

  coherent_if_any-IsCoherent :
      (o : Option InputSchema) (schema : InputSchema)
      → coherent_if_any o ≡ true
      → o ≡ some schema
      → IsCoherent schema
  unfolding coherent_if_any
  coherent_if_any-IsCoherent none schema h e = ground arith
  coherent_if_any-IsCoherent (some s) schema h e =
      let q : s ≡ schema = ground arith in coherent-IsCoherent schema (rw (← q) h)

  -- The schema of every tool that the server registers is coherent.
  pub registered-IsCoherent :
      (name : String) (tool : Tool W R E) (schema : InputSchema)
      → get_tool name (init_tool_registry handlers).0 ≡ some tool
      → tool.input_schema ≡ some schema
      → IsCoherent schema
  registered-IsCoherent name tool schema found e =
      coherent_if_any-IsCoherent tool.input_schema schema
        (registered-every handlers (λ t. coherent_if_any t.input_schema) name tool all_coherent
          found)
        e
