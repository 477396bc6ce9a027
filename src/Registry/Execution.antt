-- ===== src/Registry/Execution.antt =====
-- What a call of `ExecuteTool` does to the cluster and what it answers, in a registry that is well
-- formed.
use kubectl_mcp.Prelude.{
  sym, ◌∙◌, String, true, Option, none, some, Option-cases, is_some, ◌≡◌, ◌≢◌, ◌⊎◌, inl, inr, refl,
  arith, string_eq,
}
use kubectl_mcp.GoMap.{lookup}
use kubectl_mcp.Registry.{
  Tool, ToolRegistry, ToolHandler, Outcome, Args, Check, pass, fail, panic, execute_tool,
  execute_found, execute_valid, run_handler, answer, get_tool, validate_args, not_exists, returned,
  failed,
}
use kubectl_mcp.Registry.Tools.{IsWellFormed}
use kubectl_mcp.Registry.Validation.{IsAccepted, validate_args_iff}

pass-or-not : (c : Check) → (c ≡ pass) ⊎ (c ≢ pass)
pass-or-not pass = inl refl
pass-or-not (fail e) = inr (λ h. ground arith)
pass-or-not panic = inr (λ h. ground arith)

handled : {A : Type 0} {o : Option A} → is_some o ≡ true → o ≢ none
handled h e = ground arith

module _ {R E : Type 0} where
  answer-returned : (x : R ⊎ E) (q : R) → answer x ≡ returned q → x ≡ inl q
  unfolding answer
  answer-returned (inl r) q h = ground arith
  answer-returned (inr m) q h = ground arith

module _ {W R E : Type 0} where
  -- no tool of the name: an error, and the cluster is untouched
  unfoldable pub Unknown : ToolRegistry W R E → String → W → W × Outcome R E → Type 0
  Unknown r name w (w', out) =
      (get_tool name r ≡ none) × (w' ≡ w) × (out ≡ failed (not_exists name))

  -- arguments that the schema does not accept: nothing is returned, and the cluster is untouched
  unfoldable pub Refused : ToolRegistry W R E → String → Args → W → W × Outcome R E → Type 0
  Refused r name args w (w', out) =
      (tool : Tool W R E) × (get_tool name r ≡ some tool)
      × ¬ (IsAccepted tool.input_schema args)
      × (w' ≡ w)
      × ((x : R) → out ≢ returned x)

  -- the tool's handler runs, once, on the arguments as they are given
  unfoldable pub Ran : ToolRegistry W R E → String → Args → W → W × Outcome R E → Type 0
  Ran r name args w (w', out) =
      (tool : Tool W R E) × (handler : ToolHandler W R E) × (get_tool name r ≡ some tool)
      × (tool.handler ≡ some handler)
      × IsAccepted tool.input_schema args
      × (w' ≡ (handler args w).0)
      × (out ≡ answer (handler args w).1)

  execute_valid-refused :
      (tool : Tool W R E) (c : Check) (args : Args) (w : W)
      → c ≢ pass
      → ((execute_valid tool c args w).0 ≡ w)
        × ((x : R) → (execute_valid tool c args w).1 ≢ returned x)
  unfolding execute_valid
  execute_valid-refused tool pass args w h = absurd (h refl)
  execute_valid-refused tool (fail e) args w h = (refl, λ x. ground arith)
  execute_valid-refused tool panic args w h = (refl, λ x. ground arith)

  registered :
      (r : ToolRegistry W R E) (name : String) (tool : Tool W R E)
      → get_tool name r ≡ some tool
      → lookup name r ≡ some tool
  unfolding get_tool
  registered r name tool e = e

  execute_found_lem :
      (r : ToolRegistry W R E) (name : String) (tool : Tool W R E) (args : Args) (w : W)
      → get_tool name r ≡ some tool
      → is_some tool.handler ≡ true
      → Refused r name args w (execute_found name (some tool) args w)
        ⊎ Ran r name args w (execute_found name (some tool) args w)
  unfolding execute_found Refused Ran execute_valid run_handler
  execute_found_lem r name tool args w found runnable =
      elim (pass-or-not (validate_args tool args)) [
        | inl ok ↦ elim (Option-cases tool.handler) [
          | inl e ↦ absurd (handled runnable e)
          | inr (handler, e) ↦ inr (
            tool,
            handler,
            found,
            e,
            (validate_args_iff tool args).0 ok,
            rw (ok, e) refl,
            rw (ok, e) refl,
          )
        ]
        | inr bad ↦ inl (
          tool,
          found,
          (λ a. bad ((validate_args_iff tool args).1 a)),
          (execute_valid-refused tool (validate_args tool args) args w bad).0,
          (execute_valid-refused tool (validate_args tool args) args w bad).1,
        )
      ]

  execute_found-none :
      (r : ToolRegistry W R E) (name : String) (args : Args) (w : W)
      → get_tool name r ≡ none
      → Unknown r name w (execute_found name none args w)
  unfolding execute_found Unknown
  execute_found-none r name args w e = (e, refl, refl)

  -- In a well-formed registry a call answers in one of three ways: no tool has the name, and the
  -- cluster is untouched; the tool does not accept the arguments, and the cluster is untouched and
  -- nothing is returned; or it accepts them, and its handler runs on the cluster and its result or
  -- error is the answer.
  pub execute_tool_lem :
      (r : ToolRegistry W R E) (name : String) (args : Args) (w : W)
      → IsWellFormed r
      → Unknown r name w (execute_tool r name args w)
        ⊎ Refused r name args w (execute_tool r name args w)
        ⊎ Ran r name args w (execute_tool r name args w)
  unfolding execute_tool
  execute_tool_lem r name args w v = elim (Option-cases (get_tool name r)) [
    | inl e ↦ inl (rw e (execute_found-none r name args w e))
    | inr (tool, e) ↦ inr (
        rw e (
          execute_found_lem r name tool args w e
            (v.runnable name tool (registered r name tool e)).1.has_handler))
  ]

  -- a call that returns has run the handler on arguments that the tool accepts
  pub execute_tool-returned :
      (r : ToolRegistry W R E) (name : String) (args : Args) (w : W) (x : R)
      → IsWellFormed r
      → (execute_tool r name args w).1 ≡ returned x
      → (tool : Tool W R E) × (handler : ToolHandler W R E) × (get_tool name r ≡ some tool)
        × (tool.handler ≡ some handler)
        × IsAccepted tool.input_schema args
        × ((execute_tool r name args w).0 ≡ (handler args w).0)
        × ((handler args w).1 ≡ inl x)
  unfolding Unknown Refused Ran
  execute_tool-returned r name args w x v e = elim (execute_tool_lem r name args w v) [
    | inl (missing, same, out) ↦ ground arith
    | inr (inl (tool, found, bad, same, out)) ↦ absurd (out x e)
    | inr (inr (tool, handler, found, handled, good, done, out)) ↦ (
      tool,
      handler,
      found,
      handled,
      good,
      done,
      answer-returned (handler args w).1 x (sym out ∙ e),
    )
  ]
