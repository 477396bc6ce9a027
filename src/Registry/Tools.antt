-- ===== src/Registry/Tools.antt =====
-- What `RegisterTool` and `UnregisterTool` do to the registry, on every branch.
use kubectl_mcp.Prelude.{
  ◌+◌, String, true, false, Option, none, some, ◌≡◌, ◌≢◌, ◌⊎◌, arith, is_some, str_eq, str_eq_iff,
  string_eq, if◌then◌else◌, if_elim, Bool-cases, Option-cases, inl, inr,
}
use kubectl_mcp.GoMap.{lookup, has, insert, Distinct}
use kubectl_mcp.GoMap.Laws.{
  lookup-insert, lookup-delete, insert-Distinct, delete-Distinct, length-insert,
}
use kubectl_mcp.Registry.{
  Tool, ToolRegistry, ToolError, register_tool, register_named, unregister_tool, get_tool, has_tool,
  tool_count,
}

module _ {W R E : Type 0} where
  -- a tool that the registry can run
  pub record IsRunnable (tool : Tool W R E) : Type 0 where
    pub named : tool.name ≢ ""
    pub has_handler : is_some tool.handler ≡ true
    pub has_schema : is_some tool.input_schema ≡ true

  -- every tool stands under its own name, once, and can be run
  pub record IsWellFormed (r : ToolRegistry W R E) : Type 0 where
    pub distinct : Distinct r
    pub runnable :
        (name : String) (tool : Tool W R E)
        → lookup name r ≡ some tool
        → (tool.name ≡ name) × IsRunnable tool

  -- what a registration without an error has found and done
  pub record Registered (tool : Tool W R E) (r r' : ToolRegistry W R E) : Type 0 where
    pub fresh : has_tool tool.name r ≡ false
    pub runnable : IsRunnable tool
    pub reads :
        (name : String)
        → get_tool name r' ≡ (if str_eq tool.name name then some tool else get_tool name r)
    pub one_more : tool_count r' ≡ tool_count r + 1

  -- A registration either reports an error and leaves the registry as it was, or reports none: then
  -- it was of a runnable tool under a new name, and after it that name reads the tool, every other
  -- name reads what it read before, and there is one tool more.
  pub register_tool_lem :
      (tool : Tool W R E) (r : ToolRegistry W R E)
      → (((register_tool (some tool) r).1 ≢ none) × ((register_tool (some tool) r).0 ≡ r))
        ⊎ (((register_tool (some tool) r).1 ≡ none)
            × Registered tool r (register_tool (some tool) r).0)
  unfolding register_tool get_tool has_tool tool_count
  register_tool_lem tool r = elim (Option-cases (register_named tool r).1) [
    | inr (e, refused) ↦ inl (ground arith, ground arith)
    | inl accepted ↦
        let done : register_named tool r ≡ (insert tool.name tool r, none) = ground arith in
        inr (
          accepted,
          rw done (record {
            fresh = ground arith;
            runnable = record {
              named = ground (arith, str_eq_iff tool.name "");
              has_handler = ground arith;
              has_schema = ground arith;
            };
            reads = λ name. lookup-insert tool.name name tool r;
            one_more = ground (arith, length-insert tool.name tool r);
          }),
        )
  ]

  register_named-cases :
      (tool : Tool W R E) (r : ToolRegistry W R E)
      → ((register_named tool r).0 ≡ r)
        ⊎ (IsRunnable tool × ((register_named tool r).0 ≡ insert tool.name tool r))
  unfolding register_named
  register_named-cases tool r = elim (Bool-cases (is_some (register_named tool r).1)) [
    | inl refused ↦ inl (ground arith)
    | inr accepted ↦ inr (
      record {
        named = ground (arith, str_eq_iff tool.name "");
        has_handler = ground arith;
        has_schema = ground arith;
      },
      ground arith,
    )
  ]

  -- Registration keeps the registry well formed, whatever it is given.
  pub register_tool-IsWellFormed :
      (tool : Option (Tool W R E)) (r : ToolRegistry W R E)
      → IsWellFormed r
      → IsWellFormed (register_tool tool r).0
  unfolding register_tool
  register_tool-IsWellFormed none r v = v
  register_tool-IsWellFormed (some tool) r v = elim (register_named-cases tool r) [
    | inl same ↦ rw same v
    | inr (ok, done) ↦ rw done (record {
      distinct = insert-Distinct tool.name tool r v.distinct;
      runnable = λ name t found. elim (Bool-cases (str_eq tool.name name)) [
        | inl here ↦
            let e : tool ≡ t = ground (arith, lookup-insert tool.name name tool r) in
            rw (← e) ((str_eq_iff tool.name name).0 here, ok)
        | inr past ↦ v.runnable name t (ground (arith, lookup-insert tool.name name tool r))
      ];
    })
  ]

  pub unregister_tool-IsWellFormed :
      (name : String) (r : ToolRegistry W R E)
      → IsWellFormed r
      → IsWellFormed (unregister_tool name r).0
  unfolding unregister_tool
  unregister_tool-IsWellFormed name r v =
      if_elim (λ (x : ToolRegistry W R E × Option (ToolError E)). IsWellFormed x.0) (has name r)
        (λ _. record {
          distinct = delete-Distinct name r v.distinct;
          runnable = λ j t found. v.runnable j t (ground (arith, lookup-delete name j r));
        })
        (λ _. v)

  -- A tool that is registered and then unregistered leaves every name reading what it read before.
  pub unregister-register :
      (tool : Tool W R E) (r : ToolRegistry W R E) (name : String)
      → (register_tool (some tool) r).1 ≡ none
      → ((unregister_tool tool.name (register_tool (some tool) r).0).1 ≡ none)
        × (get_tool name (unregister_tool tool.name (register_tool (some tool) r).0).0
            ≡ get_tool name r)
  unfolding register_tool unregister_tool get_tool has
  unregister-register tool r name accepted =
      let done : register_named tool r ≡ (insert tool.name tool r, none) = ground arith in
      let fresh : lookup tool.name r ≡ none = ground arith in
      rw done (
        ground (
          arith,
          lookup-insert tool.name tool.name tool r,
          lookup-insert tool.name name tool r,
          lookup-delete tool.name name (insert tool.name tool r),
          str_eq_iff tool.name name,
          str_eq_iff tool.name tool.name,
        ))
