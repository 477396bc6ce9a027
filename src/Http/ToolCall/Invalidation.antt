-- ===== src/Http/ToolCall/Invalidation.antt =====
-- What `handleToolCall` does to the cache after a call, by the table of the tools that change it.
use kubectl_mcp.Prelude.{
  ℕ, String, Bool, true, false, not, ◌&&◌, ◌||◌, some, Option-cases, List, [], ◌∷◌, ◌≡◌, ◌⊎◌, inl,
  inr, refl, arith, if_elim, Bool-cases, length, ◌==◌, str_eq, str_eq_iff, string_eq, All,
}
use kubectl_mcp.GoMap.{GoMap, lookup, has}
use kubectl_mcp.Cache
use kubectl_mcp.Cache.{QueryCache}
use kubectl_mcp.Mcp.{ToolCallResponse}
use kubectl_mcp.Http.Tables.{get_invalidated_tools, invalidating_tools}
use kubectl_mcp.Http.ToolCall.{CacheData, invalidate_all, invalidate_after, update_cache}

lookup-All :
    {V : Type 0} (P : String → V → Type 0) (m : GoMap String V) (key : String) (v : V)
    → All (λ entry. P entry.0 entry.1) m
    → lookup key m ≡ some v
    → P key v
unfolding lookup
lookup-All P [] key v p e = ground arith
lookup-All P ((j, w) ∷ m) key v (p, ps) e = elim (Bool-cases (str_eq j key)) [
  | inl here ↦
      let a : j ≡ key = (str_eq_iff j key).0 here in let b : w ≡ v = ground arith in rw (← a, ← b) p
  | inr past ↦ lookup-All P m key v ps (ground arith)
]

-- whether a success of the tool empties the cache, by its row of the table
empties : String → List String → Bool
empties tool_name tools =
    not (length tools == 0) || (str_eq tool_name "apply_yaml" || str_eq tool_name "patch_resource")

table_empties : All (λ entry. empties entry.0 entry.1 ≡ true) invalidating_tools
unfolding empties
table_empties = (
  refl,
  (
    refl,
    (
      refl,
      (
        refl,
        (
          refl,
          (
            refl,
            (
              refl,
              (
                refl,
                (refl, (refl, (refl, (refl, (refl, (refl, (refl, (refl, (refl, (refl, tt)))))))))),
              ),
            ),
          ),
        ),
      ),
    ),
  ),
)

listed-empties :
    (tool_name : String)
    → has tool_name invalidating_tools ≡ true
    → empties tool_name (get_invalidated_tools tool_name) ≡ true
unfolding has get_invalidated_tools
listed-empties tool_name listed = elim (Option-cases (lookup tool_name invalidating_tools)) [
  | inl e ↦ ground arith
  | inr (tools, e) ↦ rw e (
      lookup-All (λ name row. empties name row ≡ true) invalidating_tools tool_name tools
        table_empties e)
]

module _ {R : Type 0} where
  invalidate_all-empty :
      (tools : List String) (cache : QueryCache (CacheData R))
      → (cache.entries ≡ []) ⊎ ((length tools == 0) ≡ false)
      → (invalidate_all tools cache).entries ≡ []
  unfolding invalidate_all Cache.invalidate_by_tool
  invalidate_all-empty [] cache h = ground arith
  invalidate_all-empty (tool ∷ tools) cache h =
      invalidate_all-empty tools (Cache.invalidate_by_tool tool cache) (inl refl)

  invalidate_after-emptying :
      (tool_name : String) (cache : QueryCache (CacheData R))
      → empties tool_name (get_invalidated_tools tool_name) ≡ true
      → (invalidate_after tool_name cache).entries ≡ []
  unfolding invalidate_after empties Cache.clear
  invalidate_after-emptying tool_name cache h =
      if_elim (λ (x : QueryCache (CacheData R)). x.entries ≡ [])
        (length (get_invalidated_tools tool_name) == 0
          && (str_eq tool_name "apply_yaml" || str_eq tool_name "patch_resource"))
        (λ _. refl)
        (λ off. invalidate_all-empty (get_invalidated_tools tool_name) cache (inr (ground arith)))

  invalidate_after-listed :
      (tool_name : String) (cache : QueryCache (CacheData R))
      → has tool_name invalidating_tools ≡ true
      → (invalidate_after tool_name cache).entries ≡ []
  invalidate_after-listed tool_name cache listed =
      invalidate_after-emptying tool_name cache (listed-empties tool_name listed)

  -- A success of a tool of the table `InvalidatingTools` leaves the cache empty.
  pub update_cache-listed :
      (now : ℕ) (key tool_name : String) (response : ToolCallResponse R)
      (cache : QueryCache (CacheData R))
      → response.success ≡ true
      → has tool_name invalidating_tools ≡ true
      → (update_cache now key tool_name response cache).entries ≡ []
  unfolding update_cache
  update_cache-listed now key tool_name response cache ok listed =
      if_elim (λ (x : QueryCache (CacheData R)). x.entries ≡ []) response.success
        (λ _. invalidate_after-listed tool_name _ listed) (λ off. ground arith)
