-- ===== src/Deletion/Preview/Risk.antt =====
-- The total risk and the total impact of a preview, in whatever order its goroutines end.
use kubectl_mcp.Prelude.{
  ℕ, ◌+◌, ◌≤◌, String, some, List, [], ◌∷◌, ◌++◌, ◌⊎◌, inl, inr, ◌≡◌, ◌≢◌, refl, sym, ◌∙◌, arith,
  ap, length-append, length, ltb, All, Bool-cases, if◌then◌else◌,
}
use mathlib.Core.List.{append-nil, append_assoc}
use kubectl_mcp.Prelude.Int.{pos, ltb_ℤ}
use kubectl_mcp.Deletion.Preview.Analysis.{detail_of}
use kubectl_mcp.Deletion.Preview.{
  PreviewApi, DeleteResourceDetail, PreviewJoin, risk_order, compare_risk_level, join, join_all,
  preview_result,
}

compare-above :
    (a b : String) → ltb_ℤ (pos 0) (compare_risk_level a b) ≡ ltb (risk_order b) (risk_order a)
unfolding compare_risk_level
compare-above a b = ground arith

join-max :
    (d : DeleteResourceDetail) (r : PreviewJoin)
    → (join d r).max_risk_level ≡ (
        if ltb (risk_order r.max_risk_level) (risk_order d.risk_level)
        then d.risk_level
        else r.max_risk_level)
unfolding join
join-max d r = rw (compare-above d.risk_level r.max_risk_level)

-- the level is the start's or that of a detail
pub IsLevelOf : String → List DeleteResourceDetail → Type 0
IsLevelOf level [] = ⊥
IsLevelOf level (d ∷ details) = (d.risk_level ≡ level) ⊎ IsLevelOf level details

-- the impacts of all details
pub impacts : List DeleteResourceDetail → ℕ
impacts [] = 0
impacts (d ∷ details) = length d.impacted_resources + impacts details

join_all-order :
    (details : List DeleteResourceDetail) (r : PreviewJoin)
    → (risk_order r.max_risk_level ≤ risk_order (join_all details r).max_risk_level)
      × All (λ d. risk_order d.risk_level ≤ risk_order (join_all details r).max_risk_level) details
unfolding join_all
join_all-order [] r = (omega arith, tt)
join_all-order (d ∷ details) r =
    let (above, all) = join_all-order details (join d r) in
    (ground (arith, join-max d r), (ground (arith, join-max d r), all))

join_all-attained :
    (details : List DeleteResourceDetail) (r : PreviewJoin)
    → ((join_all details r).max_risk_level ≡ r.max_risk_level)
      ⊎ IsLevelOf (join_all details r).max_risk_level details
unfolding join_all IsLevelOf
join_all-attained [] r = inl refl
join_all-attained (d ∷ details) r = elim (join_all-attained details (join d r)) [
  | inr later ↦ inr (inr later)
  | inl same ↦ elim (Bool-cases (ltb (risk_order r.max_risk_level) (risk_order d.risk_level))) [
    | inl up ↦ inr (inl (ground (arith, join-max d r)))
    | inr stay ↦ inl (ground (arith, join-max d r))
  ]
]

join_all-totals :
    (details : List DeleteResourceDetail) (r : PreviewJoin)
    → ((join_all details r).total_impact_count ≡ r.total_impact_count + impacts details)
      × ((join_all details r).resources ≡ r.resources ++ details)
unfolding join_all impacts join
join_all-totals [] r = (omega arith, sym (append-nil r.resources))
join_all-totals (d ∷ details) r =
    let (sum, all) = join_all-totals details (join d r) in
    (omega (arith, sum), all ∙ append_assoc r.resources (d ∷ []) details)

-- The goroutines end with their details in any order, one for each name.
pub data Ends (analyze : String → DeleteResourceDetail)
    : List String → List DeleteResourceDetail → Type 0 where
  all_ended : Ends analyze [] []
  ends :
      {names : List String} {details : List DeleteResourceDetail} (before after : List String)
      (name : String)
      → names ≡ before ++ name ∷ after
      → Ends analyze (before ++ after) details
      → Ends analyze names (analyze name ∷ details)

Ends-length :
    {analyze : String → DeleteResourceDetail} {names : List String}
    {details : List DeleteResourceDetail}
    → Ends analyze names details
    → length names ≡ length details
Ends-length all_ended = refl
Ends-length (ends before after name e rest) = ground (
  arith,
  ap length e,
  Ends-length rest,
  length-append before (name ∷ after),
  length-append before after,
)

-- Whatever the order in which its goroutines end, a preview of at least one name holds the details of
-- their analyses in that order, counts as many resources and the impacts of all, has a confirmation
-- token, and its total risk is at least that of every resource and is that of one of them, or low.
pub preview_result_lem :
    (api : PreviewApi) (kind namespace selector : String) (started ended : ℕ) (names : List String)
    (details : List DeleteResourceDetail)
    → names ≢ []
    → Ends (detail_of api kind namespace) names details
    → ((preview_result kind namespace selector started ended names details).resources ≡ details)
      × ((preview_result kind namespace selector started ended names details).total_count
          ≡ length details)
      × ((preview_result kind namespace selector started ended names details).total_impact_count
          ≡ impacts details)
      × ((preview_result kind namespace selector started ended names details).confirmation_token
          ≡ some ended)
      × All
          (λ d.
            risk_order d.risk_level
            ≤ risk_order
                (preview_result kind namespace selector started ended names
                  details).total_risk_level)
          details
      × (((preview_result kind namespace selector started ended names details).total_risk_level
            ≡ "low")
          ⊎ IsLevelOf
              (preview_result kind namespace selector started ended names details).total_risk_level
              details)
unfolding preview_result impacts
preview_result_lem api kind namespace selector started ended [] details h run = absurd (h refl)
preview_result_lem api kind namespace selector started ended (name ∷ names) details h run =
    let start : PreviewJoin = record {
      resources = [];
      total_impact_count = 0;
      max_risk_level = "low";
    } in
    let (sum, all) = join_all-totals details start in
    (
      all,
      Ends-length run,
      omega (arith, sum),
      refl,
      (join_all-order details start).1,
      join_all-attained details start,
    )
