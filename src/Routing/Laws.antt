-- ===== src/Routing/Laws.antt =====
-- Which agents a route names.
use world_class_seo_agent_sy.Prelude.{
  ◌≡◌, refl, Bool, true, false, String, List, [], ◌∷◌, any, all, lookup, contains, ◌==◌, arith,
  Bool-cases, and_left, and_right, inl, inr,
}
use world_class_seo_agent_sy.Prelude.Strings.{lower, occurs}
use world_class_seo_agent_sy.Routing.Routes.{
  RouteResult, RouteRow, routes, support_table, or_scrummaster, route_result, route_from, route,
}

same_bool : Bool → Bool → Bool
same_bool true b = b
same_bool false true = false
same_bool false false = true

supports_itself : String → Bool
unfolding support_table
supports_itself lead = contains (or_scrummaster (lookup lead support_table)) lead

row_ok : RouteRow → Bool
unfolding same_bool supports_itself
row_ok r = same_bool (supports_itself r.lead_agent) (r.lead_agent == "SEO Scrummaster Agent")

rows_ok : all row_ok routes ≡ true
unfolding row_ok routes
rows_ok = refl

same_bool-eq : (a b : Bool) → same_bool a b ≡ true → a ≡ b
unfolding same_bool
same_bool-eq true b h = ground arith
same_bool-eq false b h = ground arith

row_lem :
    (r : RouteRow)
    → row_ok r ≡ true
    → supports_itself r.lead_agent ≡ (r.lead_agent == "SEO Scrummaster Agent")
unfolding row_ok
row_lem r h = same_bool-eq _ _ h

abbrev IsSelfSupport : RouteResult → Type 0
IsSelfSupport r =
    contains r.supporting_agents r.lead_agent ≡ (r.lead_agent == "SEO Scrummaster Agent")

result_lem :
    (lead workflow confidence : String)
    → supports_itself lead ≡ (lead == "SEO Scrummaster Agent")
    → IsSelfSupport (route_result lead workflow confidence)
unfolding route_result supports_itself
result_lem lead workflow confidence h = h

route_from_lem :
    (rows : List RouteRow) (normalized : String)
    → all row_ok rows ≡ true
    → IsSelfSupport (route_from rows normalized)
unfolding route_from
route_from_lem [] normalized h =
    result_lem "SEO Scrummaster Agent" "workflows/request-routing.md" "Low"
      (unfold supports_itself in refl)
route_from_lem (r ∷ rows) normalized h =
    elim (Bool-cases (any (λ keyword. occurs keyword normalized) r.keywords)) [
      | inl e ↦ rw e (result_lem r.lead_agent r.workflow "Medium" (row_lem r (and_left _ _ h)))
      | inr e ↦ rw e (route_from_lem rows normalized (and_right _ _ h))
    ]

-- For every request, the lead of the route is among its own supporting agents exactly when the lead is
-- the Scrummaster.
pub route-self_support :
    (request : String)
    → contains (route request).supporting_agents (route request).lead_agent
      ≡ ((route request).lead_agent == "SEO Scrummaster Agent")
unfolding route
route-self_support request = route_from_lem routes (lower request) rows_ok
