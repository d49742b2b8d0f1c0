-- ===== src/Routing/Tests.antt =====
-- Routes of concrete requests.
use world_class_seo_agent_sy.Prelude.{◌≡◌, refl, contains, ◌==◌}
use world_class_seo_agent_sy.Prelude.Strings.{occurs}
use world_class_seo_agent_sy.Routing.Routes.{routes, route_result, route}
use world_class_seo_agent_sy.Routing.Laws.{route-self_support}

route_index : (route "why is my site not in the Index").lead_agent ≡ "SEO Technical Agent"
unfolding route routes occurs route_result
route_index = refl

route_other : (route "hello").confidence ≡ "Low"
unfolding route routes occurs route_result
route_other = refl

route-self_support_example :
    contains (route "hello").supporting_agents (route "hello").lead_agent
    ≡ ((route "hello").lead_agent == "SEO Scrummaster Agent")
route-self_support_example = route-self_support "hello"
