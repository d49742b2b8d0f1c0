-- ===== src/UrlBudget/Tests.antt =====
-- An expansion under a page budget and a crawl budget.
use Prim.Native.String.{◌++◌ as append}
use world_class_seo_agent_sy.Prelude.{◌≡◌, refl, List, [], ◌∷◌, String, Option, some, ok}
use world_class_seo_agent_sy.UrlBudget.{UrlBudget, expand, check_url_length, reserve_chars}
use world_class_seo_agent_sy.UrlBudget.Laws.{IsExpanded, expand-IsExpanded}

abbrev joined : String → String → Option String
joined base value = some (append base value)

abbrev page : List UrlBudget
page = record { maximum = 100; used = 0 } ∷ record { maximum = 1000; used = 40 } ∷ []

expand-IsExpanded_example :
    IsExpanded joined some "http://a/" "b" page (expand joined some "http://a/" "b" page)
expand-IsExpanded_example = expand-IsExpanded joined some "http://a/" "b" page

expand_test : (expand joined some "http://a/" "b" page).0 ≡ ok "http://a/b"
unfolding expand check_url_length reserve_chars
expand_test = refl
