-- ===== src/Crawler/Tests.antt =====
-- Crawls of a site of three pages, of which the last can be read or not.
use world_class_seo_agent_sy.Prelude.{
  ◌≡◌, ◌⊎◌, refl, true, String, List, [], ◌∷◌, map, All, some, Result, ok, err, Ensures, ◌==◌,
  if◌then◌else◌,
}
use world_class_seo_agent_sy.UrlBudget.{available, partial}
use world_class_seo_agent_sy.Crawler.{
  CrawlConfig, invalid_url, long_url, SplitUrl, Links, Web, check_config, crawl_loop, crawl_url,
  add_page, robots_records, robots_record, robots_hosts, enqueue_links, enqueue_link, crawl_from,
  crawl,
}
use world_class_seo_agent_sy.Crawler.Invariant.{requested, IsCrawl}
use world_class_seo_agent_sy.Crawler.Ends.{Ended, on_host, IsComplete}
use world_class_seo_agent_sy.Crawler.Hosts.{IsChosen, asset_netlocs, recorded_host}
use world_class_seo_agent_sy.Crawler.Laws.{
  IsRecord, crawl-IsCrawl, crawl-IsComplete, crawl-IsRecord,
}

abbrev split : String → SplitUrl
split url = record {
  scheme = "https";
  netloc =
      if url == "https://other/"
      then "other"
      else if url == "https://images/"
      then "images"
      else if url == "https://fonts/"
      then "fonts"
      else "site";
  path = url;
  query = "";
  hostname = some (if url == "https://other/" then "other" else "site");
}

abbrev links : List String → Links
links targets = record {
  internal_links = targets;
  asset_urls = "https://other/" ∷ "https://images/" ∷ "/logo" ∷ "https://fonts/" ∷ [];
}

abbrev answers : String → Result String Links
answers url =
    if url == "/"
    then ok (links ("/a" ∷ "/" ∷ "https://other/" ∷ "/b" ∷ []))
    else if url == "/a"
    then ok (links ("/b" ∷ "/" ∷ []))
    else err "URLError"

abbrev web : Web (Unit {0})
web = record {
  is_splittable = λ url. true;
  urlsplit = split;
  urlunsplit = λ parts. parts.path;
  validate_url = λ url. some url;
  fetch = λ w url depth. (answers url, tt);
  fetch_text = λ w url. (err "URLError", tt);
}

-- The site with all pages readable.
abbrev whole_web : Web (Unit {0})
whole_web = record web {
  fetch = λ w url depth. (if url == "/b" then ok (links []) else answers url, tt);
}

abbrev limits : CrawlConfig
limits = record { max_urls = 5; max_depth = 1; max_asset_hosts = 2 }

limits-accepted : check_config limits ≡ ok limits
unfolding check_config
limits-accepted = refl

crawl-IsCrawl_example :
    Ensures
      (λ out.
        IsCrawl limits (on_host web out.start_url) out.start_url out.crawl × Ended limits out.crawl)
      (λ e. (e ≡ invalid_url) ⊎ (e ≡ long_url))
      (crawl web limits "/" tt)
crawl-IsCrawl_example = crawl-IsCrawl web limits "/" tt limits-accepted

crawl-IsComplete_example :
    Ensures
      (λ out.
        out.data_state ≡ available → IsComplete limits (on_host whole_web out.start_url) out.crawl)
      (λ e. (e ≡ invalid_url) ⊎ (e ≡ long_url))
      (crawl whole_web limits "/" tt)
crawl-IsComplete_example = crawl-IsComplete whole_web limits "/" tt limits-accepted

crawl-IsRecord_example :
    Ensures
      (λ out.
        All IsRecord out.robots
        × IsChosen limits.max_asset_hosts
            (web.urlsplit out.start_url).netloc
            (asset_netlocs web out.crawl.pages)
            (map recorded_host out.robots))
      (λ e. (e ≡ invalid_url) ⊎ (e ≡ long_url))
      (crawl web limits "/" tt)
crawl-IsRecord_example = crawl-IsRecord web limits "/" tt limits-accepted

whole_web_test :
    ((crawl_from whole_web limits "/" tt).data_state ≡ available)
    × (map requested (crawl_from whole_web limits "/" tt).crawl.pages ≡ "/" ∷ "/a" ∷ "/b" ∷ [])
unfolding crawl_from crawl_loop crawl_url add_page enqueue_links enqueue_link
whole_web_test = (refl, refl)

crawl_tests :
    (map requested (crawl_from web limits "/" tt).crawl.pages ≡ "/" ∷ "/a" ∷ [])
    × ((crawl_from web limits "/" tt).crawl.failed ≡ "/b" ∷ [])
    × ((crawl_from web limits "/" tt).data_state ≡ partial)
    × (map recorded_host (crawl_from web limits "/" tt).robots ≡ "site" ∷ "fonts" ∷ "images" ∷ [])
unfolding crawl_from crawl_loop crawl_url add_page enqueue_links enqueue_link robots_records
    robots_record robots_hosts
crawl_tests = (refl, refl, refl, refl)
