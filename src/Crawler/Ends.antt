-- ===== src/Crawler/Ends.antt =====
-- A crawl comes to an end, and one that is AVAILABLE has read every page that it could reach.
use world_class_seo_agent_sy.Prelude.{
  ◌≡◌, ◌⊎◌, inl, inr, refl, ap, ℕ, zero, suc, ◌+◌, ◌≤◌, ◌<◌, Bool, true, ltb, String, List, [], ◌∷◌,
  map, length, contains, All, All-map, Bool-cases, ltb→lt, ltb→le, arith,
}
use world_class_seo_agent_sy.UrlBudget.{available, crawl_data_state}
use world_class_seo_agent_sy.Crawler.{
  CrawlConfig, Web, Page, Crawl, link_limit, crawl_url, crawl_loop, is_local, host_or_empty,
}
use world_class_seo_agent_sy.Crawler.Lists.{occurrences, occurrences-present, urls}
use world_class_seo_agent_sy.Crawler.Invariant.{requested, IsCrawl, crawl_url-IsCrawl}
use world_class_seo_agent_sy.Crawler.Complete.{Known, Covered, length-crawl_url}

-- Nothing waits, or the limit of pages is reached.
abbrev pub Ended : {World : Type 0} → CrawlConfig → Crawl World → Type 0
Ended config c = (c.queue ≡ []) ⊎ (length c.pages ≡ config.max_urls)

module _ {World : Type 0} (web : Web World) (config : CrawlConfig) (local : String → Bool)
    (start : String) where
  turn-Ended :
      (fuel : ℕ) (queue : List (String × ℕ)) (c : Crawl World)
      → ((d : Crawl World)
          → link_limit config < fuel + (length d.pages + length d.failed)
          → IsCrawl config local start d
          → Ended config (crawl_loop web config local fuel d))
      → link_limit config < suc fuel + (length c.pages + length c.failed)
      → IsCrawl config local start (record c { queue = queue })
      → Ended config (crawl_loop web config local (suc fuel) (record c { queue = queue }))
  unfolding crawl_loop
  turn-Ended fuel [] c ih h v = inl refl
  turn-Ended fuel ((url, depth) ∷ queue) c ih h v =
      elim (Bool-cases (ltb (length c.pages) config.max_urls)) [
        | inl room ↦ rw room (
            ih (crawl_url web config local url depth (record c { queue = queue }))
              (omega (
                arith,
                h,
                length-crawl_url web config local url depth (record c { queue = queue }),
              ))
              (crawl_url-IsCrawl web config local start url depth queue c
                (ltb→lt (length c.pages) config.max_urls room) v))
        | inr full ↦
            rw full (inr (omega (arith, ltb→le (length c.pages) config.max_urls full, v.pages)))
      ]

  pub crawl_loop-Ended :
      (fuel : ℕ) (c : Crawl World)
      → link_limit config < fuel + (length c.pages + length c.failed)
      → IsCrawl config local start c
      → Ended config (crawl_loop web config local fuel c)
  crawl_loop-Ended zero c h v = absurd (omega (arith, h, v.ledger.total, v.ledger.bounded))
  crawl_loop-Ended (suc fuel) c h v = turn-Ended fuel c.queue c (crawl_loop-Ended fuel) h v

-- Whether a URL is on the host of the first one.
abbrev pub on_host : {World : Type 0} → Web World → String → String → Bool
on_host web start =
    is_local web (host_or_empty (web.urlsplit start).hostname) (web.urlsplit start).netloc

-- Some page was requested under the URL.
abbrev pub is_page : List Page → String → Bool
is_page pages url = contains (map requested pages) url

-- Every link of a page above the greatest depth to the same host is a page, nothing failed and
-- nothing waits.
pub record IsComplete {World : Type 0} (config : CrawlConfig) (local : String → Bool)
    (c : Crawl World) : Type 0 where
  pub none_failed : c.failed ≡ []
  pub none_waits : c.queue ≡ []
  pub links :
      All
        (λ p.
          p.depth < config.max_depth
          → All (λ t. local t ≡ true → is_page c.pages t ≡ true) p.links.internal_links)
        c.pages

pub available-empty :
    {World : Type 0} (c : Crawl World)
    → crawl_data_state c.pages c.failed c.queue ≡ available
    → (c.failed ≡ []) × (c.queue ≡ [])
available-empty c h = empties c.pages c.failed c.queue h
  where
    empties :
        (pages : List Page) (failed : List String) (queue : List (String × ℕ))
        → crawl_data_state pages failed queue ≡ available
        → (failed ≡ []) × (queue ≡ [])
    empties pages [] [] h = (refl, refl)
    empties pages [] (q ∷ queue) h = cc
    empties pages (x ∷ failed) queue h = cc

occurrences-contains : (u : String) (xs : List String) → 1 ≤ occurrences u xs → contains xs u ≡ true
occurrences-contains u [] h = absurd (omega (arith, h))
occurrences-contains u (x ∷ xs) h = ground (arith, occurrences-contains u xs)

module _ {World : Type 0} (web : Web World) (config : CrawlConfig) (local : String → Bool)
    (start : String) where
  Known-page :
      (c : Crawl World) (t : String)
      → 1 ≤ config.max_urls
      → IsCrawl config local start c
      → (c.failed ≡ []) × (c.queue ≡ [])
      → Known (link_limit config) c.enqueued t
      → is_page c.pages t ≡ true
  Known-page c t h v e (inl k) = occurrences-contains t (map requested c.pages) (
      omega (
        arith,
        occurrences-present t c.enqueued k,
        v.ledger.counted t,
        ap (occurrences t) e.0,
        ap (λ q. occurrences t (urls q)) e.1,
      ))
  Known-page c t h v e (inr k) = absurd (
      omega (
        arith,
        k,
        h,
        v.pages,
        v.ledger.total,
        ap (λ (x : List String). length x) e.0,
        ap (λ (x : List (String × ℕ)). length x) e.1,
      ))

  pub Covered-IsComplete :
      (c : Crawl World)
      → 1 ≤ config.max_urls
      → IsCrawl config local start c
      → Covered config local c.enqueued c.pages
      → (c.failed ≡ []) × (c.queue ≡ [])
      → IsComplete config local c
  Covered-IsComplete c h v covered e = record {
    none_failed = e.0;
    none_waits = e.1;
    links =
        All-map
          {P = λ p.
            p.depth < config.max_depth
            → All (λ t. local t ≡ true → Known (link_limit config) c.enqueued t)
                p.links.internal_links}
          (λ p k d.
            All-map {P = λ t. local t ≡ true → Known (link_limit config) c.enqueued t}
              (λ t known l. Known-page c t h v e (known l)) p.links.internal_links (k d))
          c.pages covered;
  }
