-- ===== src/Crawler/Laws.antt =====
-- What a crawl returns.
use world_class_seo_agent_sy.Prelude.{
  ◌≡◌, ◌⊎◌, inl, inr, refl, ℕ, suc, ◌≤◌, true, false, String, List, [], ◌∷◌, All, none, Result, ok,
  err, ◌>>=◌, Ensures, Ensures-ok, Bool-cases, Result-cases, Option-cases, arith, map, sym, subst,
}
use world_class_seo_agent_sy.UrlBudget.{available, check_url_length}
use world_class_seo_agent_sy.Robots.Matcher.{RobotsError}
use world_class_seo_agent_sy.Robots.Policy.{Group, validate_robots_text, new_policy}
use world_class_seo_agent_sy.Robots.Parse.{
  RobotsFile, parse_robots, flush, read_directives, robots_directives, nothing_read, merge_groups,
}
use world_class_seo_agent_sy.Robots.Limits.{IsBounded, new_policy-IsBounded}
use world_class_seo_agent_sy.Crawler.{
  CrawlConfig, invalid_url, long_url, CrawlEvidence, Web, RobotsRecord, link_limit, crawl_loop,
  opening, normalized, check_config, robots_record, robots_records, robots_hosts, crawl_from, crawl,
}
use world_class_seo_agent_sy.Crawler.Invariant.{IsCrawl, crawl_loop-IsCrawl, opening-IsCrawl}
use world_class_seo_agent_sy.Crawler.Complete.{crawl_loop-Covered}
use world_class_seo_agent_sy.Crawler.Hosts.{
  IsChosen, asset_netlocs, recorded_host, robots_hosts-IsChosen, crawl_loop-Found,
  robots_records-host,
}
use world_class_seo_agent_sy.Crawler.Ends.{
  Ended, on_host, IsComplete, crawl_loop-Ended, available-empty, Covered-IsComplete,
}

check_config-max_urls :
    (config : CrawlConfig) → check_config config ≡ ok config → 1 ≤ config.max_urls
unfolding check_config
check_config-max_urls config h = ground arith

parse_robots-IsBounded :
    (text : String)
    → Ensures (λ (file : RobotsFile). IsBounded file.groups) (λ e. Unit {0}) (parse_robots text)
unfolding parse_robots
parse_robots-IsBounded text =
    checked (validate_robots_text text)
      (flush (read_directives (robots_directives text) nothing_read))
  where
    accepted :
        (groups : List Group) (sitemaps unknown : List String) (m : Result RobotsError (List Group))
        → Ensures (λ policy. (policy ≡ groups) × IsBounded groups) (λ e. IsBounded groups → ⊥) m
        → Ensures
            (λ (file : RobotsFile). IsBounded file.groups)
            (λ e. Unit {0})
            (m >>= λ policy.
              ok (record { groups = policy; sitemaps = sitemaps; unknown = unknown }))
    accepted groups sitemaps unknown (ok policy) h = rw h.0 h.1
    accepted groups sitemaps unknown (err e) h = tt

    checked :
        (m : Result RobotsError (Unit {0})) (r : world_class_seo_agent_sy.Robots.Parse.Reading)
        → Ensures
            (λ (file : RobotsFile). IsBounded file.groups)
            (λ e. Unit {0})
            (m >>= λ u. new_policy (merge_groups [] r.groups) >>= λ policy.
              ok (record { groups = policy; sitemaps = r.sitemaps; unknown = r.unknown }))
    checked (err e) r = tt
    checked (ok u) r =
        accepted (merge_groups [] r.groups) r.sitemaps r.unknown
          (new_policy (merge_groups [] r.groups)) (new_policy-IsBounded (merge_groups [] r.groups))

-- A record of a host: groups within the limits, or a failure without groups.
abbrev pub IsRecord : RobotsRecord → Type 0
IsRecord r = (r.failed ≡ true) × (r.groups ≡ []) ⊎ (r.failed ≡ false) × IsBounded r.groups

module _ {World : Type 0} (web : Web World) where
  robots_record-IsRecord :
      (scheme host : String) (world : World) → IsRecord (robots_record web scheme host world).0
  unfolding robots_record
  robots_record-IsRecord scheme host world =
      elim (Result-cases
        (web.fetch_text world (
          web.urlunsplit (record {
            scheme = scheme;
            netloc = host;
            path = "/robots.txt";
            query = "";
            hostname = none;
          }))).0) [
            | inr (e, h) ↦ rw (h, robots_record) (inl (refl, refl))
            | inl (text, h) ↦
                rw (h, robots_record)
                  (elim (Result-cases (parse_robots text)) [
                    | inr (e, k) ↦ rw k (inl (refl, refl))
                    | inl (file, k) ↦ rw k (inr (refl, bounded text file k))
                  ])
          ]
    where
      bounded :
          (text : String) (file : RobotsFile) → parse_robots text ≡ ok file → IsBounded file.groups
      bounded text file k =
          Ensures-ok (λ (file : RobotsFile). IsBounded file.groups) (λ e. Unit {0})
            (parse_robots text) file k (parse_robots-IsBounded text)

  robots_records-All :
      (scheme : String) (hosts : List String) (world : World)
      → All IsRecord (robots_records web scheme hosts world)
  unfolding robots_records
  robots_records-All scheme [] world = tt
  robots_records-All scheme (host ∷ hosts) world = (
    robots_record-IsRecord scheme host world,
    robots_records-All scheme hosts (robots_record web scheme host world).1,
  )

  module _ (config : CrawlConfig) (start_url : String) (world : World)
      (accepted : check_config config ≡ ok config) where
    started :
        (P : CrawlEvidence World → Type 0)
        → ((start : String) → P (crawl_from web config start world))
        → Ensures P (λ e. (e ≡ invalid_url) ⊎ (e ≡ long_url)) (crawl web config start_url world)
    unfolding crawl normalized
    started P h = elim (Option-cases (web.validate_url start_url)) [
      | inl e ↦ rw (e, crawl) (inl refl)
      | inr (safe, e) ↦
          rw (e, crawl)
            (elim (Result-cases (check_url_length safe)) [
              | inl (u, k) ↦ elim (Bool-cases (web.is_splittable safe)) [
                | inl s ↦ rw (k, normalized, s) (h _)
                | inr s ↦ rw (k, normalized, s) (inl refl)
              ]
              | inr (x, k) ↦ rw (k, normalized) (inr refl)
            ])
    ]

    -- A crawl under accepted limits ends with nothing waiting or as many pages as the limit. Every
    -- URL that was enqueued is a page, failed or waits, once; there are at most five times as many
    -- as pages allowed; each page is the first URL, or is on its host, within the depth, and linked
    -- from a page a level up.
    pub crawl-IsCrawl :
        Ensures
          (λ out.
            IsCrawl config (on_host web out.start_url) out.start_url out.crawl
            × Ended config out.crawl)
          (λ e. (e ≡ invalid_url) ⊎ (e ≡ long_url))
          (crawl web config start_url world)
    unfolding crawl_from
    crawl-IsCrawl =
        started
          (λ out.
            IsCrawl config (on_host web out.start_url) out.start_url out.crawl
            × Ended config out.crawl)
          (λ start.
            let v =
              opening-IsCrawl web config (on_host web start) start world
                (check_config-max_urls config accepted) in
            (
              crawl_loop-IsCrawl web config (on_host web start) start (suc (link_limit config))
                  (opening web start world) v,
              crawl_loop-Ended web config (on_host web start) start (suc (link_limit config))
                  (opening web start world) (omega arith) v,
            ))

    -- A crawl under accepted limits whose state is AVAILABLE is complete: nothing failed, nothing
    -- waits, and every link from a page above the greatest depth to the same host is a page.
    pub crawl-IsComplete :
        Ensures
          (λ out.
            out.data_state ≡ available → IsComplete config (on_host web out.start_url) out.crawl)
          (λ e. (e ≡ invalid_url) ⊎ (e ≡ long_url))
          (crawl web config start_url world)
    unfolding crawl_from
    crawl-IsComplete =
        started
          (λ out.
            out.data_state ≡ available → IsComplete config (on_host web out.start_url) out.crawl)
          (λ start h.
            let local = on_host web start in
            let fuel : ℕ = suc (link_limit config) in
            let urls_allowed = check_config-max_urls config accepted in
            let c = crawl_loop web config local fuel (opening web start world) in
            Covered-IsComplete web config local start c urls_allowed
              (crawl_loop-IsCrawl web config local start fuel (opening web start world)
                (opening-IsCrawl web config local start world urls_allowed))
              (crawl_loop-Covered web config local fuel (opening web start world) tt)
              (available-empty c h))

    -- A crawl under accepted limits records the robots.txt of these hosts: first the host of the
    -- first URL, then hosts of asset URLs of the pages that were read, without repetition, at most
    -- max_asset_hosts, and as many if any host of an asset URL is left out. Each record has groups
    -- within the limits of a policy or is marked as failed and has no groups.
    pub crawl-IsRecord :
        Ensures
          (λ out.
            All IsRecord out.robots
            × IsChosen config.max_asset_hosts
                (web.urlsplit out.start_url).netloc
                (asset_netlocs web out.crawl.pages)
                (map recorded_host out.robots))
          (λ e. (e ≡ invalid_url) ⊎ (e ≡ long_url))
          (crawl web config start_url world)
    unfolding crawl_from
    crawl-IsRecord =
        started
          (λ out.
            All IsRecord out.robots
            × IsChosen config.max_asset_hosts (web.urlsplit out.start_url).netloc
                (asset_netlocs web out.crawl.pages) (map recorded_host out.robots))
          (λ start.
            let c =
              crawl_loop web config (on_host web start) (suc (link_limit config))
                (opening web start world) in
            let parts = web.urlsplit start in
            let hosts = robots_hosts config parts.netloc c.asset_hosts in
            (
              robots_records-All parts.scheme hosts c.world,
              subst (IsChosen config.max_asset_hosts parts.netloc (asset_netlocs web c.pages))
                  (sym (robots_records-host web parts.scheme hosts c.world))
                  (robots_hosts-IsChosen config parts.netloc (asset_netlocs web c.pages)
                    c.asset_hosts
                    (crawl_loop-Found web config (on_host web start) (suc (link_limit config))
                      (opening web start world)
                      (record { same = λ h. ground arith; distinct = refl }))),
            ))
