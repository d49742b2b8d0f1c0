-- ===== src/Crawler/Hosts.antt =====
-- Which hosts the robots.txt files are read of: the `asset_hosts` of `crawl` and the first of them.
use world_class_seo_agent_sy.Prelude.{
  ◌≡◌, refl, sym, ◌∙◌, ℕ, zero, suc, ◌≤◌, Bool, true, false, not, ◌&&◌, ◌||◌, String, List, [], ◌∷◌,
  ◌++◌, map, keep, length, take, length-take_le, contains, contains-append, has_duplicates, sort_by,
  All, none, ◌==◌, eq_iff, eq_refl, Result-cases, Bool-cases, ltb, inl, inr, arith,
}
use world_class_seo_agent_sy.Crawler.{
  CrawlConfig, Links, Web, Page, Crawl, RobotsRecord, add_host, add_hosts, robots_hosts,
  robots_record, robots_records, add_page, crawl_url, crawl_loop,
}
use world_class_seo_agent_sy.Robots.Parse.{parse_robots}
use world_class_seo_agent_sy.Crawler.Texts.{
  contains-sort_by, has_duplicates-sort_by, contains-keep, has_duplicates-keep, contains-take,
  has_duplicates-take, length-take_full, contains-All, contains-add_host, has_duplicates-add_host,
}

-- The hosts begin with the root. The others are found and not empty, without repetition, at most as
-- many as the limit, and exactly as many where a host that is found is left out.
pub record IsChosen (limit : ℕ) (root : String) (found hosts : List String) : Type 0 where
  pub rest : List String
  pub named : hosts ≡ root ∷ rest
  pub few : length rest ≤ limit
  pub distinct : has_duplicates hosts ≡ false
  pub asset : All (λ h. (contains found h ≡ true) × ((h == "") ≡ false)) rest
  pub full :
      (h : String)
      → contains found h ≡ true
      → (h == "") ≡ false
      → contains hosts h ≡ false
      → length rest ≡ limit

-- The hosts are those that are found and not empty, once each.
pub record IsSetOf (found hosts : List String) : Type 0 where
  pub same : (h : String) → contains hosts h ≡ (not (h == "") && contains found h)
  pub distinct : has_duplicates hosts ≡ false

pub robots_hosts-IsChosen :
    (config : CrawlConfig) (root : String) (found hosts : List String)
    → IsSetOf found hosts
    → IsChosen config.max_asset_hosts root found (robots_hosts config root hosts)
unfolding robots_hosts
robots_hosts-IsChosen config root found hosts v = record {
  rest = rest;
  named = refl;
  few = length-take_le config.max_asset_hosts sorted;
  distinct = ground (arith, eq_refl root, member root, distinct);
  asset = contains-All _ rest (λ k c. ground (arith, member k c, v.same k));
  full = λ h f e l.
      length-take_full config.max_asset_hosts sorted h
        (ground (arith, f, e, l, sorted_same h, v.same h, eq_iff h root, eq_iff root h))
        (ground (arith, l));
}
  where
    others : List String
    others = keep (λ h. not (h == root)) hosts

    sorted : List String
    sorted = sort_by (λ x. x) others

    rest : List String
    rest = take config.max_asset_hosts sorted

    sorted_same : (k : String) → contains sorted k ≡ (not (k == root) && contains hosts k)
    sorted_same k = contains-sort_by others k ∙ contains-keep root hosts k

    member : (k : String) → contains rest k ≡ true → (not (k == root) && contains hosts k) ≡ true
    member k c = sym (sorted_same k) ∙ contains-take config.max_asset_hosts sorted k c

    distinct : has_duplicates rest ≡ false
    distinct =
        has_duplicates-take config.max_asset_hosts sorted
          (has_duplicates-sort_by others (has_duplicates-keep root hosts v.distinct))

abbrev pub recorded_host : RobotsRecord → String
recorded_host r = r.host

module _ {World : Type 0} (web : Web World) where
  abbrev pub netlocs : List String → List String
  netlocs assets = map (λ asset. (web.urlsplit asset).netloc) assets

  -- The hosts of the asset URLs of the pages.
  abbrev pub asset_netlocs : List Page → List String
  asset_netlocs [] = []
  asset_netlocs (p ∷ ps) = netlocs p.links.asset_urls ++ asset_netlocs ps

  contains-asset_netlocs :
      (ps : List Page) (p : Page) (k : String)
      → contains (asset_netlocs (ps ++ p ∷ [])) k
        ≡ (contains (asset_netlocs ps) k || contains (netlocs p.links.asset_urls) k)
  contains-asset_netlocs [] p k = ground (arith, contains-append (netlocs p.links.asset_urls) [] k)
  contains-asset_netlocs (q ∷ qs) p k = ground (
    arith,
    contains-asset_netlocs qs p k,
    contains-append (netlocs q.links.asset_urls) (asset_netlocs (qs ++ p ∷ [])) k,
    contains-append (netlocs q.links.asset_urls) (asset_netlocs qs) k,
  )

  contains-add_hosts :
      (hosts assets : List String) (k : String)
      → contains (add_hosts web hosts assets) k
        ≡ (contains hosts k || (not (k == "") && contains (netlocs assets) k))
  contains-add_hosts hosts [] k = ground arith
  contains-add_hosts hosts (asset ∷ assets) k =
      let netloc = (web.urlsplit asset).netloc in
      ground (
        arith,
        contains-add_hosts (add_host hosts netloc) assets k,
        contains-add_host hosts netloc k,
      )

  has_duplicates-add_hosts :
      (hosts assets : List String)
      → has_duplicates hosts ≡ false
      → has_duplicates (add_hosts web hosts assets) ≡ false
  has_duplicates-add_hosts hosts [] h = h
  has_duplicates-add_hosts hosts (asset ∷ assets) h =
      has_duplicates-add_hosts (add_host hosts (web.urlsplit asset).netloc) assets
        (has_duplicates-add_host hosts (web.urlsplit asset).netloc h)

  module _ (config : CrawlConfig) (local : String → Bool) where
    abbrev Found : Crawl World → Type 0
    Found c = IsSetOf (asset_netlocs c.pages) c.asset_hosts

    add_page-Found :
        (url : String) (depth : ℕ) (links : Links) (c : Crawl World)
        → Found c
        → Found (add_page web config local url depth links c)
    unfolding add_page
    add_page-Found url depth links c v = record {
      same = λ h. ground (
        arith,
        v.same h,
        contains-add_hosts c.asset_hosts links.asset_urls h,
        contains-asset_netlocs c.pages
            (record { requested_url = url; depth = depth; links = links }) h,
      );
      distinct = has_duplicates-add_hosts c.asset_hosts links.asset_urls v.distinct;
    }

    crawl_url-Found :
        (url : String) (depth : ℕ) (c : Crawl World)
        → Found c
        → Found (crawl_url web config local url depth c)
    unfolding crawl_url
    crawl_url-Found url depth c v = elim (Result-cases (web.fetch c.world url depth).0) [
      | inl (links, e) ↦
          rw (e, crawl_url)
            (add_page-Found url depth links (record c { world = (web.fetch c.world url depth).1 })
              (record { same = v.same; distinct = v.distinct }))
      | inr (x, e) ↦ rw (e, crawl_url) (record { same = v.same; distinct = v.distinct })
    ]

    turn-Found :
        (fuel : ℕ) (queue : List (String × ℕ)) (c : Crawl World)
        → ((d : Crawl World) → Found d → Found (crawl_loop web config local fuel d))
        → Found c
        → Found (crawl_loop web config local (suc fuel) (record c { queue = queue }))
    unfolding crawl_loop
    turn-Found fuel [] c ih v = v
    turn-Found fuel ((url, depth) ∷ queue) c ih v =
        elim (Bool-cases (ltb (length c.pages) config.max_urls)) [
          | inl room ↦ rw room (
              ih (crawl_url web config local url depth (record c { queue = queue }))
                (crawl_url-Found url depth (record c { queue = queue }) v))
          | inr full ↦ rw full v
        ]

    pub crawl_loop-Found :
        (fuel : ℕ) (c : Crawl World) → Found c → Found (crawl_loop web config local fuel c)
    crawl_loop-Found zero c v = unfold crawl_loop in v
    crawl_loop-Found (suc fuel) c v = turn-Found fuel c.queue c (crawl_loop-Found fuel) v

  robots_record-host :
      (scheme host : String) (world : World) → (robots_record web scheme host world).0.host ≡ host
  unfolding robots_record
  robots_record-host scheme host world =
      elim (Result-cases
        (web.fetch_text world (
          web.urlunsplit (record {
            scheme = scheme;
            netloc = host;
            path = "/robots.txt";
            query = "";
            hostname = none;
          }))).0) [
            | inr (e, h) ↦ rw (h, robots_record) refl
            | inl (text, h) ↦
                rw (h, robots_record)
                  (elim (Result-cases (parse_robots text)) [
                    | inr (e, k) ↦ rw k refl
                    | inl (file, k) ↦ rw k refl
                  ])
          ]

  pub robots_records-host :
      (scheme : String) (hosts : List String) (world : World)
      → map recorded_host (robots_records web scheme hosts world) ≡ hosts
  unfolding robots_records
  robots_records-host scheme [] world = refl
  robots_records-host scheme (host ∷ hosts) world =
      rw
        (
          robots_record-host scheme host world,
          robots_records-host scheme hosts (robots_record web scheme host world).1,
        )
        refl
