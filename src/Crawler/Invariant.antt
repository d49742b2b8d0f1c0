-- ===== src/Crawler/Invariant.antt =====
-- What holds at each turn of the crawl.
use world_class_seo_agent_sy.Prelude.{
  ◌≡◌, ◌⊎◌, inl, inr, refl, ap, ℕ, zero, suc, ◌+◌, ◌≤◌, ◌<◌, Bool, true, false, leb, ltb, String,
  List, [], ◌∷◌, ◌++◌, map, length, length-append, contains, All, All-append, All-map, Some, ◌==◌,
  eq_refl, if◌then◌else◌, Result-cases, Bool-cases, ltb→lt, arith,
}
use world_class_seo_agent_sy.Crawler.{
  CrawlConfig, Links, Web, Page, Crawl, link_limit, add_page, crawl_url, crawl_loop, opening,
}
use world_class_seo_agent_sy.Crawler.Lists.{
  occurrences, occurrences-append, map-snoc, IsLedger, enqueue_links-IsLedger,
}

-- The first URL, or one of the host that a page a level up links to.
abbrev pub Reached : (String → Bool) → String → List Page → String → ℕ → Type 0
Reached local start pages url depth =
    (url ≡ start) × (depth ≡ 0)
    ⊎ (local url ≡ true)
      × Some (λ p. (suc p.depth ≡ depth) × (contains p.links.internal_links url ≡ true)) pages

abbrev pub Reachable : CrawlConfig → (String → Bool) → String → List Page → String × ℕ → Type 0
Reachable config local start pages q = Reached local start pages q.0 q.1 × (q.1 ≤ config.max_depth)

abbrev pub requested : Page → String
requested p = p.requested_url

abbrev pub handled : {World : Type 0} → Crawl World → String → ℕ
handled c u = occurrences u (map requested c.pages) + occurrences u c.failed

-- Every URL that was enqueued is a page, failed or waits, exactly once; the pages and those that
-- wait were reached within the depth, and neither are more than the limits.
pub record IsCrawl {World : Type 0} (config : CrawlConfig) (local : String → Bool) (start : String)
    (c : Crawl World) : Type 0 where
  pub ledger :
      IsLedger
        (handled c)
        (length c.pages + length c.failed)
        (link_limit config)
        (Reachable config local start c.pages)
        (c.enqueued, c.queue)
  pub pages : length c.pages ≤ config.max_urls
  pub reached : All (λ p. Reachable config local start c.pages (p.requested_url, p.depth)) c.pages

Some-append {ℓ} : {A : Type ℓ} (P : A → Type 0) (xs ys : List A) → Some P xs → Some P (xs ++ ys)
Some-append P [] ys h = absurd h
Some-append P (x ∷ xs) ys (inl h) = inl h
Some-append P (x ∷ xs) ys (inr h) = inr (Some-append P xs ys h)

Some-snoc {ℓ} : {A : Type ℓ} (P : A → Type 0) (xs : List A) (x : A) → P x → Some P (xs ++ x ∷ [])
Some-snoc P [] x h = inl h
Some-snoc P (y ∷ xs) x h = inr (Some-snoc P xs x h)

Reachable-append :
    (config : CrawlConfig) (local : String → Bool) (start : String) (pages more : List Page)
    (q : String × ℕ)
    → Reachable config local start pages q
    → Reachable config local start (pages ++ more) q
Reachable-append config local start pages more q (inl h, d) = (inl h, d)
Reachable-append config local start pages more q (inr h, d) =
    (inr (h.0, Some-append _ pages more h.1), d)

contains_self : (xs : List String) → All (λ x. contains xs x ≡ true) xs
contains_self [] = tt
contains_self (x ∷ xs) = (
  ground (arith, eq_refl x),
  All-map (λ y (h : contains xs y ≡ true). ground arith) xs (contains_self xs),
)

-- One URL is taken from the queue and handled.
IsLedger-pop :
    (handled handled' : String → ℕ) (count count' limit : ℕ) (Q Q' : String × ℕ → Type 0)
    (enqueued : List String) (q : String × ℕ) (queue : List (String × ℕ))
    → ((u : String) → handled' u ≡ handled u + (if q.0 == u then 1 else 0))
    → count' ≡ suc count
    → ((q' : String × ℕ) → Q q' → Q' q')
    → IsLedger handled count limit Q (enqueued, q ∷ queue)
    → IsLedger handled' count' limit Q' (enqueued, queue)
IsLedger-pop handled handled' count count' limit Q Q' enqueued q queue e n f l = record {
  counted = λ u. omega (arith, l.counted u, e u);
  once = l.once;
  total = omega (arith, l.total, n);
  bounded = l.bounded;
  waiting = All-map f queue l.waiting.1;
}

module _ {World : Type 0} (web : Web World) (config : CrawlConfig) (local : String → Bool)
    (start : String) where
  add_page-IsCrawl :
      (url : String) (depth : ℕ) (links : Links) (queue : List (String × ℕ)) (c : Crawl World)
      (world : World)
      → length c.pages < config.max_urls
      → IsCrawl config local start (record c { queue = (url, depth) ∷ queue })
      → IsCrawl config local start
          (add_page web config local url depth links (record c { queue = queue; world = world }))
  unfolding add_page
  add_page-IsCrawl url depth links queue c world room v =
      elim (Bool-cases (leb config.max_depth depth)) [
        | inl deep ↦ rw deep (record {
          ledger = popped;
          pages = omega (arith, length-append c.pages (page ∷ []), room);
          reached = reached;
        })
        | inr shallow ↦ rw shallow (record {
          ledger =
              enqueue_links-IsLedger local handled'
                (length (c.pages ++ page ∷ []) + length c.failed) (link_limit config)
                (Reachable config local start (c.pages ++ page ∷ [])) depth links.internal_links
                (c.enqueued, queue) (linked shallow) popped;
          pages = omega (arith, length-append c.pages (page ∷ []), room);
          reached = reached;
        })
      ]
    where
      page : Page
      page = record { requested_url = url; depth = depth; links = links }

      handled' : String → ℕ
      handled' u = occurrences u (map requested (c.pages ++ page ∷ [])) + occurrences u c.failed

      more :
          (q : String × ℕ)
          → Reachable config local start c.pages q
          → Reachable config local start (c.pages ++ page ∷ []) q
      more q h = Reachable-append config local start c.pages (page ∷ []) q h

      linked :
          leb config.max_depth depth ≡ false
          → All
              (λ t.
                local t ≡ true → Reachable config local start (c.pages ++ page ∷ []) (t, suc depth))
              links.internal_links
      linked shallow =
          All-map {P = λ t. contains links.internal_links t ≡ true}
            (λ t h l. (inr (l, Some-snoc _ c.pages page (refl, h)), ground (arith, shallow)))
            links.internal_links (contains_self links.internal_links)

      popped :
          IsLedger handled'
            (length (c.pages ++ page ∷ []) + length c.failed)
            (link_limit config)
            (Reachable config local start (c.pages ++ page ∷ []))
            (c.enqueued, queue)
      popped =
          IsLedger-pop (handled c) handled' (length c.pages + length c.failed)
            (length (c.pages ++ page ∷ []) + length c.failed) (link_limit config)
            (Reachable config local start c.pages)
            (Reachable config local start (c.pages ++ page ∷ [])) c.enqueued (url, depth) queue
            (λ u. omega (
              arith,
              ap (occurrences u) (map-snoc requested c.pages page),
              occurrences-append u (map requested c.pages) (url ∷ []),
            ))
            (omega (arith, length-append c.pages (page ∷ []))) more v.ledger

      reached :
          All
            (λ p. Reachable config local start (c.pages ++ page ∷ []) (p.requested_url, p.depth))
            (c.pages ++ page ∷ [])
      reached =
          All-append _ c.pages (page ∷ [])
            (All-map
              (λ p (h : Reachable config local start c.pages (p.requested_url, p.depth)).
                more (p.requested_url, p.depth) h)
              c.pages v.reached)
            (more (url, depth) v.ledger.waiting.0, tt)

  pub crawl_url-IsCrawl :
      (url : String) (depth : ℕ) (queue : List (String × ℕ)) (c : Crawl World)
      → length c.pages < config.max_urls
      → IsCrawl config local start (record c { queue = (url, depth) ∷ queue })
      → IsCrawl config local start
          (crawl_url web config local url depth (record c { queue = queue }))
  unfolding crawl_url
  crawl_url-IsCrawl url depth queue c room v = elim (Result-cases (web.fetch c.world url depth).0) [
    | inl (links, e) ↦
        rw (e, crawl_url)
          (add_page-IsCrawl url depth links queue c (web.fetch c.world url depth).1 room v)
    | inr (x, e) ↦
        rw (e, crawl_url)
          (record {
            ledger =
                IsLedger-pop (handled c)
                  (λ u.
                    occurrences u (map requested c.pages) + occurrences u (c.failed ++ url ∷ []))
                  (length c.pages + length c.failed)
                  (length c.pages + length (c.failed ++ url ∷ [])) (link_limit config)
                  (Reachable config local start c.pages) (Reachable config local start c.pages)
                  c.enqueued (url, depth) queue
                  (λ u. omega (arith, occurrences-append u c.failed (url ∷ [])))
                  (omega (arith, length-append c.failed (url ∷ []))) (λ q h. h) v.ledger;
            pages = v.pages;
            reached = v.reached;
          })
  ]

  turn-IsCrawl :
      (fuel : ℕ) (queue : List (String × ℕ)) (c : Crawl World)
      → ((d : Crawl World)
          → IsCrawl config local start d
          → IsCrawl config local start (crawl_loop web config local fuel d))
      → IsCrawl config local start (record c { queue = queue })
      → IsCrawl config local start
          (crawl_loop web config local (suc fuel) (record c { queue = queue }))
  unfolding crawl_loop
  turn-IsCrawl fuel [] c ih v = v
  turn-IsCrawl fuel ((url, depth) ∷ queue) c ih v =
      elim (Bool-cases (ltb (length c.pages) config.max_urls)) [
        | inl room ↦ rw room (
            ih (crawl_url web config local url depth (record c { queue = queue })) (
              crawl_url-IsCrawl url depth queue c (ltb→lt (length c.pages) config.max_urls room) v))
        | inr full ↦ rw full v
      ]

  pub crawl_loop-IsCrawl :
      (fuel : ℕ) (c : Crawl World)
      → IsCrawl config local start c
      → IsCrawl config local start (crawl_loop web config local fuel c)
  crawl_loop-IsCrawl zero c v = unfold crawl_loop in v
  crawl_loop-IsCrawl (suc fuel) c v = turn-IsCrawl fuel c.queue c (crawl_loop-IsCrawl fuel) v

  pub opening-IsCrawl :
      (world : World) → 1 ≤ config.max_urls → IsCrawl config local start (opening web start world)
  opening-IsCrawl world h = record {
    ledger = record {
      counted = λ u. omega arith;
      once = λ u. ground arith;
      total = omega arith;
      bounded = omega (arith, h);
      waiting = ((inl (refl, refl), omega arith), tt);
    };
    pages = omega arith;
    reached = tt;
  }
