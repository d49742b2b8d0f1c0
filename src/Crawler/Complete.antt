-- ===== src/Crawler/Complete.antt =====
-- Which links of the pages that were read are enqueued.
use world_class_seo_agent_sy.Prelude.{
  ◌≡◌, ◌⊎◌, inl, inr, ℕ, zero, suc, ◌+◌, ◌≤◌, ◌<◌, Bool, true, not, ◌&&◌, leb, ltb, String, List,
  [], ◌∷◌, ◌++◌, length, length-append, contains, All, All-append, All-map, eq_refl, Result-cases,
  Bool-cases, ltb→le, arith,
}
use world_class_seo_agent_sy.Crawler.{
  CrawlConfig, Links, Web, Page, Crawl, link_limit, enqueue_link, enqueue_links, add_page,
  crawl_url, crawl_loop,
}

-- The URL is enqueued, or the limit of links is reached.
abbrev pub Known : ℕ → List String → String → Type 0
Known limit enqueued t = (contains enqueued t ≡ true) ⊎ (limit ≤ length enqueued)

contains-append :
    (xs ys : List String) (t : String) → contains xs t ≡ true → contains (xs ++ ys) t ≡ true
contains-append [] ys t h = cc
contains-append (x ∷ xs) ys t h = ground (arith, contains-append xs ys t)

contains-snoc : (xs : List String) (t : String) → contains (xs ++ t ∷ []) t ≡ true
contains-snoc [] t = ground (arith, eq_refl t)
contains-snoc (x ∷ xs) t = ground (arith, contains-snoc xs t)

module _ (local : String → Bool) (limit depth : ℕ) where
  enqueue_link-Known :
      (target t : String) (lists : List String × List (String × ℕ))
      → Known limit lists.0 t
      → Known limit (enqueue_link local limit depth target lists).0 t
  unfolding enqueue_link
  enqueue_link-Known target t lists h =
      elim (Bool-cases
        (local target && (not (contains lists.0 target) && ltb (length lists.0) limit))) [
          | inl e ↦ rw e (elim h [
            | inl c ↦ inl (contains-append lists.0 (target ∷ []) t c)
            | inr l ↦ inr (omega (arith, length-append lists.0 (target ∷ []), l))
          ])
          | inr e ↦ rw e h
        ]

  enqueue_link-Known_target :
      (target : String) (lists : List String × List (String × ℕ))
      → local target ≡ true
      → Known limit (enqueue_link local limit depth target lists).0 target
  unfolding enqueue_link
  enqueue_link-Known_target target lists h =
      elim (Bool-cases
        (local target && (not (contains lists.0 target) && ltb (length lists.0) limit))) [
          | inl e ↦ rw e (inl (contains-snoc lists.0 target))
          | inr e ↦ rw e (elim (Bool-cases (contains lists.0 target)) [
            | inl c ↦ inl c
            | inr c ↦ inr (ltb→le (length lists.0) limit (ground (arith, e, c, h)))
          ])
        ]

  enqueue_links-Known :
      (targets : List String) (t : String) (lists : List String × List (String × ℕ))
      → Known limit lists.0 t
      → Known limit (enqueue_links local limit depth targets lists).0 t
  unfolding enqueue_links
  enqueue_links-Known [] t lists h = h
  enqueue_links-Known (target ∷ targets) t lists h =
      enqueue_links-Known targets t (enqueue_link local limit depth target lists)
        (enqueue_link-Known target t lists h)

  enqueue_links-All :
      (targets : List String) (lists : List String × List (String × ℕ))
      → All
          (λ t. local t ≡ true → Known limit (enqueue_links local limit depth targets lists).0 t)
          targets
  unfolding enqueue_links
  enqueue_links-All [] lists = tt
  enqueue_links-All (target ∷ targets) lists = (
    λ h.
        enqueue_links-Known targets target (enqueue_link local limit depth target lists)
          (enqueue_link-Known_target target lists h),
    enqueue_links-All targets (enqueue_link local limit depth target lists),
  )

-- The links of the pages above the greatest depth are known.
abbrev pub Covered : CrawlConfig → (String → Bool) → List String → List Page → Type 0
Covered config local enqueued pages =
    All
      (λ p.
        p.depth < config.max_depth
        → All (λ t. local t ≡ true → Known (link_limit config) enqueued t) p.links.internal_links)
      pages

module _ {World : Type 0} (web : Web World) (config : CrawlConfig) (local : String → Bool) where
  add_page-Covered :
      (url : String) (depth : ℕ) (links : Links) (c : Crawl World)
      → Covered config local c.enqueued c.pages
      → Covered config local
          (add_page web config local url depth links c).enqueued
          (add_page web config local url depth links c).pages
  unfolding add_page
  add_page-Covered url depth links c h = elim (Bool-cases (leb config.max_depth depth)) [
    | inl deep ↦ rw deep (
        All-append _ c.pages (record { requested_url = url; depth = depth; links = links } ∷ []) h
          (λ d. absurd (ground (arith, deep, d)), tt))
    | inr shallow ↦ rw shallow (
        All-append _ c.pages (record { requested_url = url; depth = depth; links = links } ∷ [])
          (later h)
          (
            λ d.
                enqueue_links-All local (link_limit config) depth links.internal_links
                  (c.enqueued, c.queue),
            tt,
          ))
  ]
    where
      later :
          Covered config local c.enqueued c.pages
          → Covered config local
              (enqueue_links local
                (link_limit config)
                depth
                links.internal_links
                (c.enqueued, c.queue)).0
              c.pages
      later g =
          All-map
            {P = λ p.
              p.depth < config.max_depth
              → All (λ t. local t ≡ true → Known (link_limit config) c.enqueued t)
                  p.links.internal_links}
            (λ p k d.
              All-map {P = λ t. local t ≡ true → Known (link_limit config) c.enqueued t}
                (λ t known l.
                  enqueue_links-Known local (link_limit config) depth links.internal_links t
                    (c.enqueued, c.queue) (known l))
                p.links.internal_links (k d))
            c.pages g

  crawl_url-Covered :
      (url : String) (depth : ℕ) (c : Crawl World)
      → Covered config local c.enqueued c.pages
      → Covered config local
          (crawl_url web config local url depth c).enqueued
          (crawl_url web config local url depth c).pages
  unfolding crawl_url
  crawl_url-Covered url depth c h = elim (Result-cases (web.fetch c.world url depth).0) [
    | inl (links, e) ↦
        rw (e, crawl_url)
          (add_page-Covered url depth links (record c { world = (web.fetch c.world url depth).1 })
            h)
    | inr (x, e) ↦ rw (e, crawl_url) h
  ]

  pub length-crawl_url :
      (url : String) (depth : ℕ) (c : Crawl World)
      → length (crawl_url web config local url depth c).pages
          + length (crawl_url web config local url depth c).failed
        ≡ suc (length c.pages + length c.failed)
  unfolding crawl_url add_page
  length-crawl_url url depth c = elim (Result-cases (web.fetch c.world url depth).0) [
    | inl (links, e) ↦
        rw (e, crawl_url)
          (omega (
            arith,
            length-append c.pages
                (record { requested_url = url; depth = depth; links = links } ∷ []),
          ))
    | inr (x, e) ↦ rw (e, crawl_url) (omega (arith, length-append c.failed (url ∷ [])))
  ]

  turn-Covered :
      (fuel : ℕ) (queue : List (String × ℕ)) (c : Crawl World)
      → ((d : Crawl World)
          → Covered config local d.enqueued d.pages
          → Covered config local
              (crawl_loop web config local fuel d).enqueued
              (crawl_loop web config local fuel d).pages)
      → Covered config local c.enqueued c.pages
      → Covered config local
          (crawl_loop web config local (suc fuel) (record c { queue = queue })).enqueued
          (crawl_loop web config local (suc fuel) (record c { queue = queue })).pages
  unfolding crawl_loop
  turn-Covered fuel [] c ih h = h
  turn-Covered fuel ((url, depth) ∷ queue) c ih h =
      elim (Bool-cases (ltb (length c.pages) config.max_urls)) [
        | inl room ↦ rw room (
            ih (crawl_url web config local url depth (record c { queue = queue }))
              (crawl_url-Covered url depth (record c { queue = queue }) h))
        | inr full ↦ rw full h
      ]

  pub crawl_loop-Covered :
      (fuel : ℕ) (c : Crawl World)
      → Covered config local c.enqueued c.pages
      → Covered config local
          (crawl_loop web config local fuel c).enqueued
          (crawl_loop web config local fuel c).pages
  crawl_loop-Covered zero c h = unfold crawl_loop in h
  crawl_loop-Covered (suc fuel) c h = turn-Covered fuel c.queue c (crawl_loop-Covered fuel) h
