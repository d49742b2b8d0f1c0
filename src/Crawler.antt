-- ===== src/Crawler.antt =====
-- integrations/product_proof/crawler.py: the crawl of one host within its limits. What `_page`
-- reads from the network is the parameter `fetch` of `Web`, which passes on a state for all that it
-- changes; `urlsplit`, `urlunsplit` and the validator of the first URL are parameters too.
pub mod Lists
pub mod Invariant
pub mod Complete
pub mod Ends
mod Texts
pub mod Hosts
pub mod Laws
mod Tests
use world_class_seo_agent_sy.Prelude.{
  ℕ, zero, suc, ◌+◌, ◌*◌, Bool, true, false, not, ◌&&◌, ◌||◌, ltb, leb, String, List, [], ◌∷◌, ◌++◌,
  keep, length, take, is_empty, contains, sort_by, Option, none, some, Result, ok, err, ◌>>=◌, ◌>>◌,
  raise_if, ◌==◌, if◌then◌else◌,
}
use world_class_seo_agent_sy.Prelude.Strings.{lower}
use world_class_seo_agent_sy.UrlBudget.{UrlError, check_url_length, CrawlState, crawl_data_state}
use world_class_seo_agent_sy.Robots.Policy.{Group}
use world_class_seo_agent_sy.Robots.Parse.{RobotsFile, parse_robots}

pub record CrawlConfig : Type 0 where
  pub max_urls : ℕ
  pub max_depth : ℕ
  pub max_asset_hosts : ℕ

pub data CrawlError : Type 0 where
  bad_max_urls bad_max_depth bad_max_asset_hosts invalid_url long_url : CrawlError

-- `__post_init__`, for the limits that the crawl reads.
unfoldable pub check_config : CrawlConfig → Result CrawlError CrawlConfig
check_config config = do
  raise_if (not (leb 1 config.max_urls && leb config.max_urls 10000)) bad_max_urls
  raise_if (not (leb config.max_depth 20)) bad_max_depth
  raise_if (not (leb config.max_asset_hosts 50)) bad_max_asset_hosts
  ok config

pub record SplitUrl : Type 0 where
  pub scheme : String
  pub netloc : String
  pub path : String
  pub query : String
  pub hostname : Option String

-- What the crawl reads of a page.
pub record Links : Type 0 where
  pub internal_links : List String
  pub asset_urls : List String

pub record Web (World : Type 0) : Type 0 where
  -- `urlsplit` does not raise a ValueError.
  pub is_splittable : String → Bool
  pub urlsplit : String → SplitUrl
  pub urlunsplit : SplitUrl → String
  pub validate_url : String → Option String
  pub fetch : World → String → ℕ → Result String Links × World
  pub fetch_text : World → String → Result String String × World

pub record Page : Type 0 where
  pub requested_url : String
  pub depth : ℕ
  pub links : Links

pub record RobotsRecord : Type 0 where
  pub host : String
  pub groups : List Group
  pub sitemaps : List String
  pub unknown_directives : List String
  pub failed : Bool

-- The local variables of `crawl`.
pub record Crawl (World : Type 0) : Type 0 where
  pub queue : List (String × ℕ)
  pub enqueued : List String
  pub pages : List Page
  pub failed : List String
  pub asset_hosts : List String
  pub world : World

pub record CrawlEvidence (World : Type 0) : Type 0 where
  pub start_url : String
  pub crawl : Crawl World
  pub robots : List RobotsRecord
  pub truncated : Bool
  pub data_state : CrawlState

abbrev pub link_limit : CrawlConfig → ℕ
link_limit config = config.max_urls * 5

abbrev pub same_text : Option String → String → Bool
same_text none b = false
same_text (some a) b = a == b

-- `enqueued` and `queue` after one link of a page at `depth`.
unfoldable pub enqueue_link :
    (String → Bool)
    → ℕ
    → ℕ
    → String
    → List String × List (String × ℕ)
    → List String × List (String × ℕ)
enqueue_link is_local limit depth target lists =
    if is_local target && (not (contains lists.0 target) && ltb (length lists.0) limit)
    then (lists.0 ++ target ∷ [], lists.1 ++ (target, suc depth) ∷ [])
    else lists

unfoldable pub enqueue_links :
    (String → Bool)
    → ℕ
    → ℕ
    → List String
    → List String × List (String × ℕ)
    → List String × List (String × ℕ)
enqueue_links is_local limit depth [] lists = lists
enqueue_links is_local limit depth (target ∷ targets) lists =
    enqueue_links is_local limit depth targets (enqueue_link is_local limit depth target lists)

abbrev pub add_host : List String → String → List String
add_host hosts host = if host == "" || contains hosts host then hosts else hosts ++ host ∷ []

abbrev pub host_or_empty : Option String → String
host_or_empty none = ""
host_or_empty (some host) = host

abbrev pub unread : String → RobotsRecord
unread host = record {
  host = host;
  groups = [];
  sitemaps = [];
  unknown_directives = [];
  failed = true;
}

-- `[root_netloc] + sorted(asset_hosts - {root_netloc})[:max_asset_hosts]`
unfoldable pub robots_hosts : CrawlConfig → String → List String → List String
robots_hosts config root_netloc hosts =
    root_netloc
    ∷ take config.max_asset_hosts (sort_by (λ x. x) (keep (λ h. not (h == root_netloc)) hosts))

module _ {World : Type 0} (web : Web World) where
  open web use {is_splittable, urlsplit, urlunsplit, validate_url, fetch, fetch_text}

  -- `_normalized`
  unfoldable pub normalized : String → Result CrawlError String
  normalized url =
      let parts = urlsplit url in
      let path = if parts.path == "" then "/" else parts.path in
      elim (check_url_length url) [
        | err e ↦ err long_url
        | ok u ↦
            if is_splittable url
            then ok (
                urlunsplit (record parts {
                  scheme = lower parts.scheme;
                  netloc = lower parts.netloc;
                  path = path;
                }))
            else err invalid_url
      ]

  abbrev pub is_local : String → String → String → Bool
  is_local root_host root_netloc target =
      same_text (urlsplit target).hostname root_host && (urlsplit target).netloc == root_netloc

  abbrev pub add_hosts : List String → List String → List String
  add_hosts hosts [] = hosts
  add_hosts hosts (asset ∷ assets) = add_hosts (add_host hosts (urlsplit asset).netloc) assets

  module _ (config : CrawlConfig) (local : String → Bool) where
    -- The part of the loop after a page was read.
    unfoldable pub add_page : String → ℕ → Links → Crawl World → Crawl World
    add_page url depth links c =
        let lists =
          enqueue_links local (link_limit config) depth links.internal_links
            (c.enqueued, c.queue) in
        record c {
          pages = c.pages ++ record { requested_url = url; depth = depth; links = links } ∷ [];
          asset_hosts = add_hosts c.asset_hosts links.asset_urls;
          enqueued = if leb config.max_depth depth then c.enqueued else lists.0;
          queue = if leb config.max_depth depth then c.queue else lists.1;
        }

    -- The body of the loop, for the URL that was taken from the queue.
    unfoldable pub crawl_url : String → ℕ → Crawl World → Crawl World
    crawl_url url depth c =
        let answer = fetch c.world url depth in
        let c' = record c { world = answer.1 } in
        elim answer.0 [
          | ok links ↦ add_page url depth links c'
          | err e ↦ record c' { failed = c'.failed ++ url ∷ [] }
        ]

    -- `while queue and len(pages) < max_urls`, on fuel.
    unfoldable pub crawl_loop : ℕ → Crawl World → Crawl World
    crawl_loop zero c = c
    crawl_loop (suc fuel) c = elim c.queue [
      | [] ↦ c
      | (url, depth) ∷ queue ↦
          let later = crawl_loop fuel (crawl_url url depth (record c { queue = queue })) in
          if ltb (length c.pages) config.max_urls then later else c
    ]

  -- `_robots`
  unfoldable pub robots_record : String → String → World → RobotsRecord × World
  robots_record scheme host world =
      let url = urlunsplit (record {
        scheme = scheme;
        netloc = host;
        path = "/robots.txt";
        query = "";
        hostname = none;
      }) in
      let answer = fetch_text world url in
      elim answer.0 [
        | err e ↦ (unread host, answer.1)
        | ok text ↦ (
          elim (parse_robots text) [
            | err e ↦ unread host
            | ok file ↦ record {
              host = host;
              groups = file.groups;
              sitemaps = file.sitemaps;
              unknown_directives = file.unknown;
              failed = false;
            }
          ],
          answer.1,
        )
      ]

  unfoldable pub robots_records : String → List String → World → List RobotsRecord
  robots_records scheme [] world = []
  robots_records scheme (host ∷ hosts) world =
      let record' = robots_record scheme host world in
      record'.0 ∷ robots_records scheme hosts record'.1

  abbrev pub opening : String → World → Crawl World
  opening start world = record {
    queue = (start, 0) ∷ [];
    enqueued = start ∷ [];
    pages = [];
    failed = [];
    asset_hosts = [];
    world = world;
  }

  -- One unit of fuel for each URL that can be enqueued.
  unfoldable pub crawl_from : CrawlConfig → String → World → CrawlEvidence World
  crawl_from config start world =
      let parts = urlsplit start in
      let local = is_local (host_or_empty parts.hostname) parts.netloc in
      let c = crawl_loop config local (suc (link_limit config)) (opening start world) in
      record {
        start_url = start;
        crawl = c;
        robots =
            robots_records parts.scheme (robots_hosts config parts.netloc c.asset_hosts) c.world;
        truncated = not (is_empty c.queue) || leb config.max_urls (length c.pages);
        data_state = crawl_data_state c.pages c.failed c.queue;
      }

  unfoldable pub crawl : CrawlConfig → String → World → Result CrawlError (CrawlEvidence World)
  crawl config start_url world = elim (validate_url start_url) [
    | none ↦ err invalid_url
    | some safe ↦ normalized safe >>= λ start. ok (crawl_from config start world)
  ]
