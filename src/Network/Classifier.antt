-- ===== src/Network/Classifier.antt =====
-- `PublicURLClassificationBudget` of security/url_safety.py. The clock and `getaddrinfo` are
-- functions on the state `World`; a dict is the list of its entries, the last one first.
use world_class_seo_agent_sy.Prelude.{
  ℕ, ◌+◌, Bool, true, false, ◌&&◌, eqb, leb, String, Option, none, some, List, [], ◌∷◌, length, any,
  Result, ok, err, ◌==◌, if◌then◌else◌,
}
use world_class_seo_agent_sy.Network.Queries.{Libraries}
use world_class_seo_agent_sy.Network.Addresses.{
  UrlRefusal, time_ceiling, host_ceiling, Target, effective_port, parse_target, validate_public_url,
}

-- A host with a port.
abbrev pub HostKey : Type 0
HostKey = String × ℕ

abbrev pub same_key : HostKey → HostKey → Bool
same_key k l = k.0 == l.0 && eqb k.1 l.1

abbrev pub has_key : List HostKey → HostKey → Bool
has_key keys k = any (λ l. same_key l k) keys

abbrev pub Cache : Type 0
Cache = List (HostKey × List String)

abbrev pub is_cached : Cache → HostKey → Bool
is_cached cache k = any (λ entry. same_key entry.0 k) cache

-- `self.cache[key]`, for a key that is there
abbrev pub cached : Cache → HostKey → List String
cached [] k = []
cached (entry ∷ cache) k = if same_key entry.0 k then entry.1 else cached cache k

pub record Classifier : Type 0 where
  pub max_hosts : ℕ
  pub expires : ℕ
  pub hosts : List HostKey
  pub cache : Cache

abbrev pub or_none : Option (List String) → List String
or_none none = []
or_none (some infos) = infos

abbrev pub cache_host : HostKey → List String → Classifier → Classifier
cache_host k infos c = record c { cache = (k, infos) ∷ c.cache }

module _ {World : Type 0} (clock : World → ℕ × World)
    (getaddrinfo : String → ℕ → World → Option (List String) × World) where
  -- `__init__`
  unfoldable pub new_classifier : ℕ → ℕ → World → Classifier × World
  new_classifier max_hosts timeout w = (
    record { max_hosts = max_hosts; expires = (clock w).0 + timeout; hosts = []; cache = [] },
    (clock w).1,
  )

  -- Whether `_check_time` raises, and the state.
  abbrev pub is_late : Classifier × World → Bool × (Classifier × World)
  is_late (c, w) = (leb c.expires (clock w).0, (c, (clock w).1))

  abbrev pub query_host : HostKey → Classifier × World → Classifier × World
  query_host k (c, w) =
      let answer = getaddrinfo k.0 k.1 w in
      if is_cached c.cache k then (c, w) else (cache_host k (or_none answer.0) c, answer.1)

  abbrev pub answered :
      HostKey
      → Bool × (Classifier × World)
      → Result UrlRefusal (Option (List String)) × (Classifier × World)
  answered k (true, s) = (err time_ceiling, s)
  answered k (false, s) = (ok (some (cached s.0.cache k)), s)

  abbrev pub resolve_in_time :
      HostKey
      → Bool × (Classifier × World)
      → Result UrlRefusal (Option (List String)) × (Classifier × World)
  resolve_in_time k (true, s) = (err time_ceiling, s)
  resolve_in_time k (false, s) = answered k (is_late (query_host k s))

  -- `_resolve`
  unfoldable pub resolve_cached :
      String
      → ℕ
      → Classifier × World
      → Result UrlRefusal (Option (List String)) × (Classifier × World)
  resolve_cached host port s = resolve_in_time (host, port) (is_late s)

  module _ (libraries : Libraries) where
    abbrev pub classify_target :
        String
        → Result UrlRefusal Target
        → Classifier × World
        → Result UrlRefusal String × (Classifier × World)
    classify_target url (err e) s = (err e, s)
    classify_target url (ok t) (c, w) =
        let k : HostKey = (t.host, effective_port t) in
        let here : Classifier × World = (c, w) in
        let grown : Classifier × World = (record c { hosts = k ∷ c.hosts }, w) in
        let known = validate_public_url libraries resolve_cached url here in
        let admitted = validate_public_url libraries resolve_cached url grown in
        if has_key c.hosts k
        then known
        else if leb c.max_hosts (length c.hosts)
        then (err host_ceiling, here)
        else admitted

    abbrev pub classify_in_time :
        String → Bool × (Classifier × World) → Result UrlRefusal String × (Classifier × World)
    classify_in_time url (true, s) = (err time_ceiling, s)
    classify_in_time url (false, s) = classify_target url (parse_target libraries url) s

    -- `validate`
    unfoldable pub classify :
        String → Classifier × World → Result UrlRefusal String × (Classifier × World)
    unfolding validate_public_url resolve_cached parse_target
    classify url s = classify_in_time url (is_late s)

    unfoldable pub classify_all : List String → Classifier × World → Classifier × World
    unfolding classify
    classify_all [] s = s
    classify_all (url ∷ urls) s = classify_all urls (classify url s).1
