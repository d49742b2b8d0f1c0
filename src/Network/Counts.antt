-- ===== src/Network/Counts.antt =====
-- How many hosts and cached answers a classifier holds.
use world_class_seo_agent_sy.Prelude.{
  ◌≡◌, ◌∙◌, ap, inl, inr, ◌+◌, ◌≤◌, true, false, not, leb, String, List, [], ◌∷◌, length, keep,
  Bool-cases, eq_iff, eq_refl, arith,
}
use world_class_seo_agent_sy.Network.Classifier.{
  HostKey, same_key, has_key, Cache, is_cached, Classifier, cache_host,
}

abbrev uncached : Cache → List HostKey → List HostKey
uncached cache hosts = keep (λ k. not (is_cached cache k)) hosts

same_key_lem : (k l : HostKey) → same_key k l ≡ true → k ≡ l
same_key_lem (a, p) (b, q) h = ground (arith, h, eq_iff a b)

pub same_key_refl : (k : HostKey) → same_key k k ≡ true
same_key_refl (a, p) = ground (arith, eq_refl a)

length-uncached_le :
    (k : HostKey) (infos : List String) (cache : Cache) (hosts : List HostKey)
    → length (uncached ((k, infos) ∷ cache) hosts) ≤ length (uncached cache hosts)
length-uncached_le k infos cache [] = omega arith
length-uncached_le k infos cache (h ∷ hosts) =
    ground (arith, length-uncached_le k infos cache hosts)

-- A host that is cached is no longer counted.
length-uncached_lt :
    (k : HostKey) (infos : List String) (cache : Cache) (hosts : List HostKey)
    → has_key hosts k ≡ true
    → is_cached cache k ≡ false
    → 1 + length (uncached ((k, infos) ∷ cache) hosts) ≤ length (uncached cache hosts)
length-uncached_lt k infos cache [] h n = absurd (cc h)
length-uncached_lt k infos cache (host ∷ hosts) h n = elim (Bool-cases (same_key host k)) [
  | inl e ↦
      let same = same_key_lem host k e in
      let fresh : is_cached cache host ≡ false = ap (is_cached cache) same ∙ n in
      let found : same_key k host ≡ true = ap (same_key k) same ∙ same_key_refl k in
      ground (arith, fresh, found, length-uncached_le k infos cache hosts)
  | inr e ↦ ground (arith, length-uncached_lt k infos cache hosts (ground (arith, h, e)) n)
]

-- At most as many hosts as the limit, and one query at most for each of them.
pub record IsBounded (c : Classifier) : Type 0 where
  pub hosts_bound : length c.hosts ≤ c.max_hosts
  pub queries : length c.cache + length (uncached c.cache c.hosts) ≤ length c.hosts

pub cache-IsBounded :
    (k : HostKey) (infos : List String) (c : Classifier)
    → has_key c.hosts k ≡ true
    → is_cached c.cache k ≡ false
    → IsBounded c
    → IsBounded (cache_host k infos c)
cache-IsBounded k infos c known fresh b = record {
  hosts_bound = b.hosts_bound;
  queries = omega (arith, b.queries, length-uncached_lt k infos c.cache c.hosts known fresh);
}

pub host-IsBounded :
    (k : HostKey) (c : Classifier)
    → leb c.max_hosts (length c.hosts) ≡ false
    → IsBounded c
    → IsBounded (record c { hosts = k ∷ c.hosts })
host-IsBounded k c room b = record {
  hosts_bound = ground (arith, room, b.hosts_bound);
  queries = ground (arith, b.queries);
}
