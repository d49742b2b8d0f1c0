-- ===== src/Network/Bounds.antt =====
-- The bound of `PublicURLClassificationBudget` on what is asked of the network.
use world_class_seo_agent_sy.Prelude.{
  ◌≡◌, ◌∙◌, refl, sym, subst, inl, inr, ℕ, ◌≤◌, Bool, true, false, leb, String, Option, none, some,
  List, [], ◌∷◌, length, Result, ok, err, Ensures, Ensures-bind, Ensures-ok, Bool-cases,
  Option-cases, Result-cases, arith,
}
use world_class_seo_agent_sy.Network.Queries.{Libraries}
use world_class_seo_agent_sy.Network.Addresses.{
  UrlRefusal, Destination, Target, effective_port, is_allowed_port, parse_target, checked_target,
  vetted_infos, resolve_public_addresses, resolved_url, validate_public_url,
}
use world_class_seo_agent_sy.Network.Classifier.{
  HostKey, has_key, is_cached, Classifier, or_none, new_classifier, is_late, query_host, answered,
  resolve_in_time, resolve_cached, classify_target, classify_in_time, classify, classify_all,
}
use world_class_seo_agent_sy.Network.Counts.{
  IsBounded, same_key_refl, cache-IsBounded, host-IsBounded,
}

Ensures-self :
    {E : Type 0} {A : Type 0} (m : Result E A) → Ensures (λ a. m ≡ ok a) (λ e. Unit {0}) m
Ensures-self (ok a) = refl
Ensures-self (err e) = tt

ok-injective : (t u : Target) → ◌≡◌ {A = Result UrlRefusal Target} (ok t) (ok u) → t ≡ u
ok-injective t u e = cc e

checked-parse :
    (libraries : Libraries) (url : String) (t : Target)
    → checked_target libraries url ≡ ok t
    → parse_target libraries url ≡ ok t
unfolding checked_target
checked-parse libraries url t c =
    Ensures-ok (λ u. parse_target libraries url ≡ ok u) (λ e. Unit {0})
      (checked_target libraries url) t c
      (Ensures-bind (λ u. parse_target libraries url ≡ ok u)
        (λ u. parse_target libraries url ≡ ok u) (λ e. Unit {0}) (parse_target libraries url) _
        (Ensures-self (parse_target libraries url)) (λ u e. ground (arith, e)))

module _ (libraries : Libraries) {World : Type 0}
    (resolver : String → ℕ → World → Result UrlRefusal (Option (List String)) × World)
    (P : World → Type 0) where
  infos-keeps :
      (port : ℕ) (answer : Result UrlRefusal (Option (List String)) × World)
      → P answer.1
      → P (vetted_infos libraries resolver port answer).1
  infos-keeps port (err e, w) h = h
  infos-keeps port (ok none, w) h = h
  infos-keeps port (ok (some infos), w) h = h

  resolve-keeps :
      (host : String) (port : ℕ) (w : World)
      → P w
      → P (resolver host port w).1
      → P (resolve_public_addresses libraries resolver host port w).1
  unfolding resolve_public_addresses
  resolve-keeps host port w h k = elim (Bool-cases (is_allowed_port port)) [
    | inr refused ↦ rw refused h
    | inl allowed ↦ rw allowed (elim (Option-cases (libraries.ip_address host)) [
      | inl e ↦ rw (e, resolve_public_addresses) (infos-keeps port (resolver host port w) k)
      | inr (literal, e) ↦ rw (e, resolve_public_addresses) h
    ])
  ]

  resolved-keeps :
      (t : Target) (answer : Result UrlRefusal (List Destination) × World)
      → P answer.1
      → P (resolved_url libraries resolver t answer).1
  resolved-keeps t (err e, w) h = h
  resolved-keeps t (ok ds, w) h = h

  -- What the resolver keeps at the host of a URL, the validation of the URL keeps.
  validate-keeps :
      (url : String) (w : World)
      → P w
      → ((t : Target)
          → parse_target libraries url ≡ ok t
          → P (resolver t.host (effective_port t) w).1)
      → P (validate_public_url libraries resolver url w).1
  unfolding validate_public_url
  validate-keeps url w h k = elim (Result-cases (checked_target libraries url)) [
    | inr (e, c) ↦ rw (c, validate_public_url) h
    | inl (t, c) ↦
        rw (c, validate_public_url)
          (resolved-keeps t
            (resolve_public_addresses libraries resolver t.host (effective_port t) w)
            (resolve-keeps t.host (effective_port t) w h (k t (checked-parse libraries url t c))))
  ]

module _ {World : Type 0} (clock : World → ℕ × World)
    (getaddrinfo : String → ℕ → World → Option (List String) × World) where
  -- The limit of hosts is kept, and the bound with it.
  abbrev pub Kept : ℕ → Classifier × World → Type 0
  Kept limit s = IsBounded s.0 × (s.0.max_hosts ≡ limit)

  -- The host is among the hosts as well.
  abbrev Holds : ℕ → HostKey → Classifier × World → Type 0
  Holds limit k s = Kept limit s × (has_key s.0.hosts k ≡ true)

  query-Holds :
      (limit : ℕ) (k : HostKey) (s : Classifier × World)
      → Holds limit k s
      → Holds limit k (query_host clock getaddrinfo k s)
  query-Holds limit k (c, w) h = elim (Bool-cases (is_cached c.cache k)) [
    | inl e ↦ rw e h
    | inr e ↦
        rw e ((cache-IsBounded k (or_none (getaddrinfo k.0 k.1 w).0) c h.1 e h.0.0, h.0.1), h.1)
  ]

  answered-Holds :
      (limit : ℕ) (k : HostKey) (late : Bool × (Classifier × World))
      → Holds limit k late.1
      → Holds limit k (answered clock getaddrinfo k late).1
  answered-Holds limit k (true, s) h = h
  answered-Holds limit k (false, s) h = h

  resolve-Holds :
      (limit : ℕ) (k : HostKey) (late : Bool × (Classifier × World))
      → Holds limit k late.1
      → Holds limit k (resolve_in_time clock getaddrinfo k late).1
  resolve-Holds limit k (true, s) h = h
  resolve-Holds limit k (false, s) h =
      answered-Holds limit k (is_late clock getaddrinfo (query_host clock getaddrinfo k s))
        (query-Holds limit k s h)

  module _ (libraries : Libraries) where
    validated-Kept :
        (limit : ℕ) (url : String) (t : Target) (s : Classifier × World)
        → parse_target libraries url ≡ ok t
        → Holds limit (t.host, effective_port t) s
        → Kept limit (validate_public_url libraries (resolve_cached clock getaddrinfo) url s).1
    unfolding resolve_cached
    validated-Kept limit url t s parsed h =
        (validate-keeps libraries (resolve_cached clock getaddrinfo)
          (Holds limit (t.host, effective_port t)) url s h
          (λ u same.
            subst
              (λ v.
                Holds limit (t.host, effective_port t)
                  (resolve_cached clock getaddrinfo v.host (effective_port v) s).1)
              (ok-injective t u (sym parsed ∙ same))
              (resolve-Holds limit (t.host, effective_port t) (is_late clock getaddrinfo s) h))).0

    target-Kept :
        (limit : ℕ) (url : String) (m : Result UrlRefusal Target) (s : Classifier × World)
        → parse_target libraries url ≡ m
        → Kept limit s
        → Kept limit (classify_target clock getaddrinfo libraries url m s).1
    target-Kept limit url (err e) s parsed h = h
    target-Kept limit url (ok t) (c, w) parsed h =
        let k : HostKey = (t.host, effective_port t) in
        elim (Bool-cases (has_key c.hosts k)) [
          | inl known ↦ rw known (validated-Kept limit url t (c, w) parsed (h, known))
          | inr new ↦ rw new (elim (Bool-cases (leb c.max_hosts (length c.hosts))) [
            | inl full ↦ rw full h
            | inr room ↦ rw room (
                validated-Kept limit url t (record c { hosts = k ∷ c.hosts }, w) parsed
                  ((host-IsBounded k c room h.0, h.1), ground (arith, same_key_refl k)))
          ])
        ]

    in_time-Kept :
        (limit : ℕ) (url : String) (late : Bool × (Classifier × World))
        → Kept limit late.1
        → Kept limit (classify_in_time clock getaddrinfo libraries url late).1
    in_time-Kept limit url (true, s) h = h
    in_time-Kept limit url (false, s) h =
        target-Kept limit url (parse_target libraries url) s refl h

    classify_all-Kept :
        (limit : ℕ) (urls : List String) (s : Classifier × World)
        → Kept limit s
        → Kept limit (classify_all clock getaddrinfo libraries urls s)
    unfolding classify_all
    classify_all-Kept limit [] s h = h
    classify_all-Kept limit (url ∷ urls) s h =
        classify_all-Kept limit urls (classify clock getaddrinfo libraries url s).1
          (in_time-Kept limit url (is_late clock getaddrinfo s) h)

    -- Whatever URLs a new classifier is given, and whatever the clock and the network do, it holds at
    -- most as many hosts as its limit, and its cache, which has an entry for each of its queries, at
    -- most as many entries.
    pub classify_all-bounds :
        (max_hosts timeout : ℕ) (urls : List String) (w : World)
        → let c =
            (classify_all clock getaddrinfo libraries urls
              (new_classifier clock getaddrinfo max_hosts timeout w)).0 in
          (length c.hosts ≤ max_hosts) × (length c.cache ≤ max_hosts)
    unfolding new_classifier
    classify_all-bounds max_hosts timeout urls w =
        let s = new_classifier clock getaddrinfo max_hosts timeout w in
        let (b, same) =
          classify_all-Kept max_hosts urls s
            (record { hosts_bound = omega arith; queries = omega arith }, refl) in
        (omega (arith, b.hosts_bound, same), omega (arith, b.queries, b.hosts_bound, same))
