-- ===== src/Network/Public.antt =====
-- What a URL that was validated is, and what its host was resolved to.
use world_class_seo_agent_sy.Prelude.{
  ◌≡◌, refl, inl, inr, ℕ, ◌≤◌, Bool, true, false, not, ◌||◌, ltb, ltb→le, String, Option, none,
  some, List, [], ◌∷◌, length, is_empty, contains, Result, ok, err, ◌>>◌, raise_if, ◌==◌, All,
  Ensures, Ensures-bind, Ensures-any, Ensures-ok, Ensures-map, Bool-cases, Option-cases,
  Result-cases, arith, ap,
}
use world_class_seo_agent_sy.Prelude.Strings.{occurs}
use world_class_seo_agent_sy.Graph.Build.{dedupe}
use world_class_seo_agent_sy.Network.Queries.{Address, Libraries, query_contains_credentials}
use world_class_seo_agent_sy.Network.Addresses.{
  UrlRefusal, Destination, Target, is_allowed_port, is_refused_port, effective_port, destination_of,
  numeric_destination, numeric_destinations, vetted, parse_target, checked_target, canonical_url,
  vetted_infos, resolve_public_addresses, resolved_url, validate_public_url,
}

-- A test that did not raise.
Ensures-raise {ℓ κ} :
    {E : Type ℓ} {B : Type κ} (P : B → Type 0) (test : Bool) (e : E) (m : Result E B)
    → (test ≡ false → Ensures P (λ e. Unit {0}) m)
    → Ensures P (λ e. Unit {0}) (raise_if test e >> m)
Ensures-raise P true e m h = tt
Ensures-raise P false e m h = h refl

module _ (libraries : Libraries) where
  open libraries use {ip_address}

  -- The destination is an address that is globally routable.
  pub record IsGlobal (port : ℕ) (d : Destination) : Type 0 where
    pub text : String
    pub address : Address
    pub parses : ip_address text ≡ some address
    pub global : address.is_global ≡ true
    pub same : d.address ≡ address.compressed
    pub port_kept : d.port ≡ port

  -- The whole set of addresses of a host has been vetted.
  pub record IsVetted (port : ℕ) (ds : List Destination) : Type 0 where
    pub allowed : is_allowed_port port ≡ true
    pub some_address : is_empty ds ≡ false
    pub bounded : length ds ≤ 16
    pub global : All (IsGlobal port) ds

  numeric-IsGlobal :
      (address : String) (port : ℕ)
      → Ensures (IsGlobal port) (λ e. Unit {0}) (numeric_destination libraries address port)
  unfolding numeric_destination
  numeric-IsGlobal address port = elim (Option-cases (ip_address address)) [
    | inl e ↦ rw (e, numeric_destination) tt
    | inr (resolved, e) ↦ rw (e, numeric_destination) (of_address resolved e)
  ]
    where
      of_address :
          (resolved : Address)
          → ip_address address ≡ some resolved
          → Ensures (IsGlobal port) (λ e. Unit {0}) (destination_of libraries address port resolved)
      of_address resolved e = elim (Bool-cases (not resolved.is_global || occurs "%" address)) [
        | inl u ↦ rw u tt
        | inr u ↦ rw u (record {
          text = address;
          address = resolved;
          parses = e;
          global = ground (arith, u);
          same = refl;
          port_kept = refl;
        })
      ]

  -- As many destinations as addresses, all of them global.
  abbrev AllGlobal : ℕ → List String → List Destination → Type 0
  AllGlobal port addresses ds = All (IsGlobal port) ds × (length ds ≡ length addresses)

  numeric-AllGlobal :
      (port : ℕ) (addresses : List String)
      → Ensures
          (AllGlobal port addresses)
          (λ e. Unit {0})
          (numeric_destinations libraries port addresses)
  unfolding numeric_destinations
  numeric-AllGlobal port [] = (tt, refl)
  numeric-AllGlobal port (address ∷ addresses) =
      Ensures-bind (IsGlobal port) (AllGlobal port (address ∷ addresses)) (λ e. Unit {0})
        (numeric_destination libraries address port) _ (numeric-IsGlobal address port)
        (λ d g.
          Ensures-bind (AllGlobal port addresses) (AllGlobal port (address ∷ addresses))
            (λ e. Unit {0}) (numeric_destinations libraries port addresses) _
            (numeric-AllGlobal port addresses) (λ ds h. ((g, h.0), ground (arith, h.1))))

  vetted-IsVetted :
      (port : ℕ) (addresses : List String)
      → is_allowed_port port ≡ true
      → Ensures (IsVetted port) (λ e. Unit {0}) (vetted libraries port addresses)
  unfolding numeric_destinations
  vetted-IsVetted port addresses allowed =
      Ensures-raise (IsVetted port) (is_empty addresses) UrlRefusal.no_addresses _ (λ full.
        Ensures-raise (IsVetted port) (ltb 16 (length addresses)) UrlRefusal.too_many_addresses _
          (λ few.
            Ensures-map (AllGlobal port addresses) (IsVetted port) (λ e. Unit {0})
              (λ ds h. record {
                allowed = allowed;
                some_address = nonempty ds addresses h.1 full;
                bounded = rw h.1 (ltb→le 16 (length addresses) few);
                global = h.0;
              })
              (numeric_destinations libraries port addresses) (numeric-AllGlobal port addresses)))
    where
      nonempty :
          (ds : List Destination) (addresses : List String)
          → length ds ≡ length addresses
          → is_empty addresses ≡ false
          → is_empty ds ≡ false
      nonempty ds addresses e full = ground (arith, e, full)

  -- A target without the hazards that its text shows.
  pub record IsSafeTarget (t : Target) : Type 0 where
    pub web : contains ("http" ∷ "https" ∷ []) t.scheme ≡ true
    pub hosted : (t.host == "") ≡ false
    pub no_username : (t.parsed.username == "") ≡ true
    pub no_password : (t.parsed.password == "") ≡ true
    pub port : is_refused_port t.port ≡ false
    pub query : query_contains_credentials libraries t.parsed.query ≡ false

  checked-IsSafeTarget :
      (url : String) → Ensures IsSafeTarget (λ e. Unit {0}) (checked_target libraries url)
  unfolding checked_target
  checked-IsSafeTarget url =
      Ensures-bind (λ t. Unit {0}) IsSafeTarget (λ e. Unit {0}) (parse_target libraries url) _
        (Ensures-any _)
        (λ t u.
          let clean = query_contains_credentials libraries t.parsed.query in
          let last = raise_if clean UrlRefusal.credential_query >> ok t in
          let ports = raise_if (is_refused_port t.port) UrlRefusal.port_not_allowed >> last in
          let named = not (t.parsed.username == "") || not (t.parsed.password == "") in
          Ensures-raise IsSafeTarget
            (not (contains ("http" ∷ "https" ∷ []) t.scheme) || t.host == "") UrlRefusal.not_http
            (raise_if named UrlRefusal.has_userinfo >> ports)
            (λ web. Ensures-raise IsSafeTarget named UrlRefusal.has_userinfo ports (λ user.
              Ensures-raise IsSafeTarget (is_refused_port t.port) UrlRefusal.port_not_allowed last
                (λ port.
                  Ensures-raise IsSafeTarget clean UrlRefusal.credential_query (ok t) (λ query.
                    record {
                      web = ground (arith, web);
                      hosted = ground (arith, web);
                      no_username = ground (arith, user);
                      no_password = ground (arith, user);
                      port = port;
                      query = query;
                    })))))

  module _ {World : Type 0}
      (resolver : String → ℕ → World → Result UrlRefusal (Option (List String)) × World) where
    infos-IsVetted :
        (port : ℕ) (answer : Result UrlRefusal (Option (List String)) × World)
        → is_allowed_port port ≡ true
        → Ensures (IsVetted port) (λ e. Unit {0}) (vetted_infos libraries resolver port answer).0
    infos-IsVetted port (err e, w) allowed = tt
    infos-IsVetted port (ok none, w) allowed = tt
    infos-IsVetted port (ok (some infos), w) allowed = vetted-IsVetted port (dedupe infos) allowed

    -- Whatever a resolver answers, a host is resolved to at least one and at most 16 destinations, all
    -- of them numeric and globally routable, on the given port, which is 80 or 443; or it is refused.
    pub resolve_public_addresses-IsVetted :
        (host : String) (port : ℕ) (w : World)
        → Ensures
            (IsVetted port)
            (λ e. Unit {0})
            (resolve_public_addresses libraries resolver host port w).0
    unfolding resolve_public_addresses
    resolve_public_addresses-IsVetted host port w = elim (Bool-cases (is_allowed_port port)) [
      | inr refused ↦ rw refused tt
      | inl allowed ↦ rw allowed (elim (Option-cases (ip_address host)) [
        | inl e ↦ rw e (infos-IsVetted port (resolver host port w) allowed)
        | inr (literal, e) ↦ rw e (vetted-IsVetted port (literal.compressed ∷ []) allowed)
      ])
    ]

    -- The URL that is returned, with what stands behind it.
    pub record IsPublicUrl (url : String) (w : World) (safe : String) : Type 0 where
      pub target : Target
      pub checked : checked_target libraries url ≡ ok target
      pub is_safe : IsSafeTarget target
      pub destinations : List Destination
      pub resolves :
          (resolve_public_addresses libraries resolver target.host (effective_port target) w).0
          ≡ ok destinations
      pub public : IsVetted (effective_port target) destinations
      pub written : safe ≡ canonical_url libraries target

    -- A URL is returned only in its canonical form, for a target over HTTP or HTTPS with a host, no
    -- user name, password or credential in the query, on port 80 or 443, and whose host was
    -- resolved to globally routable addresses alone.
    pub validate_public_url-IsPublicUrl :
        (url : String) (w : World)
        → Ensures
            (IsPublicUrl url w)
            (λ e. Unit {0})
            (validate_public_url libraries resolver url w).0
    unfolding validate_public_url
    validate_public_url-IsPublicUrl url w = elim (Result-cases (checked_target libraries url)) [
      | inr (e, h) ↦ rw (h, validate_public_url) tt
      | inl (t, h) ↦
          rw (h, validate_public_url)
            (of_resolved t h
              (resolve_public_addresses libraries resolver t.host (effective_port t) w) refl)
    ]
      where
        of_resolved :
            (t : Target)
            → checked_target libraries url ≡ ok t
            → (answer : Result UrlRefusal (List Destination) × World)
            → resolve_public_addresses libraries resolver t.host (effective_port t) w ≡ answer
            → Ensures
                (IsPublicUrl url w)
                (λ e. Unit {0})
                (resolved_url libraries resolver t answer).0
        of_resolved t h (err e, after) r = tt
        of_resolved t h (ok ds, after) r = record {
          target = t;
          checked = h;
          is_safe =
              Ensures-ok IsSafeTarget (λ e. Unit {0}) (checked_target libraries url) t h
                (checked-IsSafeTarget url);
          destinations = ds;
          resolves = ap (λ x. x.0) r;
          public =
              Ensures-ok (IsVetted (effective_port t)) (λ e. Unit {0}) _ ds (ap (λ x. x.0) r)
                (resolve_public_addresses-IsVetted t.host (effective_port t) w);
          written = refl;
        }
