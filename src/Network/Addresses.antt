-- ===== src/Network/Addresses.antt =====
-- security/url_safety.py: `resolve_public_addresses` and `validate_public_url`. A resolver returns the
-- addresses of a host, `none` for a `gaierror`, or it raises.
use Prim.Native.String.{◌++◌ as append}
use world_class_seo_agent_sy.Prelude.{
  ℕ, Bool, false, not, ◌||◌, eqb, ltb, String, Option, none, some, List, [], ◌∷◌, length, is_empty,
  contains, Result, ok, err, ◌>>=◌, ◌>>◌, raise_if, ◌==◌, if◌then◌else◌,
}
use world_class_seo_agent_sy.Prelude.Strings.{blank, lower, occurs}
use world_class_seo_agent_sy.Prelude.Numerals.{decimal}
use world_class_seo_agent_sy.Prelude.Lines.{strip}
use world_class_seo_agent_sy.Graph.Build.{dedupe}
use world_class_seo_agent_sy.Tools.Dots.{without_dots}
use world_class_seo_agent_sy.Network.Queries.{
  Address, SplitUrl, Libraries, query_contains_credentials,
}

-- The `ValueError`s by their messages; the last two are `URLClassificationLimit`s.
pub data UrlRefusal : Type 0 where
  empty_url invalid_host_or_port not_http has_userinfo port_not_allowed : UrlRefusal
  credential_query invalid_address unresolved no_addresses too_many_addresses : UrlRefusal
  non_public : String → UrlRefusal
  time_ceiling host_ceiling : UrlRefusal

-- The family of a socket and its address.
pub record Destination : Type 0 where
  pub version : ℕ
  pub address : String
  pub port : ℕ

-- What `_parse_target` returns.
pub record Target : Type 0 where
  pub parsed : SplitUrl
  pub scheme : String
  pub host : String
  pub port : Option ℕ

-- `ALLOWED_TARGET_PORTS`
abbrev pub is_allowed_port : ℕ → Bool
is_allowed_port port = eqb port 80 || eqb port 443

abbrev pub default_port : String → ℕ
default_port scheme = if scheme == "https" then 443 else 80

-- `port or (443 if scheme == "https" else 80)`
abbrev pub effective_port : Target → ℕ
effective_port t = elim t.port [
  | none ↦ default_port t.scheme
  | some port ↦ if eqb port 0 then default_port t.scheme else port
]

-- The test of a port that may be missing.
abbrev pub is_refused_port : Option ℕ → Bool
is_refused_port none = false
is_refused_port (some port) = not (is_allowed_port port)

abbrev pub netloc_of : String → Option ℕ → String → String
netloc_of scheme none display = display
netloc_of scheme (some port) display =
    if eqb port (default_port scheme) then display else append display (append ":" (decimal port))

module _ (libraries : Libraries) where
  open libraries use {urlsplit, urlunsplit, idna, ip_address}

  abbrev pub with_host : SplitUrl → Option String → Result UrlRefusal Target
  with_host parsed none = err invalid_host_or_port
  with_host parsed (some host) = ok (record {
    parsed = parsed;
    scheme = lower parsed.scheme;
    host = lower host;
    port = parsed.port;
  })

  unfoldable pub parse_target : String → Result UrlRefusal Target
  parse_target url = if blank url then err empty_url else elim (urlsplit (strip url)) [
    | none ↦ err invalid_host_or_port
    | some parsed ↦ with_host parsed (idna (without_dots parsed.hostname))
  ]

  abbrev pub destination_of : String → ℕ → Address → Result UrlRefusal Destination
  destination_of address port resolved =
      if not resolved.is_global || occurs "%" address
      then err (non_public resolved.compressed)
      else ok (record { version = resolved.version; address = resolved.compressed; port = port })

  unfoldable pub numeric_destination : String → ℕ → Result UrlRefusal Destination
  numeric_destination address port = elim (ip_address address) [
    | none ↦ err invalid_address
    | some resolved ↦ destination_of address port resolved
  ]

  unfoldable pub numeric_destinations : ℕ → List String → Result UrlRefusal (List Destination)
  unfolding numeric_destination
  numeric_destinations port [] = ok []
  numeric_destinations port (address ∷ addresses) = numeric_destination address port >>= λ d.
      numeric_destinations port addresses >>= λ ds. ok (d ∷ ds)

  abbrev pub vetted : ℕ → List String → Result UrlRefusal (List Destination)
  vetted port addresses = do
    raise_if (is_empty addresses) no_addresses
    raise_if (ltb 16 (length addresses)) too_many_addresses
    numeric_destinations port addresses

  -- The checks of `validate_public_url` before the host is resolved.
  unfoldable pub checked_target : String → Result UrlRefusal Target
  unfolding parse_target query_contains_credentials
  checked_target url = parse_target url >>= λ t. do
    raise_if (not (contains ("http" ∷ "https" ∷ []) t.scheme) || t.host == "") not_http
    raise_if (not (t.parsed.username == "") || not (t.parsed.password == "")) has_userinfo
    raise_if (is_refused_port t.port) port_not_allowed
    raise_if (query_contains_credentials libraries t.parsed.query) credential_query
    ok t

  unfoldable pub canonical_url : Target → String
  canonical_url t =
      let display = if occurs ":" t.host then append "[" (append t.host "]") else t.host in
      urlunsplit t.scheme (netloc_of t.scheme t.port display)
        (if t.parsed.path == "" then "/" else t.parsed.path) t.parsed.query

  module _ {World : Type 0}
      (resolver : String → ℕ → World → Result UrlRefusal (Option (List String)) × World) where
    abbrev pub vetted_infos :
        ℕ
        → Result UrlRefusal (Option (List String)) × World
        → Result UrlRefusal (List Destination) × World
    vetted_infos port (err e, w) = (err e, w)
    vetted_infos port (ok none, w) = (err unresolved, w)
    vetted_infos port (ok (some infos), w) = (vetted port (dedupe infos), w)

    unfoldable pub resolve_public_addresses :
        String → ℕ → World → Result UrlRefusal (List Destination) × World
    unfolding numeric_destinations
    resolve_public_addresses host port w =
        if not (is_allowed_port port) then (err port_not_allowed, w) else elim (ip_address host) [
          | some literal ↦ (vetted port (literal.compressed ∷ []), w)
          | none ↦ vetted_infos port (resolver host port w)
        ]

    abbrev pub resolved_url :
        Target → Result UrlRefusal (List Destination) × World → Result UrlRefusal String × World
    resolved_url t (err e, w) = (err e, w)
    resolved_url t (ok ds, w) = (ok (canonical_url t), w)

    unfoldable pub validate_public_url : String → World → Result UrlRefusal String × World
    unfolding checked_target canonical_url resolve_public_addresses
    validate_public_url url w = elim (checked_target url) [
      | err e ↦ (err e, w)
      | ok t ↦ resolved_url t (resolve_public_addresses t.host (effective_port t) w)
    ]
