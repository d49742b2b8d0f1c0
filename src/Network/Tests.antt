-- ===== src/Network/Tests.antt =====
-- Requests to two hosts: a.test has a public address, b.test has a private one as well.
use world_class_seo_agent_sy.Prelude.{
  ◌≡◌, refl, ℕ, ◌+◌, ◌≤◌, Bool, true, false, String, Option, none, some, List, [], ◌∷◌, length,
  Result, ok, err, Ensures, ◌==◌, if◌then◌else◌,
}
use world_class_seo_agent_sy.Prelude.Strings.{blank, lower, occurs}
use world_class_seo_agent_sy.Prelude.Lines.{strip}
use world_class_seo_agent_sy.Graph.Build.{dedupe_from}
use world_class_seo_agent_sy.Tools.Dots.{without_dots}
use world_class_seo_agent_sy.Network.Queries.{
  Address, SplitUrl, Libraries, alnum_only, split_char, before_char, decoded_name,
  sensitive_query_key, query_contains_credentials,
}
use world_class_seo_agent_sy.Network.Addresses.{
  UrlRefusal, numeric_destination, numeric_destinations, checked_target, parse_target,
  canonical_url, resolve_public_addresses, validate_public_url,
}
use world_class_seo_agent_sy.Network.Public.{IsPublicUrl, validate_public_url-IsPublicUrl}
use world_class_seo_agent_sy.Network.Classifier.{Classifier, new_classifier, classify_all}
use world_class_seo_agent_sy.Network.Bounds.{classify_all-bounds}
use world_class_seo_agent_sy.Network.Client.{
  undeclared, Response, HttpError, ClientLimits, single_request, get_loop, get,
}
use world_class_seo_agent_sy.Network.Redirects.{
  Chain, no_hops, is_blocked, chain_loop, redirect_chain,
}
use world_class_seo_agent_sy.Network.Chains.{IsChain, redirect_chain-IsChain}
use world_class_seo_agent_sy.Network.Hops.{IsFollowed, get-IsFollowed}

abbrev split_of : String → SplitUrl
split_of url = record {
  scheme = "HTTPS";
  username = "";
  password = "";
  hostname = if occurs "b.test" url then "b.test" else "a.test";
  port = none;
  path = if occurs "/next" url then "/next" else "";
  query = if occurs "?" url then "page=1&Api_Key=x" else "page=1";
}

abbrev address_of : String → Option Address
address_of text =
    if text == "93.184.216.34"
    then some (record { version = 4; compressed = text; is_global = true })
    else if text == "10.0.0.1"
    then some (record { version = 4; compressed = text; is_global = false })
    else none

abbrev libraries : Libraries
libraries = record {
  urlsplit = λ url. some (split_of url);
  urlunsplit =
      λ scheme netloc path query. if path == "/" then "https://a.test/" else "https://a.test/next";
  urljoin = λ base location. some location;
  idna = λ host. some host;
  ip_address = address_of;
  decode = λ key. key;
  unescape = λ query. query;
  casefold = lower;
}

-- The state counts what is asked of the network.
abbrev resolver : String → ℕ → ℕ → Result UrlRefusal (Option (List String)) × ℕ
resolver host port w = (
  ok (
      some (
        if host == "b.test"
        then "93.184.216.34" ∷ "10.0.0.1" ∷ []
        else "93.184.216.34" ∷ "93.184.216.34" ∷ [])),
  w + 1,
)

abbrev clock : ℕ → ℕ × ℕ
clock w = (w, w)

abbrev getaddrinfo : String → ℕ → ℕ → Option (List String) × ℕ
getaddrinfo host port w = (some ("93.184.216.34" ∷ []), w + 1)

abbrev send : String → ℕ → Result HttpError Response × ℕ
send url w = (
  ok (record {
    declared = undeclared;
    content = 1 ∷ 2 ∷ [];
    status = if url == "https://a.test/" then 301 else 200;
    headers = ("Location", "https://a.test/next") ∷ [];
    url = "";
  }),
  w + 1,
)

abbrev expired : ℕ → Bool × ℕ
expired w = (false, w)

abbrev limits : ClientLimits
limits = record { max_response_bytes = 2; max_redirects = 1 }

validate_tests :
    ((validate_public_url libraries resolver " https://a.test " 0).0 ≡ ok "https://a.test/")
    × ((validate_public_url libraries resolver "https://b.test" 0).0
        ≡ err (UrlRefusal.non_public "10.0.0.1"))
    × ((validate_public_url libraries resolver "https://a.test?" 0).0
        ≡ err UrlRefusal.credential_query)
unfolding validate_public_url checked_target parse_target canonical_url resolve_public_addresses
    numeric_destinations numeric_destination query_contains_credentials sensitive_query_key
    alnum_only decoded_name split_char before_char without_dots blank strip lower occurs dedupe_from
validate_tests = (refl, refl, refl)

get_tests :
    (get libraries resolver send expired limits "https://a.test" 0).visited
    ≡ "https://a.test/next" ∷ "https://a.test/" ∷ []
unfolding get get_loop single_request validate_public_url checked_target parse_target canonical_url
    resolve_public_addresses numeric_destinations numeric_destination query_contains_credentials
    sensitive_query_key alnum_only decoded_name split_char before_char without_dots blank strip
    lower occurs dedupe_from
get_tests = refl

validate_public_url-IsPublicUrl_example :
    Ensures
      (IsPublicUrl libraries resolver " https://a.test " 0)
      (λ e. Unit {0})
      (validate_public_url libraries resolver " https://a.test " 0).0
validate_public_url-IsPublicUrl_example =
    validate_public_url-IsPublicUrl libraries resolver " https://a.test " 0

classify_all-bounds_example :
    let c : Classifier =
      (classify_all clock getaddrinfo libraries
        ("https://a.test" ∷ "https://b.test" ∷ [])
        (new_classifier clock getaddrinfo 1 5 0)).0 in
    (length c.hosts ≤ 1) × (length c.cache ≤ 1)
classify_all-bounds_example =
    classify_all-bounds clock getaddrinfo libraries 1 5 ("https://a.test" ∷ "https://b.test" ∷ []) 0

get-IsFollowed_example :
    IsFollowed libraries resolver send expired limits
      (get libraries resolver send expired limits "https://a.test" 0)
get-IsFollowed_example = get-IsFollowed libraries resolver send expired limits "https://a.test" 0

abbrev chain : ℕ → Chain
chain limit =
    chain_or_none (redirect_chain libraries resolver send expired limits limit "https://a.test" 0).0
  where
    chain_or_none : Result HttpError Chain → Chain
    chain_or_none (ok c) = c
    chain_or_none (err e) = no_hops

redirect_chain_tests :
    (is_blocked (chain 1) ≡ false)
    × ((chain 1).final_url ≡ some "https://a.test/next")
    × ((chain 0).limit_reached ≡ true)
unfolding redirect_chain chain_loop single_request validate_public_url checked_target parse_target
    canonical_url resolve_public_addresses numeric_destinations numeric_destination
    query_contains_credentials sensitive_query_key alnum_only decoded_name split_char before_char
    without_dots blank strip lower occurs dedupe_from
redirect_chain_tests = (refl, refl, refl)

redirect_chain-IsChain_example :
    Ensures
      (IsChain libraries resolver send expired limits 1)
      (λ e. Unit {0})
      (redirect_chain libraries resolver send expired limits 1 "https://a.test" 0).0
redirect_chain-IsChain_example =
    redirect_chain-IsChain libraries resolver send expired limits 1 "https://a.test" 0
