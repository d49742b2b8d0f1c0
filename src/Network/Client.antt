-- ===== src/Network/Client.antt =====
-- integrations/technical/http.py: `BoundedHttpClient`. The opener and the deadline of a request are
-- functions on the state `World`; of a response is kept what `_single_request` reads.
use world_class_seo_agent_sy.Prelude.{
  ℕ, zero, suc, ◌+◌, Bool, true, false, ◌||◌, eqb, ltb, String, Option, none, some, List, [], ◌∷◌,
  length, take, find, contains, Result, ok, err, ◌==◌, if◌then◌else◌,
}
use world_class_seo_agent_sy.Prelude.Strings.{lower}
use world_class_seo_agent_sy.Network.Queries.{Libraries}
use world_class_seo_agent_sy.Network.Addresses.{UrlRefusal, validate_public_url}

-- The value of the header Content-Length. A negative number reads as 0, which is below every limit.
pub data DeclaredLength : Type 0 where
  undeclared not_integer : DeclaredLength
  bytes : ℕ → DeclaredLength

pub record Response : Type 0 where
  pub declared : DeclaredLength
  pub content : List ℕ
  pub status : ℕ
  pub headers : List (String × String)
  pub url : String

pub record HttpHop : Type 0 where
  pub requested_url : String
  pub final_url : String
  pub status_code : ℕ
  pub headers : List (String × String)
  pub body : List ℕ

pub data HttpError : Type 0 where
  refused_url : UrlRefusal → HttpError
  transport : String → HttpError
  deadline_exceeded response_too_large invalid_length redirect_loop too_many_redirects bad_limit
        invalid_location :
      HttpError

-- The `ValueError`s: a refused URL, and the limits.
pub record ClientLimits : Type 0 where
  pub max_response_bytes : ℕ
  pub max_redirects : ℕ

-- `_REDIRECTS`
abbrev pub is_redirect : ℕ → Bool
is_redirect status =
    eqb status 301 || eqb status 302 || eqb status 303 || eqb status 307 || eqb status 308

abbrev value_of : Option (String × String) → Option String
value_of none = none
value_of (some entry) = some entry.1

-- `_header`, for a name in lower case
abbrev pub header : List (String × String) → String → Option String
header headers name = value_of (find (λ entry. lower entry.0 == name) headers)

-- The location, if the hop is a redirect that names one.
abbrev pub location_in : Bool → Option String → Option String
location_in false location = none
location_in true none = none
location_in true (some location) = if location == "" then none else some location

abbrev pub next_location : HttpHop → Option String
next_location hop = location_in (is_redirect hop.status_code) (header hop.headers "location")

abbrev pub length_error : ℕ → DeclaredLength → Option HttpError
length_error limit undeclared = none
length_error limit not_integer = some invalid_length
length_error limit (bytes n) = if ltb limit n then some response_too_large else none

module _ (libraries : Libraries) {World : Type 0}
    (resolver : String → ℕ → World → Result UrlRefusal (Option (List String)) × World)
    (send : String → World → Result HttpError Response × World) (expired : World → Bool × World)
    (limits : ClientLimits) where
  abbrev pub hop_of :
      String → Response → Result UrlRefusal String × World → Result HttpError HttpHop × World
  hop_of safe response (err e, w) = (err (refused_url e), w)
  hop_of safe response (ok final, w) = (
    ok (record {
      requested_url = safe;
      final_url = final;
      status_code = response.status;
      headers = response.headers;
      body = take (limits.max_response_bytes + 1) response.content;
    }),
    w,
  )

  -- From the second look at the deadline on.
  abbrev pub after_read : String → Response → Bool × World → Result HttpError HttpHop × World
  after_read safe response (true, w) = (err deadline_exceeded, w)
  after_read safe response (false, w) =
      let body = take (limits.max_response_bytes + 1) response.content in
      let here : Result UrlRefusal String × World = (ok safe, w) in
      if ltb limits.max_response_bytes (length body)
      then (err response_too_large, w)
      else hop_of safe response (
          if response.url == ""
          then here
          else validate_public_url libraries resolver response.url w)

  abbrev pub after_length :
      String → Response → Option HttpError → World → Result HttpError HttpHop × World
  after_length safe response (some e) w = (err e, w)
  after_length safe response none w = after_read safe response (expired w)

  -- From the first look at the deadline on.
  abbrev pub after_open : String → Response → Bool × World → Result HttpError HttpHop × World
  after_open safe response (true, w) = (err deadline_exceeded, w)
  after_open safe response (false, w) =
      after_length safe response (length_error limits.max_response_bytes response.declared) w

  abbrev pub after_send :
      String → Result HttpError Response × World → Result HttpError HttpHop × World
  after_send safe (err e, w) = (err e, w)
  after_send safe (ok response, w) = after_open safe response (expired w)

  abbrev pub after_validate : Result UrlRefusal String × World → Result HttpError HttpHop × World
  after_validate (err e, w) = (err (refused_url e), w)
  after_validate (ok safe, w) = after_send safe (send safe w)

  -- `_single_request`
  unfoldable pub single_request : String → World → Result HttpError HttpHop × World
  unfolding validate_public_url
  single_request url w = after_validate (validate_public_url libraries resolver url w)

  -- What a loop over redirects leaves: its result, the URLs in `visited`, the last one first, and the
  -- state.
  pub record Visit (R : Type 0) : Type 0 where
    pub result : R
    pub visited : List String
    pub world : World

  abbrev pub Get : Type 0
  Get = Visit (Result HttpError HttpHop)

  abbrev pub get_at :
      (String → List String → World → Get) → List String → Result UrlRefusal String × World → Get
  get_at continue visited (err e, w) = record {
    result = err (refused_url e);
    visited = visited;
    world = w;
  }
  get_at continue visited (ok next, w) = continue next visited w

  -- From `urljoin` on.
  abbrev pub get_joined :
      (String → List String → World → Get) → List String → Option String → World → Get
  get_joined continue visited none w = record {
    result = err invalid_location;
    visited = visited;
    world = w;
  }
  get_joined continue visited (some target) w =
      get_at continue visited (validate_public_url libraries resolver target w)

  -- Whether a further round of the loop is left, and what it does.
  abbrev pub get_next :
      String
      → List String
      → HttpHop
      → Option String
      → Bool
      → (String → List String → World → Get)
      → World
      → Get
  get_next current visited hop none more continue w = record {
    result = ok hop;
    visited = visited;
    world = w;
  }
  get_next current visited hop (some location) false continue w = record {
    result = err too_many_redirects;
    visited = visited;
    world = w;
  }
  get_next current visited hop (some location) true continue w =
      get_joined continue visited (libraries.urljoin current location) w

  abbrev pub get_hop :
      String
      → List String
      → Bool
      → (String → List String → World → Get)
      → Result HttpError HttpHop × World
      → Get
  get_hop current visited more continue (err e, w) = record {
    result = err e;
    visited = visited;
    world = w;
  }
  get_hop current visited more continue (ok hop, w) =
      get_next current visited hop (next_location hop) more continue w

  -- The loop of `get`, by the rounds that are left.
  unfoldable pub get_loop : ℕ → String → List String → World → Get
  unfolding validate_public_url single_request
  get_loop zero current visited w = record {
    result = err too_many_redirects;
    visited = visited;
    world = w;
  }
  get_loop (suc rounds) current visited w =
      let seen : Get = record { result = err redirect_loop; visited = visited; world = w } in
      let request =
        get_hop current (current ∷ visited) (ltb 0 rounds) (get_loop rounds)
          (single_request current w) in
      if contains visited current then seen else request

  unfoldable pub get : String → World → Get
  unfolding get_loop
  get url w =
      get_at (get_loop (limits.max_redirects + 1)) [] (validate_public_url libraries resolver url w)
