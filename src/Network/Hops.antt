-- ===== src/Network/Hops.antt =====
-- What the redirects that `get` follows are.
use world_class_seo_agent_sy.Prelude.{
  ◌≡◌, refl, inl, inr, ℕ, zero, suc, ◌+◌, ◌≤◌, Bool, true, false, ltb, ltb→le, String, Option, none,
  some, List, [], ◌∷◌, length, take, contains, has_duplicates, Result, ok, err, All, Ensures,
  Ensures-map, Bool-cases, ◌==◌, arith,
}
use world_class_seo_agent_sy.Network.Queries.{Libraries}
use world_class_seo_agent_sy.Network.Addresses.{UrlRefusal, validate_public_url}
use world_class_seo_agent_sy.Network.Public.{IsPublicUrl, validate_public_url-IsPublicUrl}
use world_class_seo_agent_sy.Network.Client.{
  Response, HttpHop, HttpError, ClientLimits, length_error, next_location, hop_of, after_read,
  after_length, after_open, after_send, after_validate, single_request, Get, get_at, get_joined,
  get_next, get_hop, get_loop, get,
}

module _ (libraries : Libraries) {World : Type 0}
    (resolver : String → ℕ → World → Result UrlRefusal (Option (List String)) × World)
    (send : String → World → Result HttpError Response × World) (expired : World → Bool × World)
    (limits : ClientLimits) where
  -- A URL that some validation has returned.
  pub record WasPublic (safe : String) : Type 0 where
    pub url : String
    pub world : World
    pub public : IsPublicUrl libraries resolver url world safe

  -- A hop within the size limit, with both of its URLs validated.
  pub record IsHop (hop : HttpHop) : Type 0 where
    pub requested : WasPublic hop.requested_url
    pub final : WasPublic hop.final_url
    pub body : length hop.body ≤ limits.max_response_bytes

  valid-WasPublic :
      (url : String) (w : World)
      → Ensures WasPublic (λ e. Unit {0}) (validate_public_url libraries resolver url w).0
  valid-WasPublic url w =
      Ensures-map (IsPublicUrl libraries resolver url w) WasPublic (λ e. Unit {0})
        (λ safe p. record { url = url; world = w; public = p })
        (validate_public_url libraries resolver url w).0
        (validate_public_url-IsPublicUrl libraries resolver url w)

  hop_of-IsHop :
      (safe : String) (response : Response) (final : Result UrlRefusal String × World)
      → WasPublic safe
      → Ensures WasPublic (λ e. Unit {0}) final.0
      → length (take (limits.max_response_bytes + 1) response.content) ≤ limits.max_response_bytes
      → Ensures IsHop
          (λ e. Unit {0})
          (hop_of libraries resolver send expired limits safe response final).0
  hop_of-IsHop safe response (err e, w) s f b = tt
  hop_of-IsHop safe response (ok final, w) s f b = record { requested = s; final = f; body = b }

  read-IsHop :
      (safe : String) (response : Response) (late : Bool × World)
      → WasPublic safe
      → Ensures IsHop
          (λ e. Unit {0})
          (after_read libraries resolver send expired limits safe response late).0
  read-IsHop safe response (true, w) s = tt
  read-IsHop safe response (false, w) s =
      let body = take (limits.max_response_bytes + 1) response.content in
      elim (Bool-cases (ltb limits.max_response_bytes (length body))) [
        | inl long ↦ rw long tt
        | inr short ↦
            let fits = ltb→le limits.max_response_bytes (length body) short in
            rw short (elim (Bool-cases (response.url == "")) [
              | inl same ↦ rw same (hop_of-IsHop safe response (ok safe, w) s s fits)
              | inr moved ↦ rw moved (
                  hop_of-IsHop safe response (validate_public_url libraries resolver response.url w)
                    s (valid-WasPublic response.url w) fits)
            ])
      ]

  length-IsHop :
      (safe : String) (response : Response) (e : Option HttpError) (w : World)
      → WasPublic safe
      → Ensures IsHop
          (λ e. Unit {0})
          (after_length libraries resolver send expired limits safe response e w).0
  length-IsHop safe response (some e) w s = tt
  length-IsHop safe response none w s = read-IsHop safe response (expired w) s

  open-IsHop :
      (safe : String) (response : Response) (late : Bool × World)
      → WasPublic safe
      → Ensures IsHop
          (λ e. Unit {0})
          (after_open libraries resolver send expired limits safe response late).0
  open-IsHop safe response (true, w) s = tt
  open-IsHop safe response (false, w) s =
      length-IsHop safe response (length_error limits.max_response_bytes response.declared) w s

  send-IsHop :
      (safe : String) (answer : Result HttpError Response × World)
      → WasPublic safe
      → Ensures IsHop
          (λ e. Unit {0})
          (after_send libraries resolver send expired limits safe answer).0
  send-IsHop safe (err e, w) s = tt
  send-IsHop safe (ok response, w) s = open-IsHop safe response (expired w) s

  validate-IsHop :
      (checked : Result UrlRefusal String × World)
      → Ensures WasPublic (λ e. Unit {0}) checked.0
      → Ensures IsHop
          (λ e. Unit {0})
          (after_validate libraries resolver send expired limits checked).0
  validate-IsHop (err e, w) s = tt
  validate-IsHop (ok safe, w) s = send-IsHop safe (send safe w) s

  pub single_request-IsHop :
      (url : String) (w : World)
      → Ensures IsHop
          (λ e. Unit {0})
          (single_request libraries resolver send expired limits url w).0
  unfolding single_request
  single_request-IsHop url w =
      validate-IsHop (validate_public_url libraries resolver url w) (valid-WasPublic url w)

  -- The URLs that `get` has requested, and the hop that it returns.
  pub record IsFollowed (out : Get libraries resolver send expired limits) : Type 0 where
    pub distinct : has_duplicates out.visited ≡ false
    pub bounded : length out.visited ≤ limits.max_redirects + 1
    pub public : All WasPublic out.visited
    pub returned :
        Ensures (λ hop. IsHop hop × (next_location hop ≡ none)) (λ e. Unit {0}) out.result

  -- What may have been visited when some rounds are left.
  record IsTrail (rounds : ℕ) (visited : List String) : Type 0 where
    pub distinct : has_duplicates visited ≡ false
    pub bounded : length visited + rounds ≤ limits.max_redirects + 1
    pub public : All WasPublic visited

  trail-IsFollowed :
      (rounds : ℕ) (visited : List String) (e : HttpError) (w : World)
      → IsTrail rounds visited
      → IsFollowed (record { result = err e; visited = visited; world = w })
  trail-IsFollowed rounds visited e w t = record {
    distinct = t.distinct;
    bounded = omega (arith, t.bounded);
    public = t.public;
    returned = tt;
  }

  abbrev Continue : Type 0
  Continue = String → List String → World → Get libraries resolver send expired limits

  -- The rounds that are left keep to the promise.
  abbrev Follows : ℕ → Continue → Type 0
  Follows rounds continue =
      (next : String) (visited : List String) (w : World)
      → WasPublic next
      → IsTrail rounds visited
      → IsFollowed (continue next visited w)

  at-IsFollowed :
      (rounds : ℕ) (continue : Continue) (visited : List String)
      (checked : Result UrlRefusal String × World)
      → Follows rounds continue
      → Ensures WasPublic (λ e. Unit {0}) checked.0
      → IsTrail rounds visited
      → IsFollowed (get_at libraries resolver send expired limits continue visited checked)
  at-IsFollowed rounds continue visited (err e, w) k s t =
      trail-IsFollowed rounds visited (HttpError.refused_url e) w t
  at-IsFollowed rounds continue visited (ok next, w) k s t = k next visited w s t

  joined-IsFollowed :
      (rounds : ℕ) (continue : Continue) (visited : List String) (joined : Option String)
      (w : World)
      → Follows rounds continue
      → IsTrail rounds visited
      → IsFollowed (get_joined libraries resolver send expired limits continue visited joined w)
  joined-IsFollowed rounds continue visited none w k t =
      trail-IsFollowed rounds visited HttpError.invalid_location w t
  joined-IsFollowed rounds continue visited (some target) w k t =
      at-IsFollowed rounds continue visited (validate_public_url libraries resolver target w) k
        (valid-WasPublic target w) t

  next-IsFollowed :
      (rounds : ℕ) (current : String) (visited : List String) (hop : HttpHop)
      (location : Option String) (more : Bool) (continue : Continue) (w : World)
      → next_location hop ≡ location
      → IsHop hop
      → Follows rounds continue
      → IsTrail rounds visited
      → IsFollowed (
          get_next libraries resolver send expired limits current visited hop location more continue
            w)
  next-IsFollowed rounds current visited hop none more continue w e h k t = record {
    distinct = t.distinct;
    bounded = omega (arith, t.bounded);
    public = t.public;
    returned = (h, e);
  }
  next-IsFollowed rounds current visited hop (some location) false continue w e h k t =
      trail-IsFollowed rounds visited HttpError.too_many_redirects w t
  next-IsFollowed rounds current visited hop (some location) true continue w e h k t =
      joined-IsFollowed rounds continue visited (libraries.urljoin current location) w k t

  hop-IsFollowed :
      (rounds : ℕ) (current : String) (visited : List String) (more : Bool) (continue : Continue)
      (answer : Result HttpError HttpHop × World)
      → Ensures IsHop (λ e. Unit {0}) answer.0
      → Follows rounds continue
      → IsTrail rounds visited
      → IsFollowed
          (get_hop libraries resolver send expired limits current visited more continue answer)
  hop-IsFollowed rounds current visited more continue (err e, w) h k t =
      trail-IsFollowed rounds visited e w t
  hop-IsFollowed rounds current visited more continue (ok hop, w) h k t =
      next-IsFollowed rounds current visited hop (next_location hop) more continue w refl h k t

  loop-Follows :
      (rounds : ℕ) → Follows rounds (get_loop libraries resolver send expired limits rounds)
  unfolding get_loop
  loop-Follows zero current visited w s t =
      trail-IsFollowed zero visited HttpError.too_many_redirects w t
  loop-Follows (suc rounds) current visited w s t = elim (Bool-cases (contains visited current)) [
    | inl seen ↦ rw seen (trail-IsFollowed (suc rounds) visited HttpError.redirect_loop w t)
    | inr new ↦ rw new (
        hop-IsFollowed rounds current (current ∷ visited) (ltb 0 rounds)
          (get_loop libraries resolver send expired limits rounds)
          (single_request libraries resolver send expired limits current w)
          (single_request-IsHop current w) (loop-Follows rounds)
          (record {
            distinct = ground (arith, new, t.distinct);
            bounded = omega (arith, t.bounded);
            public = (s, t.public);
          }))
  ]

  -- Whatever the servers and the resolver answer, `get` visits at most one URL more than its limit of
  -- redirects, none of them twice, and each one as it was validated as public; a hop that it returns
  -- has a body within the limit and both of its URLs validated, and is no redirect with a location.
  pub get-IsFollowed :
      (url : String) (w : World) → IsFollowed (get libraries resolver send expired limits url w)
  unfolding get
  get-IsFollowed url w =
      at-IsFollowed (limits.max_redirects + 1)
        (get_loop libraries resolver send expired limits (limits.max_redirects + 1)) []
        (validate_public_url libraries resolver url w) (loop-Follows (limits.max_redirects + 1))
        (valid-WasPublic url w) (record { distinct = refl; bounded = omega arith; public = tt })
