-- ===== src/Network/Redirects.antt =====
-- `BoundedHttpClient.redirect_chain` of integrations/technical/http.py, with the hops as they are
-- before they are sanitised for the report.
use world_class_seo_agent_sy.Prelude.{
  ℕ, zero, suc, ◌+◌, Bool, true, false, not, ◌||◌, ltb, String, Option, none, some, List, [], ◌∷◌,
  ◌++◌, contains, Result, ok, err, ◌==◌, if◌then◌else◌,
}
use world_class_seo_agent_sy.Network.Queries.{Libraries}
use world_class_seo_agent_sy.Network.Addresses.{UrlRefusal, validate_public_url}
use world_class_seo_agent_sy.Network.Client.{
  Response, HttpHop, HttpError, bad_limit, invalid_location, refused_url, ClientLimits,
  next_location, single_request,
}

-- The local variables of the loop; the last URL of `visited` comes first.
pub record Chain : Type 0 where
  pub hops : List HttpHop
  pub visited : List String
  pub final_url : Option String
  pub loop_detected : Bool
  pub limit_reached : Bool
  pub blocked_target : Option String

abbrev pub no_hops : Chain
no_hops = record {
  hops = [];
  visited = [];
  final_url = none;
  loop_detected = false;
  limit_reached = false;
  blocked_target = none;
}

abbrev pub is_target : Option String → Bool
is_target none = false
is_target (some target) = not (target == "")

-- Whether the state of the chain is BLOCKED.
abbrev pub is_blocked : Chain → Bool
is_blocked c = c.loop_detected || c.limit_reached || is_target c.blocked_target

abbrev pub add_hop : HttpHop → Chain → Chain
add_hop hop c = record c { hops = c.hops ++ hop ∷ []; final_url = some hop.final_url }

module _ (libraries : Libraries) {World : Type 0}
    (resolver : String → ℕ → World → Result UrlRefusal (Option (List String)) × World)
    (send : String → World → Result HttpError Response × World) (expired : World → Bool × World)
    (limits : ClientLimits) where
  abbrev pub ChainLoop : Type 0
  ChainLoop = String → Chain → World → Result HttpError Chain × World

  -- From the validation of the next URL on, and whether a round is left for it.
  abbrev pub chain_next :
      ChainLoop
      → Bool
      → String
      → Chain
      → Result UrlRefusal String × World
      → Result HttpError Chain × World
  chain_next continue more candidate c (err e, w) =
      (ok (record c { blocked_target = some candidate }), w)
  chain_next continue more candidate c (ok next, w) =
      let further = continue next c w in
      if contains c.visited next
      then (ok (record c { loop_detected = true }), w)
      else if more
      then further
      else (ok (record c { limit_reached = true }), w)

  -- From `urljoin` on.
  abbrev pub chain_joined :
      ChainLoop → Bool → Chain → Option String → World → Result HttpError Chain × World
  chain_joined continue more c none w = (err invalid_location, w)
  chain_joined continue more c (some candidate) w =
      chain_next continue more candidate c (validate_public_url libraries resolver candidate w)

  abbrev pub chain_at :
      ChainLoop → Bool → String → Chain → Option String → World → Result HttpError Chain × World
  chain_at continue more current c none w = (ok c, w)
  chain_at continue more current c (some location) w =
      chain_joined continue more c (libraries.urljoin current location) w

  abbrev pub chain_hop :
      ChainLoop
      → Bool
      → String
      → Chain
      → Result HttpError HttpHop × World
      → Result HttpError Chain × World
  chain_hop continue more current c (err e, w) = (err e, w)
  chain_hop continue more current c (ok hop, w) =
      chain_at continue more current (add_hop hop c) (next_location hop) w

  -- The loop, by the rounds that are left.
  unfoldable pub chain_loop : ℕ → ChainLoop
  unfolding validate_public_url single_request
  chain_loop zero current c w = (ok c, w)
  chain_loop (suc rounds) current c w =
      let request =
        chain_hop (chain_loop rounds) (ltb 0 rounds) current
          (record c { visited = current ∷ c.visited })
          (single_request libraries resolver send expired limits current w) in
      if contains c.visited current then (ok (record c { loop_detected = true }), w) else request

  abbrev pub chain_start : ℕ → Result UrlRefusal String × World → Result HttpError Chain × World
  chain_start limit (err e, w) = (err (refused_url e), w)
  chain_start limit (ok first, w) = chain_loop (limit + 1) first no_hops w

  unfoldable pub redirect_chain : ℕ → String → World → Result HttpError Chain × World
  unfolding chain_loop
  redirect_chain limit url w =
      if ltb 20 limit
      then (err bad_limit, w)
      else chain_start limit (validate_public_url libraries resolver url w)
