-- ===== src/Network/Chains.antt =====
-- What a chain of redirects is.
use world_class_seo_agent_sy.Prelude.{
  ◌≡◌, ◌≢◌, refl, ap, eq_iff, inl, inr, ℕ, zero, suc, ◌+◌, ◌≤◌, Bool, true, false, ltb, ltb→lt,
  String, Option, none, some, List, [], ◌∷◌, ◌++◌, length, length-append, contains, has_duplicates,
  Result, ok, err, All, All-append, Ensures, Bool-cases, arith,
}
use world_class_seo_agent_sy.Network.Queries.{Libraries}
use world_class_seo_agent_sy.Network.Addresses.{UrlRefusal, validate_public_url}
use world_class_seo_agent_sy.Network.Client.{
  Response, HttpHop, HttpError, ClientLimits, next_location, single_request,
}
use world_class_seo_agent_sy.Network.Hops.{IsHop, single_request-IsHop}
use world_class_seo_agent_sy.Network.Redirects.{
  Chain, no_hops, is_target, is_blocked, add_hop, ChainLoop, chain_next, chain_at, chain_joined,
  chain_hop, chain_loop, chain_start, redirect_chain,
}

module _ (libraries : Libraries) {World : Type 0}
    (resolver : String → ℕ → World → Result UrlRefusal (Option (List String)) × World)
    (send : String → World → Result HttpError Response × World) (expired : World → Bool × World)
    (limits : ClientLimits) where
  -- Where a chain that is not blocked ends.
  pub record EndsAt (c : Chain) : Type 0 where
    pub before : List HttpHop
    pub last : HttpHop
    pub hops : c.hops ≡ before ++ last ∷ []
    pub final : c.final_url ≡ some last.final_url
    pub settled : next_location last ≡ none

  pub record IsChain (limit : ℕ) (c : Chain) : Type 0 where
    pub few : length c.hops ≤ limit + 1
    pub distinct : has_duplicates c.visited ≡ false
    pub one_each : length c.visited ≡ length c.hops
    pub hops : All (IsHop libraries resolver send expired limits) c.hops
    pub available : is_blocked c ≡ false → c.blocked_target ≢ some "" → EndsAt c

  -- What the loop may have reached with some rounds left.
  record IsPart (limit rounds : ℕ) (c : Chain) : Type 0 where
    few : length c.hops + rounds ≤ limit + 1
    distinct : has_duplicates c.visited ≡ false
    one_each : length c.visited ≡ length c.hops
    hops : All (IsHop libraries resolver send expired limits) c.hops

  abbrev Chains : ℕ → Result HttpError Chain × World → Type 0
  Chains limit out = Ensures (IsChain limit) (λ e. Unit {0}) out.0

  abbrev Continues : ℕ → ℕ → ChainLoop libraries resolver send expired limits → Type 0
  Continues limit rounds continue =
      (next : String) (c : Chain) (w : World)
      → 1 ≤ rounds
      → IsPart limit rounds c
      → Chains limit (continue next c w)

  blocked-IsChain :
      (limit rounds : ℕ) (c c' : Chain)
      → c'.hops ≡ c.hops
      → c'.visited ≡ c.visited
      → (is_blocked c' ≡ false → c'.blocked_target ≢ some "" → ⊥)
      → IsPart limit rounds c
      → IsChain limit c'
  blocked-IsChain limit rounds c c' same seen blocked p = record {
    few = rw same (omega (arith, p.few));
    distinct = rw seen p.distinct;
    one_each = rw (same, seen) p.one_each;
    hops = rw same p.hops;
    available = λ open' named. absurd (blocked open' named);
  }

  next-Chains :
      (limit rounds : ℕ) (continue : ChainLoop libraries resolver send expired limits)
      (candidate : String) (c : Chain) (checked : Result UrlRefusal String × World)
      → Continues limit rounds continue
      → IsPart limit rounds c
      → Chains limit (
          chain_next libraries resolver send expired limits continue
            (ltb 0 rounds)
            candidate
            c
            checked)
  next-Chains limit rounds continue candidate c (err e, w) k p =
      blocked-IsChain limit rounds c (record c { blocked_target = some candidate }) refl refl
        (λ open' named. named (ap some (named_nil candidate (ground (arith, open'))))) p
    where
      named_nil : (target : String) → is_target (some target) ≡ false → target ≡ ""
      named_nil target h = (eq_iff target "").0 (ground (arith, h))
  next-Chains limit rounds continue candidate c (ok next, w) k p =
      elim (Bool-cases (contains c.visited next)) [
        | inl seen ↦ rw seen (
            blocked-IsChain limit rounds c (record c { loop_detected = true }) refl refl
              (λ open' named. cc open') p)
        | inr new ↦ rw new (elim (Bool-cases (ltb 0 rounds)) [
          | inl more ↦ rw more (k next c w (ltb→lt 0 rounds more) p)
          | inr none_left ↦ rw none_left (
              blocked-IsChain limit rounds c (record c { limit_reached = true }) refl refl
                (λ open' named. absurd (ground (arith, open'))) p)
        ])
      ]

  joined-Chains :
      (limit rounds : ℕ) (continue : ChainLoop libraries resolver send expired limits) (c : Chain)
      (joined : Option String) (w : World)
      → Continues limit rounds continue
      → IsPart limit rounds c
      → Chains limit
          (chain_joined libraries resolver send expired limits continue (ltb 0 rounds) c joined w)
  joined-Chains limit rounds continue c none w k p = tt
  joined-Chains limit rounds continue c (some candidate) w k p =
      next-Chains limit rounds continue candidate c
        (validate_public_url libraries resolver candidate w) k p

  at-Chains :
      (limit rounds : ℕ) (continue : ChainLoop libraries resolver send expired limits)
      (current : String) (c : Chain) (location : Option String) (w : World)
      → Continues limit rounds continue
      → IsPart limit rounds c
      → (location ≡ none → EndsAt c)
      → Chains limit (
          chain_at libraries resolver send expired limits continue
            (ltb 0 rounds)
            current
            c
            location
            w)
  at-Chains limit rounds continue current c none w k p ends = record {
    few = omega (arith, p.few);
    distinct = p.distinct;
    one_each = p.one_each;
    hops = p.hops;
    available = λ open' named. ends refl;
  }
  at-Chains limit rounds continue current c (some location) w k p ends =
      joined-Chains limit rounds continue c (libraries.urljoin current location) w k p

  hop-Chains :
      (limit rounds : ℕ) (continue : ChainLoop libraries resolver send expired limits)
      (current : String) (c : Chain) (answer : Result HttpError HttpHop × World)
      → Continues limit rounds continue
      → IsPart limit (suc rounds) c
      → contains c.visited current ≡ false
      → Ensures (IsHop libraries resolver send expired limits) (λ e. Unit {0}) answer.0
      → Chains limit (
          chain_hop libraries resolver send expired limits continue
            (ltb 0 rounds)
            current
            (record c { visited = current ∷ c.visited })
            answer)
  hop-Chains limit rounds continue current c (err e, w) k p new h = tt
  hop-Chains limit rounds continue current c (ok hop, w) k p new h =
      let longer = length-append c.hops (hop ∷ []) in
      at-Chains limit rounds continue current
        (add_hop hop (record c { visited = current ∷ c.visited })) (next_location hop) w k
        (record {
          few = omega (arith, longer, p.few);
          distinct = ground (arith, new, p.distinct);
          one_each = omega (arith, longer, p.one_each);
          hops = All-append _ c.hops (hop ∷ []) p.hops (h, tt);
        })
        (λ e. record { before = c.hops; last = hop; hops = refl; final = refl; settled = e })

  loop-Chains :
      (limit rounds : ℕ)
      → Continues limit rounds (chain_loop libraries resolver send expired limits rounds)
  unfolding chain_loop
  loop-Chains limit zero current c w some_round p = absurd (omega (arith, some_round))
  loop-Chains limit (suc rounds) current c w some_round p =
      elim (Bool-cases (contains c.visited current)) [
        | inl seen ↦ rw seen (
            blocked-IsChain limit (suc rounds) c (record c { loop_detected = true }) refl refl
              (λ open' named. cc open') p)
        | inr new ↦ rw new (
            hop-Chains limit rounds (chain_loop libraries resolver send expired limits rounds)
              current c (single_request libraries resolver send expired limits current w)
              (loop-Chains limit rounds) p new
              (single_request-IsHop libraries resolver send expired limits current w))
      ]

  start-Chains :
      (limit : ℕ) (checked : Result UrlRefusal String × World)
      → Chains limit (chain_start libraries resolver send expired limits limit checked)
  start-Chains limit (err e, w) = tt
  start-Chains limit (ok first, w) =
      loop-Chains limit (limit + 1) first no_hops w (omega arith)
        (record { few = omega arith; distinct = refl; one_each = refl; hops = tt })

  -- Whatever the servers and the resolver answer, a chain of redirects that is returned has at most one
  -- hop more than its limit, one for each URL that was visited, none of them twice, all with validated
  -- URLs and a bounded body; if it is not blocked, and no redirect joined to the empty text, its last
  -- hop is the final URL and does not redirect further.
  pub redirect_chain-IsChain :
      (limit : ℕ) (url : String) (w : World)
      → Ensures
          (IsChain limit)
          (λ e. Unit {0})
          (redirect_chain libraries resolver send expired limits limit url w).0
  unfolding redirect_chain
  redirect_chain-IsChain limit url w = elim (Bool-cases (ltb 20 limit)) [
    | inl high ↦ rw high tt
    | inr fine ↦ rw fine (start-Chains limit (validate_public_url libraries resolver url w))
  ]
