-- ===== src/Tools/Usable.antt =====
-- When a required tool has usable evidence.
use Prim.Native.String.{String}
use world_class_seo_agent_sy.Prelude.{
  ◌≡◌, ◌≢◌, ◌↔◌, ◌⊎◌, inl, inr, refl, sym, ap, ◌∙◌, keep, lookup, false≢true, ℕ, Bool, true, false,
  not, ◌&&◌, ◌||◌, List, [], ◌∷◌, any, contains, Option, none, some, Result, ok, err, ◌>>=◌,
  raise_if, Ensures, Option-cases, Bool-cases, arith,
}
use world_class_seo_agent_sy.Prelude.Strings.{blank}
use world_class_seo_agent_sy.Runner.Support.{tool_failed}
use world_class_seo_agent_sy.Tools.Contracts.{
  AdapterResult, RawResult, no_result, raw_result, ContractError, canonical_adapter_statuses,
  success_adapter_statuses, partial_adapter_statuses, missing_adapter_statuses,
  invalid_adapter_statuses, blocking_adapter_statuses, blank_or_none, validate_adapter_result,
}
use world_class_seo_agent_sy.Tools.Access.{
  ToolRequest, Surroundings, Refusal, ToolAccessRequirement, tool_access_requirements, url_refusal,
  credential_refusal, requirement_refusal, first_unsafe_url_argument, is_unset, preflight_access,
}
use world_class_seo_agent_sy.Tools.Dispatch.{
  Fetched, returned, adapter_not_configured, timed_out, cancelled, raised, ToolDispatcher,
  ToolDispatchResult, adapter_evidence_state, is_valid_timeout, Verdict, refused, dropped, accepted,
  validated, fetched_verdict, timeout_ms, verdict, result_of, failure_result, evidence_result,
  dispatch,
}

-- Of a canonical status, the evidence of a required tool is available if it is a success, and a
-- failure otherwise.
canonical_state :
    (status : String)
    → contains canonical_adapter_statuses status ≡ true
    → (contains success_adapter_statuses status ≡ true)
        × (adapter_evidence_state status true ≡ "AVAILABLE")
      ⊎ (contains success_adapter_statuses status ≡ false)
        × (contains ("BLOCKED" ∷ "INVALID" ∷ "MISSING" ∷ []) (adapter_evidence_state status true)
            ≡ true)
unfolding adapter_evidence_state
canonical_state status h = elim (Bool-cases (contains success_adapter_statuses status)) [
  | inl good ↦ inl (good, rw good refl)
  | inr bad ↦ inr (
    bad,
    rw bad (elim (Bool-cases (contains invalid_adapter_statuses status)) [
      | inl i ↦ rw i refl
      | inr i ↦ rw i (elim (Bool-cases (contains missing_adapter_statuses status)) [
        | inl m ↦ rw m refl
        | inr m ↦ rw m (
            let rest : (contains partial_adapter_statuses status
                  || contains blocking_adapter_statuses status)
                ≡ true =
              ground (arith, h, bad, i, m) in
            rw rest refl)
      ])
    ]),
  )
]

-- Whether a required tool has failed, where its success is `U`.
judged_state :
    (required : Bool) (status : String) (U : Type 0)
    → required ≡ true
    → contains canonical_adapter_statuses status ≡ true
    → (contains success_adapter_statuses status ≡ true) ↔ U
    → ((required
          && contains
              ("BLOCKED" ∷ "INVALID" ∷ "MISSING" ∷ [])
              (adapter_evidence_state status required))
        ≡ false)
      ↔ U
judged_state false status U e h u = cc
judged_state true status U e h u = elim (canonical_state status h) [
  | inl (good, state') ↦ (λ k. u.0 good, λ v. rw state' refl)
  | inr (bad, state') ↦
      (λ k. absurd (false≢true (sym k ∙ state')), λ v. absurd (false≢true (sym bad ∙ u.1 v)))
]

-- Past a test that raises, what follows may assume that the test failed.
after_raise_if {ℓ} :
    {E : Type 0} {A : Type ℓ} (P : A → Type 0) (b : Bool) (e : E) (k : Result E A)
    → (b ≡ false → Ensures P (λ e. Unit {0}) k)
    → Ensures P (λ e. Unit {0}) (raise_if b e >>= λ u. k)
after_raise_if P true e k h = tt
after_raise_if P false e k h = h refl

module _ {Data : Type 0} (s : Surroundings) (is_secret : String → Bool)
    (serializable : Data → Bool) where
  validate-canonical :
      (raw : RawResult Data)
      → Ensures
          (λ r. contains canonical_adapter_statuses r.status ≡ true)
          (λ e. Unit {0})
          (validate_adapter_result is_secret serializable raw)
  unfolding validate_adapter_result
  validate-canonical no_result = tt
  validate-canonical (raw_result source none content warnings) =
      after_raise_if _ (blank_or_none source) _ _ (λ a. tt)
  validate-canonical (raw_result source (some status) content none) =
      after_raise_if _ (blank_or_none source) _ _ (λ a.
        after_raise_if _ (blank status) _ _
          (λ b. after_raise_if _ (not (contains canonical_adapter_statuses status)) _ _ (λ c. tt)))
  validate-canonical (raw_result source (some status) content (some warnings)) =
      after_raise_if _ (blank_or_none source) _ _ (λ a. after_raise_if _ (blank status) _ _ (λ b.
        after_raise_if _ (not (contains canonical_adapter_statuses status)) _ _ (λ c.
          after_raise_if _ (any is_secret warnings) _ _
            (λ d. after_raise_if _ (not (serializable content)) _ _ (λ e. not_false _ c)))))
    where
      not_false : (b : Bool) → not b ≡ false → b ≡ true
      not_false true h = refl
      not_false false h = cc

  -- The tool has an adapter, its request is admitted in time, and the adapter returned a valid
  -- result with a status of success.
  pub record IsUsable (d : ToolDispatcher) (request : ToolRequest) (fetched : Fetched Data)
      : Type 0 where
    pub registered : contains d.adapters request.tool ≡ true
    pub admitted : preflight_access s request ≡ none
    pub in_time : is_valid_timeout request.timeout ≡ true
    pub fetch :
        (raw : RawResult Data) × (r : AdapterResult Data) × (fetched ≡ returned raw)
        × (validate_adapter_result is_secret serializable raw ≡ ok r)
        × (contains success_adapter_statuses r.status ≡ true)

  preflight_blocked :
      (request : ToolRequest) (r : Refusal)
      → request.required ≡ true
      → preflight_access s request ≡ some r
      → r.evidence_state ≡ "BLOCKED"
  unfolding preflight_access
  preflight_blocked request r q h = requirement (lookup request.tool tool_access_requirements) h
    where
      url :
          (reason : Option String)
          → url_refusal s request reason ≡ some r
          → r.evidence_state ≡ "BLOCKED"
      url none h = cc
      url (some reason) h = ground (arith, q, h)

      credentials :
          (missing : List String)
          → credential_refusal s request missing ≡ some r
          → r.evidence_state ≡ "BLOCKED"
      credentials [] h = url (first_unsafe_url_argument s request.arguments) h
      credentials (m ∷ missing) h = ground (arith, q, h)

      requirement :
          (w : Option ToolAccessRequirement)
          → requirement_refusal s request w ≡ some r
          → r.evidence_state ≡ "BLOCKED"
      requirement none h = url (first_unsafe_url_argument s request.arguments) h
      requirement (some w) h =
          elim (Bool-cases (w.requires_budget_approval && not request.budget_approved)) [
            | inl e ↦ ground (arith, rw e at h)
            | inr e ↦ credentials (keep (is_unset s) w.credential_env) (rw e at h)
          ]

  module _ (d : ToolDispatcher) (request : ToolRequest) (required : request.required ≡ true) where
    -- A refusal blocks, and only for a reason; a result has a canonical status.
    abbrev Decided : Fetched Data → Verdict Data → Type 0
    Decided fetched (refused r) = (r.evidence_state ≡ "BLOCKED") × (IsUsable d request fetched → ⊥)
    Decided fetched dropped = fetched ≡ cancelled
    Decided fetched (accepted r) =
        (contains canonical_adapter_statuses r.status ≡ true)
        × ((contains success_adapter_statuses r.status ≡ true) ↔ IsUsable d request fetched)

    fetched-Decided :
        (fetched : Fetched Data) (timeout : ℕ)
        → contains d.adapters request.tool ≡ true
        → preflight_access s request ≡ none
        → is_valid_timeout request.timeout ≡ true
        → Decided fetched (fetched_verdict s is_secret serializable request timeout fetched)
    fetched-Decided (returned raw) timeout a b c =
        onto (validate_adapter_result is_secret serializable raw) refl (validate-canonical raw)
      where
        read :
            (u : IsUsable d request (returned raw))
            → validate_adapter_result is_secret serializable raw ≡ ok (u.fetch.1)
        read u =
            let same : raw ≡ u.fetch.0 = cc (u.fetch.2) in
            ap (validate_adapter_result is_secret serializable) same ∙ u.fetch.3

        onto :
            (m : Result ContractError (AdapterResult Data))
            → validate_adapter_result is_secret serializable raw ≡ m
            → Ensures (λ r. contains canonical_adapter_statuses r.status ≡ true) (λ e. Unit {0}) m
            → Decided (returned raw) (validated s is_secret serializable request m)
        onto (ok r) e h = (
          h,
          (
            λ good. record {
              registered = a;
              admitted = b;
              in_time = c;
              fetch = (raw, r, refl, e, good);
            },
            λ u.
                let same : r ≡ u.fetch.1 = cc (sym e, read u) in
                ap (λ (x : AdapterResult Data). contains success_adapter_statuses x.status) same
                ∙ u.fetch.4,
          ),
        )
        onto (err x) e h = (ground (arith, required), λ u. cc (sym e, read u))
    fetched-Decided (adapter_not_configured type_name message) timeout a b c =
        (ground (arith, required), λ u. cc (u.fetch.2))
    fetched-Decided timed_out timeout a b c = (ground (arith, required), λ u. cc (u.fetch.2))
    fetched-Decided cancelled timeout a b c = refl
    fetched-Decided (raised message) timeout a b c = (ground (arith, required), λ u. cc (u.fetch.2))

    verdict-Decided :
        (fetched : Fetched Data)
        → Decided fetched (verdict s is_secret serializable d request fetched)
    unfolding verdict
    verdict-Decided fetched = elim (Bool-cases (contains d.adapters request.tool)) [
      | inr e ↦ rw e (ground (arith, required), λ u. cc (u.registered, e))
      | inl e ↦ rw e (elim (Option-cases (preflight_access s request)) [
        | inr (r, p) ↦ rw p (preflight_blocked request r required p, λ u. cc (u.admitted, p))
        | inl p ↦ rw p (elim (Bool-cases (is_valid_timeout request.timeout)) [
          | inr t ↦ rw t (ground (arith, required), λ u. cc (u.in_time, t))
          | inl t ↦
              rw t (fetched-Decided fetched (timeout_ms d.default_timeout_ms request.timeout) e p t)
        ])
      ])
    ]

    blocks :
        (e : String)
        → e ≡ "BLOCKED"
        → (request.required && contains ("BLOCKED" ∷ "INVALID" ∷ "MISSING" ∷ []) e) ≡ true
    blocks e h = rw (required, h) refl

    judged :
        (fetched : Fetched Data) (r : AdapterResult Data)
        → Decided fetched (accepted r)
        → (tool_failed (evidence_result s is_secret serializable request r).result ≡ false)
          ↔ IsUsable d request fetched
    judged fetched r h =
        judged_state request.required r.status (IsUsable d request fetched) required h.0 h.1

    -- A required tool whose wait was not cancelled gives a result, and this is no failure of a
    -- required tool exactly if the tool has an adapter, its request is admitted and in time, and
    -- the adapter returned a valid result with a status of success.
    pub dispatch-IsUsable :
        (fetched : Fetched Data)
        → fetched ≢ cancelled
        → (t : ToolDispatchResult Data) × ((dispatch s is_secret serializable request fetched d).0
            ≡ some t)
          × ((tool_failed t.result ≡ false) ↔ IsUsable d request fetched)
    unfolding dispatch
    dispatch-IsUsable fetched waits =
        onto (verdict s is_secret serializable d request fetched) (verdict-Decided fetched)
      where
        onto :
            (v : Verdict Data)
            → Decided fetched v
            → (t : ToolDispatchResult Data) × (result_of s is_secret serializable request v
                ≡ some t)
              × ((tool_failed t.result ≡ false) ↔ IsUsable d request fetched)
        onto dropped h = absurd (waits h)
        onto (refused r) h = (
          failure_result s is_secret serializable request r,
          refl,
          (λ k. absurd (false≢true (sym k ∙ blocks r.evidence_state h.0)), λ u. absurd (h.1 u)),
        )
        onto (accepted r) h =
            (evidence_result s is_secret serializable request r, refl, judged (fetched) r h)
