-- ===== src/Tools/Telemetry.antt =====
-- The telemetry of a dispatcher is the end of the history of its dispatches.
use Prim.Native.String.{String}
use world_class_seo_agent_sy.Prelude.{
  ◌≡◌, refl, sym, ap, ◌∙◌, ℕ, zero, suc, ◌-◌, ◌≤◌, ◌<◌, Bool, leb, List, [], ◌∷◌, ◌++◌,
  append_assoc, append-nil, length, length-append, drop, if◌then◌else◌, Bool-cases, inl, inr, ok,
  arith,
}
use world_class_seo_agent_sy.Tools.Access.{ToolRequest, Surroundings}
use world_class_seo_agent_sy.Tools.Dispatch.{
  Fetched, TelemetryEvent, ToolDispatcher, new_dispatcher, record_event, event_of, verdict,
  dispatch, dispatch_all,
}

-- The last `n` elements.
abbrev pub last {ℓ} : {A : Type ℓ} → ℕ → List A → List A
last n xs = drop (length xs - n) xs

drop-append {ℓ} :
    {A : Type ℓ} (n : ℕ) (xs ys : List A) → n ≤ length xs → drop n (xs ++ ys) ≡ drop n xs ++ ys
drop-append zero xs ys h = refl
drop-append (suc n) [] ys h = absurd (omega (arith, h))
drop-append (suc n) (x ∷ xs) ys h = drop-append n xs ys (omega (arith, h))

drop-suc {ℓ} : {A : Type ℓ} (n : ℕ) (xs : List A) → drop 1 (drop n xs) ≡ drop (suc n) xs
drop-suc zero xs = refl
drop-suc (suc n) [] = refl
drop-suc (suc n) (x ∷ xs) = drop-suc n xs

drop-nil : (n : ℕ) → drop {A = TelemetryEvent} n [] ≡ []
drop-nil zero = refl
drop-nil (suc n) = refl

length-drop {ℓ} : {A : Type ℓ} (n : ℕ) (xs : List A) → length (drop n xs) ≡ length xs - n
length-drop zero xs = omega arith
length-drop (suc n) [] = omega arith
length-drop (suc n) (x ∷ xs) = omega (arith, length-drop n xs)

-- Pushing out the first of a full list, and appending, keeps the last `n`.
last-append {ℓ} :
    {A : Type ℓ} (n : ℕ) (xs : List A) (x : A)
    → 1 ≤ n
    → (if leb n (length (last n xs)) then drop 1 (last n xs) else last n xs) ++ x ∷ []
      ≡ last n (xs ++ x ∷ [])
last-append n xs x h = elim (Bool-cases (leb n (length (last n xs)))) [
  | inl full ↦
      let enough : n ≤ length xs = ground (arith, full, length-drop (length xs - n) xs) in
      let cut : length (xs ++ x ∷ []) - n ≡ suc (length xs - n) =
        omega (arith, length-append xs (x ∷ []), enough) in
      rw full (
        ap (λ ys. ys ++ x ∷ []) (drop-suc (length xs - n) xs)
        ∙ sym (drop-append (suc (length xs - n)) xs (x ∷ []) (omega (arith, enough, h)))
        ∙ ap (λ k. drop k (xs ++ x ∷ [])) (sym cut))
  | inr room ↦
      let few : length xs < n = ground (arith, room, length-drop (length xs - n) xs) in
      let whole : length xs - n ≡ 0 = omega (arith, few) in
      let whole' : length (xs ++ x ∷ []) - n ≡ 0 = omega (arith, length-append xs (x ∷ []), few) in
      rw (room, whole, whole') refl
]

module _ {Data : Type 0} (s : Surroundings) (is_secret : String → Bool)
    (serializable : Data → Bool) where
  -- The event of each dispatch, in order.
  abbrev pub history : ToolDispatcher → List (ToolRequest × Fetched Data) → List TelemetryEvent
  history d [] = []
  history d (c ∷ calls) =
      event_of s is_secret serializable c.0 (verdict s is_secret serializable d c.0 c.1)
      ∷ history d calls

  dispatch_all-last :
      (calls : List (ToolRequest × Fetched Data)) (d : ToolDispatcher)
      (telemetry log : List TelemetryEvent)
      → 1 ≤ d.max_telemetry_events
      → telemetry ≡ last d.max_telemetry_events log
      → (dispatch_all s is_secret serializable calls (record d { telemetry = telemetry })).telemetry
        ≡ last d.max_telemetry_events (log ++ history d calls)
  unfolding dispatch_all dispatch verdict record_event
  dispatch_all-last [] d telemetry log h e =
      e ∙ ap (last d.max_telemetry_events) (sym (append-nil log))
  dispatch_all-last (c ∷ calls) d telemetry log h e =
      let event : TelemetryEvent =
        event_of s is_secret serializable c.0 (verdict s is_secret serializable d c.0 c.1) in
      dispatch_all-last calls d _ (log ++ event ∷ []) h (
        ap
          (λ (t : List TelemetryEvent).
            (if leb d.max_telemetry_events (length t) then drop 1 t else t) ++ event ∷ [])
          e
        ∙ last-append d.max_telemetry_events log event h)
      ∙ ap (last d.max_telemetry_events) (append_assoc log (event ∷ []) (history d calls))

  -- A new dispatcher keeps the last events of its dispatches, as many as its limit, in order: one
  -- for each dispatch, refused and cancelled ones among them.
  pub dispatch_all-history :
      (adapters : List String) (max_events timeout : ℕ) (d : ToolDispatcher)
      (calls : List (ToolRequest × Fetched Data))
      → new_dispatcher adapters max_events timeout ≡ ok d
      → (dispatch_all s is_secret serializable calls d).telemetry
        ≡ last max_events (history d calls)
  unfolding new_dispatcher
  dispatch_all-history adapters max_events timeout d calls made =
      let positive : 1 ≤ d.max_telemetry_events = ground (arith, made) in
      let empty : d.telemetry ≡ [] = ground (arith, made) in
      let limit : d.max_telemetry_events ≡ max_events = ground (arith, made) in
      dispatch_all-last calls d d.telemetry [] positive
        (empty ∙ sym (drop-nil (0 - d.max_telemetry_events)))
      ∙ ap (λ n. last n (history d calls)) limit
