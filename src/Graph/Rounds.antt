-- ===== src/Graph/Rounds.antt =====
-- One round of `levels`: what it picks, and what it leaves.
use world_class_seo_agent_sy.Prelude.{
  ℕ, zero, suc, ◌+◌, ◌≤◌, ◌<◌, ◌≡◌, ◌⊎◌, refl, Bool, true, false, not, ◌||◌, String, List, [], ◌∷◌,
  ◌++◌, contains, contains-append, subset, has_duplicates, ◌==◌, eq_iff, All, All-map, arith,
  Bool-cases, inl, inr, All-keep, keep_sound, length, is_empty, ltb, ltb→lt, ltb→le, keep, sort_by,
}
use world_class_seo_agent_sy.Graph.Nodes.{WorkflowNode, ids}
use world_class_seo_agent_sy.Graph.Picking.{
  node_id, contains-sort_by, has_duplicates-keep, contains_split,
}
use world_class_seo_agent_sy.Graph.Levels.{is_ready}

-- Each level holds nodes whose dependencies all stand in earlier levels, or in `done`.
or_true : (b : Bool) → (b || true) ≡ true
or_true true = refl
or_true false = refl

pub contains-ids_append :
    (ms ns : List WorkflowNode) (k : String)
    → contains (ids (ms ++ ns)) k ≡ (contains (ids ms) k || contains (ids ns) k)
contains-ids_append [] ns k = refl
contains-ids_append (m ∷ ms) ns k = ground (arith, contains-ids_append ms ns k)

pub empty_nil : (ns : List WorkflowNode) → is_empty ns ≡ true → ns ≡ []
empty_nil [] h = refl
empty_nil (n ∷ ns) h = cc

pub length-of_some : (ns : List WorkflowNode) → is_empty ns ≡ false → 1 ≤ length ns
length-of_some [] h = cc
length-of_some (n ∷ ns) h = omega arith

none_ready :
    (done : List String) (ns : List WorkflowNode)
    → keep (is_ready done) ns ≡ []
    → All (λ n. not (is_ready done n) ≡ true) ns
none_ready done [] e = tt
none_ready done (n ∷ ns) e = (ground arith, none_ready done ns (ground arith))

-- Where the nodes that are left have ranks above `k`, and their dependencies are done or left.
module _ (rank : String → ℕ) (limit : ℕ) where
  pub record IsLeft (k : ℕ) (done : List String) (left : List WorkflowNode) : Type 0 where
    pub unique : has_duplicates (ids left) ≡ false
    pub ranked :
        All
          (λ n. (k < rank n.id) × (rank n.id ≤ limit) × All (λ d. rank d < rank n.id) n.depends_on)
          left
    pub supplied :
        All
          (λ n. All (λ d. (contains done d ≡ true) ⊎ (contains (ids left) d ≡ true)) n.depends_on)
          left

  above_left :
      (k : ℕ) (ns : List WorkflowNode) (d : String)
      → All
          (λ n. (k < rank n.id) × (rank n.id ≤ limit) × All (λ e. rank e < rank n.id) n.depends_on)
          ns
      → contains (ids ns) d ≡ true
      → k < rank d
  above_left k [] d r h = cc
  above_left k (n ∷ ns) d ((lt, le, r), rs) h = elim (Bool-cases (n.id == d)) [
    | inl e ↦ rw ((eq_iff n.id d).0 e) at lt
    | inr e ↦ above_left k ns d rs (ground (arith, e))
  ]

  low_ready :
      (k : ℕ) (done known : List String) (r : ℕ) (deps : List String)
      → ((d : String) → contains known d ≡ true → k < rank d)
      → r ≤ suc k
      → All (λ d. rank d < r) deps
      → All (λ d. (contains done d ≡ true) ⊎ (contains known d ≡ true)) deps
      → subset deps done ≡ true
  low_ready k done known r [] above le a b = refl
  low_ready k done known r (d ∷ ds) above le (lt, a) (inl here, b) =
      ground (arith, here, low_ready k done known r ds above le a b)
  low_ready k done known r (d ∷ ds) above le (lt, a) (inr left, b) =
      absurd (omega (arith, above d left))

  -- A node that is not ready has a rank above the next one.
  climb :
      (k : ℕ) (done : List String) (known : List String) (ns : List WorkflowNode)
      → ((d : String) → contains known d ≡ true → k < rank d)
      → All
          (λ n. (k < rank n.id) × (rank n.id ≤ limit) × All (λ d. rank d < rank n.id) n.depends_on)
          ns
      → All (λ n. All (λ d. (contains done d ≡ true) ⊎ (contains known d ≡ true)) n.depends_on) ns
      → All (λ n. not (is_ready done n) ≡ true) ns
      → All
          (λ n.
            (suc k < rank n.id) × (rank n.id ≤ limit) × All (λ d. rank d < rank n.id) n.depends_on)
          ns
  climb k done known [] above r s u = tt
  climb k done known (n ∷ ns) above ((lt, le, deps), r) (s, ss) (u, us) = (
    (
      elim (Bool-cases (ltb (suc k) (rank n.id))) [
        | inl e ↦ ltb→lt (suc k) (rank n.id) e
        | inr e ↦
            let ready =
              low_ready k done known (rank n.id) n.depends_on above (ltb→le (suc k) (rank n.id) e)
                deps s in
            cc (ready, u)
      ],
      le,
      deps,
    ),
    climb k done known ns above r ss us,
  )

  supply :
      (done : List String) (left : List WorkflowNode) (deps : List String)
      → All (λ d. (contains done d ≡ true) ⊎ (contains (ids left) d ≡ true)) deps
      → All
          (λ d.
            (contains (done ++ ids (sort_by node_id (keep (is_ready done) left))) d ≡ true)
            ⊎ (contains (ids (keep (λ n. not (is_ready done n)) left)) d ≡ true))
          deps
  supply done left [] h = tt
  supply done left (d ∷ ds) (inl here, h) = (
    inl (
        ground (
          arith,
          here,
          contains-append done (ids (sort_by node_id (keep (is_ready done) left))) d,
        )),
    supply done left ds h,
  )
  supply done left (d ∷ ds) (inr later, h) = (
    elim (contains_split (is_ready done) left d later) [
      | inl e ↦ inl (rw (contains-append, contains-sort_by, e) (or_true (contains done d)))
      | inr e ↦ inr e
    ],
    supply done left ds h,
  )

  pub next-IsLeft :
      (k : ℕ) (done : List String) (left : List WorkflowNode)
      → IsLeft k done left
      → IsLeft
          (suc k)
          (done ++ ids (sort_by node_id (keep (is_ready done) left)))
          (keep (λ n. not (is_ready done n)) left)
  next-IsLeft k done left h = record {
    unique = has_duplicates-keep (λ n. not (is_ready done n)) left h.unique;
    ranked =
        climb k done (ids left) (keep (λ n. not (is_ready done n)) left)
          (λ d m. above_left k left d h.ranked m) (All-keep _ _ left h.ranked)
          (All-keep _ _ left h.supplied) (keep_sound _ left);
    supplied = All-keep _ _ left (All-map (λ n. supply done left n.depends_on) left h.supplied);
  }

  -- No round is stuck while a node is left.
  pub not_stuck :
      (j k : ℕ) (done : List String) (left : List WorkflowNode)
      → limit ≤ k + j
      → IsLeft k done left
      → keep (is_ready done) left ≡ []
      → left ≡ []
  not_stuck j k done [] le h e = refl
  not_stuck zero k done (n ∷ ns) le h e = absurd (omega (arith, h.ranked.0.0, h.ranked.0.1))
  not_stuck (suc j) k done (n ∷ ns) le h e =
      not_stuck j (suc k) done (n ∷ ns) (omega arith)
        (record {
          unique = h.unique;
          ranked =
              climb k done (ids (n ∷ ns)) (n ∷ ns) (λ d m. above_left k (n ∷ ns) d h.ranked m)
                h.ranked h.supplied (none_ready done (n ∷ ns) e);
          supplied = h.supplied;
        })
        e
