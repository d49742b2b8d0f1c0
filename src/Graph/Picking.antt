-- ===== src/Graph/Picking.antt =====
-- What one round of `levels` picks, and what it leaves.
use world_class_seo_agent_sy.Prelude.{
  ◌≡◌, ◌⊎◌, refl, sym, ap, ◌∙◌, subst, Bool, true, false, not, ◌||◌, String, List, [], ◌∷◌,
  contains, subset, has_duplicates, ◌==◌, eq_iff, eq_refl, All, All-map, arith, Bool-cases, inl,
  inr, keep, sort_by, insert_by, text_le,
}
use world_class_seo_agent_sy.Graph.Nodes.{WorkflowNode, ids}
use world_class_seo_agent_sy.Graph.Levels.{is_ready, without}

abbrev pub node_id : WorkflowNode → String
node_id n = n.id

contains-insert_by :
    (n : WorkflowNode) (ns : List WorkflowNode) (k : String)
    → contains (ids (insert_by node_id n ns)) k ≡ (n.id == k || contains (ids ns) k)
contains-insert_by n [] k = refl
contains-insert_by n (m ∷ ms) k = ground (arith, contains-insert_by n ms k)

pub contains-sort_by :
    (ns : List WorkflowNode) (k : String)
    → contains (ids (sort_by node_id ns)) k ≡ contains (ids ns) k
contains-sort_by [] k = refl
contains-sort_by (n ∷ ns) k =
    ground (arith, contains-insert_by n (sort_by node_id ns) k, contains-sort_by ns k)

module _ (p : WorkflowNode → Bool) where
  contains-keep_not :
      (ns : List WorkflowNode) (k : String)
      → contains (ids ns) k ≡ false
      → contains (ids (keep p ns)) k ≡ false
  contains-keep_not [] k h = refl
  contains-keep_not (n ∷ ns) k h = ground (arith, contains-keep_not ns k)

  pub has_duplicates-keep :
      (ns : List WorkflowNode)
      → has_duplicates (ids ns) ≡ false
      → has_duplicates (ids (keep p ns)) ≡ false
  has_duplicates-keep [] h = refl
  has_duplicates-keep (n ∷ ns) h = ground (arith, has_duplicates-keep ns, contains-keep_not ns n.id)

  kept_later :
      (n : WorkflowNode) (ns kept : List WorkflowNode)
      → contains (ids ns) n.id ≡ false
      → All (λ m. contains (ids kept) m.id ≡ p m) ns
      → All (λ m. contains (ids (n ∷ kept)) m.id ≡ p m) ns
  kept_later n [] kept h k = tt
  kept_later n (m ∷ ms) kept h (e, k) =
      (ground (arith, eq_iff n.id m.id, eq_iff m.id n.id), kept_later n ms kept (ground arith) k)

  -- Where ids are unique, the ids of the kept nodes tell which nodes are kept.
  contains-kept :
      (ns : List WorkflowNode)
      → has_duplicates (ids ns) ≡ false
      → All (λ m. contains (ids (keep p ns)) m.id ≡ p m) ns
  contains-kept [] h = tt
  contains-kept (n ∷ ns) h = elim (Bool-cases (p n)) [
    | inl e ↦
        let kept : (n ∷ keep p ns) ≡ keep p (n ∷ ns) = rw e in
        subst (λ ms. All (λ m. contains (ids ms) m.id ≡ p m) (n ∷ ns)) kept
          (
            ground (arith, e, eq_refl n.id),
            kept_later n ns (keep p ns) (ground arith) (contains-kept ns (ground arith)),
          )
    | inr e ↦
        let kept : keep p ns ≡ keep p (n ∷ ns) = rw e in
        subst (λ ms. All (λ m. contains (ids ms) m.id ≡ p m) (n ∷ ns)) kept
          (contains-keep_not ns n.id (ground arith) ∙ sym e, contains-kept ns (ground arith))
  ]

  pub contains_split :
      (ns : List WorkflowNode) (k : String)
      → contains (ids ns) k ≡ true
      → (contains (ids (keep p ns)) k ≡ true) ⊎ (contains (ids (keep (λ n. not (p n)) ns)) k ≡ true)
  contains_split [] k h = cc
  contains_split (n ∷ ns) k h = ground (arith, contains_split ns k)

keep-of_eq :
    (p q : WorkflowNode → Bool) (ns : List WorkflowNode)
    → All (λ n. p n ≡ q n) ns
    → keep p ns ≡ keep q ns
keep-of_eq p q [] h = refl
keep-of_eq p q (n ∷ ns) (e, h) = ground (arith, e, keep-of_eq p q ns h)

-- A round takes away exactly the ready nodes.
pub without-ready :
    (p : WorkflowNode → Bool) (ns : List WorkflowNode)
    → has_duplicates (ids ns) ≡ false
    → without (ids (sort_by node_id (keep p ns))) ns ≡ keep (λ n. not (p n)) ns
without-ready p ns h =
    keep-of_eq _ _ ns
      (All-map (λ n e. ap not (contains-sort_by (keep p ns) n.id ∙ e)) ns (contains-kept p ns h))

pub keep_ready :
    (done : List String) (ns : List WorkflowNode)
    → All (λ n. subset n.depends_on done ≡ true) (keep (is_ready done) ns)
keep_ready done [] = tt
keep_ready done (n ∷ ns) = elim (Bool-cases (is_ready done n)) [
  | inl e ↦ rw e (e, keep_ready done ns)
  | inr e ↦ rw e (keep_ready done ns)
]

All-insert_by :
    (P : WorkflowNode → Type 0) (n : WorkflowNode) (ns : List WorkflowNode)
    → P n
    → All P ns
    → All P (insert_by node_id n ns)
All-insert_by P n [] p h = (p, tt)
All-insert_by P n (m ∷ ms) p (q, h) = elim (Bool-cases (text_le n.id m.id)) [
  | inl e ↦ rw e (p, (q, h))
  | inr e ↦ rw e (q, All-insert_by P n ms p h)
]

pub All-sort_by :
    (P : WorkflowNode → Type 0) (ns : List WorkflowNode) → All P ns → All P (sort_by node_id ns)
All-sort_by P [] h = tt
All-sort_by P (n ∷ ns) (p, h) = All-insert_by P n (sort_by node_id ns) p (All-sort_by P ns h)
