-- ===== src/UrlBudget/Laws.antt =====
-- What the URL budgets hold to.
use Prim.Native.String.{count}
use world_class_seo_agent_sy.Prelude.{
  ◌≡◌, ◌⊎◌, inl, inr, refl, ℕ, ◌+◌, ◌*◌, ◌≤◌, ltb, String, List, [], ◌∷◌, Option, none, some,
  Result, ok, err, ◌>>=◌, Ensures, Ensures-bind, Ensures-any, Ensures-ok, Bool-cases, Result-cases,
  ltb→le,
}
use world_class_seo_agent_sy.UrlBudget.{
  UrlBudget, UrlError, max_url_chars, check_url_length, reserve_chars, or_invalid, expand,
}

-- Each budget is charged by the size, and none above its maximum.
pub data IsCharged (size : ℕ) : List UrlBudget → List UrlBudget → Type 0 where
  done : IsCharged size [] []
  charge :
      (b : UrlBudget) (bs bs' : List UrlBudget)
      → b.used + size ≤ b.maximum
      → IsCharged size bs bs'
      → IsCharged size (b ∷ bs) (record b { used = b.used + size } ∷ bs')

reserve_chars-IsCharged :
    (size : ℕ) (bs : List UrlBudget)
    → Ensures (IsCharged size bs) (λ e. Unit) (reserve_chars size bs)
unfolding reserve_chars
reserve_chars-IsCharged size [] = done
reserve_chars-IsCharged size (b ∷ bs) = elim (Bool-cases (ltb b.maximum (b.used + size))) [
  | inl o ↦ rw o tt
  | inr o ↦ rw o (
      onto (reserve_chars size bs) (reserve_chars-IsCharged size bs)
        (ltb→le b.maximum (b.used + size) o))
]
  where
    onto :
        (m : Result UrlError (List UrlBudget))
        → Ensures (IsCharged size bs) (λ e. Unit {0}) m
        → b.used + size ≤ b.maximum
        → Ensures
            (IsCharged size (b ∷ bs))
            (λ e. Unit {0})
            (m >>= λ charged. ok (record b { used = b.used + size } ∷ charged))
    onto (ok left) h le = charge b bs left le h
    onto (err e) h le = tt

module _ (urljoin : String → String → Option String) (normalize : String → Option String) where
  -- The join, and its normalisation.
  abbrev pub IsJoined : String → String → String → Type 0
  IsJoined base value url =
      (absolute : String) × (urljoin base value ≡ some absolute) × (normalize absolute ≡ some url)

  -- What an expansion leaves.
  pub record IsExpanded (base value : String) (bs : List UrlBudget)
      (out : Result UrlError String × List UrlBudget) : Type 0 where
    pub paid : (out.1 ≡ bs) ⊎ IsCharged (4 * (count base + count value + 1)) bs out.1
    pub returned :
        Ensures
          (λ url.
            (count url ≤ 8192)
            × IsJoined base value url
            × IsCharged (4 * (count base + count value + 1)) bs out.1)
          (λ e. Unit {0})
          out.0

  check_le :
      (value : String) → Ensures (λ u. count value ≤ 8192) (λ e. Unit {0}) (check_url_length value)
  unfolding check_url_length
  check_le value = elim (Bool-cases (ltb max_url_chars (count value))) [
    | inl o ↦ rw o tt
    | inr o ↦ rw o (ltb→le 8192 (count value) o)
  ]

  abbrev size_of : String → String → ℕ
  size_of base value = 4 * (count base + count value + 1)

  before-IsCharged :
      (base value : String) (bs : List UrlBudget)
      → Ensures
          (IsCharged (size_of base value) bs)
          (λ e. Unit {0})
          (check_url_length base >>= λ a.
            check_url_length value >>= λ b. reserve_chars (size_of base value) bs)
  before-IsCharged base value bs =
      Ensures-bind (λ u. Unit {0}) (IsCharged (size_of base value) bs) (λ e. Unit {0})
        (check_url_length base) _ (Ensures-any _)
        (λ a u.
          Ensures-bind (λ u. Unit {0}) (IsCharged (size_of base value) bs) (λ e. Unit {0})
            (check_url_length value) _ (Ensures-any _)
            (λ b v. reserve_chars-IsCharged (size_of base value) bs))

  normalized-short :
      (P : Type 0) (base value absolute : String) (result : Option String)
      → urljoin base value ≡ some absolute
      → normalize absolute ≡ result
      → P
      → Ensures
          (λ url. (count url ≤ 8192) × IsJoined base value url × P)
          (λ e. Unit {0})
          (or_invalid result >>= λ normalized. check_url_length normalized >>= λ b. ok normalized)
  normalized-short P base value absolute none e f p = tt
  normalized-short P base value absolute (some url) e f p =
      Ensures-bind (λ u. count url ≤ 8192) (λ url. (count url ≤ 8192) × IsJoined base value url × P)
        (λ e. Unit {0}) (check_url_length url) _ (check_le url) (λ b le. (le, (absolute, e, f), p))

  IsJoined-short :
      (P : Type 0) (base value : String) (result : Option String)
      → urljoin base value ≡ result
      → P
      → Ensures
          (λ url. (count url ≤ 8192) × IsJoined base value url × P)
          (λ e. Unit {0})
          (or_invalid result >>= λ absolute. check_url_length absolute >>= λ a.
            or_invalid (normalize absolute) >>= λ normalized.
            check_url_length normalized >>= λ b. ok normalized)
  IsJoined-short P base value none e p = tt
  IsJoined-short P base value (some absolute) e p =
      Ensures-bind (λ u. Unit {0}) (λ url. (count url ≤ 8192) × IsJoined base value url × P)
        (λ e. Unit {0}) (check_url_length absolute) _ (Ensures-any _)
        (λ a u. normalized-short P base value absolute (normalize absolute) e refl p)

  -- An expansion returns the normalised join, of at most 8192 characters, and then has charged every
  -- budget of the chain by four times the characters, within its maximum. One that fails leaves the
  -- budgets as they were, or so charged.
  pub expand-IsExpanded :
      (base value : String) (bs : List UrlBudget)
      → IsExpanded base value bs (expand urljoin normalize base value bs)
  unfolding expand
  expand-IsExpanded base value bs =
      elim (Result-cases (
        check_url_length base >>= λ a.
        check_url_length value >>= λ b. reserve_chars (size_of base value) bs)) [
          | inr (e, f) ↦ rw (f, expand) (record { paid = inl refl; returned = tt })
          | inl (left, f) ↦
              let paid =
                Ensures-ok (IsCharged (size_of base value) bs) (λ e. Unit {0}) _ left f
                  (before-IsCharged base value bs) in
              rw (f, expand)
                (record {
                  paid = inr paid;
                  returned = IsJoined-short _ base value (urljoin base value) refl paid;
                })
        ]
