-- ===== src/UrlBudget.antt =====
-- integrations/product_proof/url_evidence_bounds.py: the character budgets of URLs. A budget with its
-- parents is the list of them, from the budget itself upwards. `urljoin` and the normalisation are the
-- parameters `urljoin` and `normalize`, which give nothing where they raise a ValueError.
pub mod Laws
mod Tests
use world_class_seo_agent_sy.Prelude.{
  ℕ, ◌+◌, ◌*◌, Bool, ltb, String, List, [], ◌∷◌, is_empty, not, ◌||◌, Option, none, some, Result,
  ok, err, ◌>>=◌, if◌then◌else◌,
}
use Prim.Native.String.{count}

pub record UrlBudget : Type 0 where
  pub maximum : ℕ
  pub used : ℕ

pub data UrlError : Type 0 where
  url_too_long aggregate_exceeded invalid_url : UrlError

abbrev pub max_url_chars : ℕ
max_url_chars = 8192

unfoldable pub check_url_length : String → Result UrlError (Unit {0})
check_url_length value = if ltb max_url_chars (count value) then err url_too_long else ok tt

-- `reserve`: the budgets as they are left, or the exception, which leaves all of them as they were.
unfoldable pub reserve_chars : ℕ → List UrlBudget → Result UrlError (List UrlBudget)
reserve_chars size [] = ok []
reserve_chars size (b ∷ parents) =
    let rest = reserve_chars size parents in
    if ltb b.maximum (b.used + size)
    then err aggregate_exceeded
    else rest >>= λ charged. ok (record b { used = b.used + size } ∷ charged)

abbrev pub or_invalid : Option String → Result UrlError String
or_invalid none = err invalid_url
or_invalid (some url) = ok url

module _ (urljoin : String → String → Option String) (normalize : String → Option String) where
  -- `expand`: the URL, and the budgets. An exception after the charge leaves them charged.
  unfoldable pub expand : String → String → List UrlBudget → Result UrlError String × List UrlBudget
  expand base value budgets = charged (
      check_url_length base >>= λ a.
      check_url_length value >>= λ b. reserve_chars (4 * (count base + count value + 1)) budgets)
    where
      charged : Result UrlError (List UrlBudget) → Result UrlError String × List UrlBudget
      charged (err e) = (err e, budgets)
      charged (ok left) = (
        or_invalid (urljoin base value) >>= λ absolute. check_url_length absolute >>= λ a.
            or_invalid (normalize absolute) >>= λ normalized.
            check_url_length normalized >>= λ b. ok normalized,
        left,
      )

pub data CrawlState : Type 0 where
  partial available empty : CrawlState

abbrev pub crawl_data_state {ℓ κ μ} :
    {P : Type ℓ} {Q : Type κ} {R : Type μ} → List P → List Q → List R → CrawlState
crawl_data_state pages failed queue =
    if not (is_empty failed) || not (is_empty queue)
    then partial
    else if is_empty pages
    then empty
    else available
