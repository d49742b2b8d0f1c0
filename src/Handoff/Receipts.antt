-- ===== src/Handoff/Receipts.antt =====
-- runtime/handoff_receipts.py. SHA-256 over canonical JSON is the parameter `Digest`: a text that is
-- not empty for each value of the fields.
use world_class_seo_agent_sy.Prelude.{
  ◌≡◌, ◌≢◌, Bool, true, not, ◌&&◌, String, ◌==◌, eq_iff, eq_refl, arith,
}
use world_class_seo_agent_sy.State.{Handoff}

pub record Digest : Type 0 where
  pub hex : Handoff → String
  pub hex-ne-nil : (h : Handoff) → hex h ≢ ""

module _ (digest : Digest) where
  -- All fields but the receipt.
  unfoldable pub terminal_handoff_receipt : Handoff → String
  terminal_handoff_receipt h = digest.hex (record h { terminal_receipt = "" })

  unfoldable pub seal_terminal_handoff : Handoff → Handoff
  unfolding terminal_handoff_receipt
  seal_terminal_handoff h = record h { terminal_receipt = terminal_handoff_receipt h }

  unfoldable pub terminal_receipt_is_valid : Handoff → Bool
  unfolding terminal_handoff_receipt
  terminal_receipt_is_valid h =
      not (h.terminal_receipt == "") && h.terminal_receipt == terminal_handoff_receipt h

  pub valid-seal : (h : Handoff) → terminal_receipt_is_valid (seal_terminal_handoff h) ≡ true
  unfolding terminal_receipt_is_valid seal_terminal_handoff
  valid-seal h =
      let receipt = digest.hex (record h { terminal_receipt = "" }) in
      ground (
        arith,
        eq_iff receipt "",
        eq_refl receipt,
        digest.hex-ne-nil (record h { terminal_receipt = "" }),
      )
