-- ===== src/Reversal/Steady.antt =====
-- A reversal keeps a steady property that survives the claim of the original.
use pstu_hackathon.Base.{ℕ}
use pstu_hackathon.Shared.Text.{Text}
use pstu_hackathon.Platform.Schema.{Transfer}
use pstu_hackathon.Platform.Action.{State}
use pstu_hackathon.Platform.Action.Keeps.{Keeps, keeps_rules}
use pstu_hackathon.Platform.Canonical.{Json}
use pstu_hackathon.Ledger.Steady.{Steady}
use pstu_hackathon.Transfer.Steady.{
  OnWorld, with_transaction-Keeps, verify_pin-Keeps, idempotently-Keeps, transfer_rules,
}
use pstu_hackathon.Reversal.{
  OriginalTransfer, claim_reversal, undo, reversal_claimed, reverse_transfer,
}

module _ {P : State → Type 0} {C : ℕ → Type 0} (b : Steady P C)
    (marking : (t : Transfer) → Keeps P (claim_reversal t)) where
  undo-Keeps : (actor id : ℕ) (o : OriginalTransfer) → C id → Keeps P (undo actor id o)
  unfolding undo
  undo-Keeps actor id o c = search (transfer_rules, marking) depth 32

  reversal_claimed-Keeps :
      (actor : ℕ) (ref : Text) (id : ℕ) → C id → Keeps P (reversal_claimed actor ref id)
  unfolding reversal_claimed
  reversal_claimed-Keeps actor ref id c = search (keeps_rules, undo-Keeps) depth 12

  pub reverse_transfer-Keeps :
      (actor : ℕ) (ref : Text) (key : ℕ) (pin : Text) (raw : Json)
      → Keeps (OnWorld P) (reverse_transfer actor ref key pin raw)
  unfolding reverse_transfer
  reverse_transfer-Keeps actor ref key pin raw =
      search
        (
          keeps_rules, verify_pin-Keeps, with_transaction-Keeps, idempotently-Keeps,
          reversal_claimed-Keeps,
        )
        depth 24
