-- ===== src/Split/Steady.antt =====
-- A split keeps a steady property that survives the writes to requests and the header row of a split.
use pstu_hackathon.Base.{ℕ, ◌+◌, ◌≤◌, arith, List, [], ◌∷◌}
use pstu_hackathon.Platform.Schema.{BillSplit}
use pstu_hackathon.Platform.Action.{State}
use pstu_hackathon.Platform.Action.Keeps.{Keeps, keeps_rules, pure-Keeps, bind-Keeps}
use pstu_hackathon.Platform.Canonical.{Json}
use pstu_hackathon.Ledger.Steady.{Steady}
use pstu_hackathon.Transfer.Repo.{PayeeAccount}
use pstu_hackathon.Transfer.Steady.{
  OnWorld, with_transaction-Keeps, idempotently-Keeps, transfer_rules,
}
use pstu_hackathon.Request.Steady.{RequestSteady, request_rules}
use pstu_hackathon.Split.Repo.{NewSplit, insert_split}
use pstu_hackathon.Split.{
  Participant, CreateSplitInput, resolve_payer, resolve, create_leg, create_legs, split_claimed,
  create_split,
}

-- `P` survives the insertion of a header row.
pub record SplitSteady (P : State → Type 0) : Type 0 where
  pub header : (n : NewSplit) → Keeps P (insert_split n)

-- a property that looks at no header row
pub unseen :
    {P : State → Type 0}
    → ((s : State) (n : ℕ) (bs : List BillSplit)
        → s.db.next_id ≤ n
        → P s
        → P (record s { db = record s.db { next_id = n; bill_splits = bs } }))
    → SplitSteady P
unfolding insert_split
unseen k = record {
  header = λ n. record { at = λ env s h. k s (s.db.next_id + 1) _ (later s.db.next_id) h };
}
  where
    later : (n : ℕ) → n ≤ n + 1
    later n = omega arith

module _ {P : State → Type 0} {C : ℕ → Type 0} (b : Steady P C) (q : RequestSteady P)
    (p : SplitSteady P) where
  insert_split-Keeps : (n : NewSplit) → Keeps P (insert_split n)
  insert_split-Keeps = p.header

  resolve_payer-Keeps : (u : ℕ) (x : Participant) → Keeps P (resolve_payer u x)
  unfolding resolve_payer
  resolve_payer-Keeps u x = search (transfer_rules) depth 24

  resolve-Keeps : (u : ℕ) (ps : List Participant) → Keeps P (resolve u ps)
  unfolding resolve
  resolve-Keeps u [] = pure-Keeps []
  resolve-Keeps u (x ∷ xs) =
      bind-Keeps _ _ (resolve_payer-Keeps u x)
        (λ y. bind-Keeps _ _ (resolve-Keeps u xs) (λ ys. pure-Keeps _))

  create_leg-Keeps :
      (u : ℕ) (input : CreateSplitInput) (s : BillSplit) (at : ℕ) (payer : PayeeAccount) (x : ℕ)
      → Keeps P (create_leg u input s at payer x)
  unfolding create_leg
  create_leg-Keeps u input s at payer x = search (request_rules) depth 24

  create_legs-Keeps :
      (u : ℕ) (input : CreateSplitInput) (s : BillSplit) (at : ℕ) (payers : List PayeeAccount)
      (xs : List ℕ)
      → Keeps P (create_legs u input s at payers xs)
  unfolding create_legs
  create_legs-Keeps u input s at [] xs = pure-Keeps []
  create_legs-Keeps u input s at (y ∷ ys) [] = search keeps_rules
  create_legs-Keeps u input s at (y ∷ ys) (x ∷ xs) =
      bind-Keeps _ _ (create_leg-Keeps u input s at y x)
        (λ l. bind-Keeps _ _ (create_legs-Keeps u input s at ys xs) (λ ls. pure-Keeps _))

  split_claimed-Keeps :
      (u : ℕ) (input : CreateSplitInput) (xs : List ℕ) (id : ℕ)
      → C id
      → Keeps P (split_claimed u input xs id)
  unfolding split_claimed
  split_claimed-Keeps u input xs id c =
      search (request_rules, resolve-Keeps, insert_split-Keeps, create_legs-Keeps) depth 40

  pub create_split-Keeps :
      (u key : ℕ) (input : CreateSplitInput) (raw : Json)
      → Keeps (OnWorld P) (create_split u key input raw)
  unfolding create_split
  create_split-Keeps u key input raw =
      search (keeps_rules, with_transaction-Keeps, idempotently-Keeps, split_claimed-Keeps) depth 24
