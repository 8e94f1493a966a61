-- ===== src/Split/Whole.antt =====
-- The shares of a split are the whole bill.
use pstu_hackathon.Base.{
  ℕ, suc, ◌+◌, ◌<◌, ◌≡◌, refl, ◌∙◌, ap, arith, Option, none, some, List, [], ◌∷◌, map, length,
  Bool-cases, inl, inr,
}
use pstu_hackathon.Base.Int.{ℤ, pos}
use pstu_hackathon.Shared.Allocate.{sum, allocate_by_weight}
use pstu_hackathon.Shared.Allocate.Even.{allocate_evenly_exact}
use pstu_hackathon.Shared.Allocate.Weighted.{allocate_by_weight_exact}
use pstu_hackathon.Split.{
  Participant, CreateSplitInput, with_weight, all_weights, own_part, with_own, allocate_weights,
  allocate,
}

-- The weights are natural numbers, one for each participant.
abbrev IsWeights : ℕ → Option (List ℤ) → Type 0
IsWeights n none = Unit
IsWeights n (some ws) = (ns : List ℕ) × (ws ≡ map pos ns) × (length ns ≡ n)

with_weight-IsWeights :
    (n : ℕ) (w : Option ℕ) (o : Option (List ℤ))
    → IsWeights n o
    → IsWeights (suc n) (with_weight w o)
with_weight-IsWeights n none o h = tt
with_weight-IsWeights n (some w) none h = tt
with_weight-IsWeights n (some w) (some ws) (ns, e, k) =
    (w ∷ ns, ap (λ xs. pos w ∷ xs) e, omega (arith, k))

all_weights-IsWeights : (ps : List Participant) → IsWeights (length ps) (all_weights ps)
unfolding all_weights
all_weights-IsWeights [] = ([], refl, refl)
all_weights-IsWeights (p ∷ ps) =
    with_weight-IsWeights (length ps) p.weight (all_weights ps) (all_weights-IsWeights ps)

own_naturals :
    (input : CreateSplitInput) (ns : List ℕ)
    → (ms : List ℕ) × (with_own input (map pos ns) ≡ map pos ms)
      × (length ms ≡ length ns + own_part input.include_self)
own_naturals input ns = elim (Bool-cases input.include_self) [
  | inl own ↦ (input.self_weight ∷ ns, rw own refl, rw own (omega arith))
  | inr none_own ↦ (ns, rw none_own refl, rw none_own (omega arith))
]

allocate_weights-exact :
    (input : CreateSplitInput) (o : Option (List ℤ))
    → IsWeights (length input.participants) o
    → 0 < length input.participants
    → (xs : List ℕ) × (allocate_weights input o ≡ some xs)
      × (sum xs ≡ input.total_amount_minor)
      × (length xs ≡ length input.participants + own_part input.include_self)
allocate_weights-exact input none h some_ps =
    let (xs, e, s, n, fair) =
      allocate_evenly_exact input.total_amount_minor
        (length input.participants + own_part input.include_self) (omega (arith, some_ps)) in
    (xs, e, s, n)
allocate_weights-exact input (some ws) (ns, e, k) some_ps =
    let (ms, same, count) = own_naturals input ns in
    let (xs, f, s, n) =
      allocate_by_weight_exact input.total_amount_minor ms (omega (arith, count, k, some_ps)) in
    (
      xs,
      ap (allocate_by_weight input.total_amount_minor) (ap (with_own input) e ∙ same) ∙ f,
      s,
      omega (arith, n, count, k),
    )

-- Where there is a participant, the allocation of a split succeeds: one share for each participant, and one
-- for the creator if they take part, and the shares add up to the total. So the error for an allocation
-- that does not is never thrown.
pub allocate_whole :
    (input : CreateSplitInput)
    → 0 < length input.participants
    → (xs : List ℕ) × (allocate input ≡ some xs)
      × (sum xs ≡ input.total_amount_minor)
      × (length xs ≡ length input.participants + own_part input.include_self)
unfolding allocate
allocate_whole input some_ps =
    allocate_weights-exact input (all_weights input.participants)
      (all_weights-IsWeights input.participants) some_ps
