-- ===== src/Shared/Allocate/Even.antt =====
-- An even split gives everything away, and nobody gets two poisha more than another.
use native.Mathlib.Nat.{mod-lt}
use native.Mathlib.Omega.{div_any}
use pstu_hackathon.Base.{
  ℕ, zero, suc, ◌+◌, false, ◌*◌, ◌/◌, ◌%◌, ◌<◌, ◌≤◌, ◌≡◌, refl, arith, some, List, ltb, length,
  Bool-cases, inl, inr,
}
use pstu_hackathon.Base.Int.{pos}
use pstu_hackathon.Base.Table.{All}
use pstu_hackathon.Shared.Allocate.{sum, shares, allocate_evenly}

-- those after the remainder
sum-shares_base :
    (left i base remainder : ℕ) → remainder ≤ i → sum (shares left i base remainder) ≡ left * base
unfolding shares
sum-shares_base zero i base remainder h = omega arith
sum-shares_base (suc left) i base remainder h =
    ground (arith, h, sum-shares_base left (i + 1) base remainder (omega (arith, h)))

sum-shares :
    (left i base remainder : ℕ)
    → i ≤ remainder
    → remainder ≤ i + left
    → sum (shares left i base remainder) + i ≡ left * base + remainder
unfolding shares
sum-shares zero i base remainder h k = omega (arith, h, k)
sum-shares (suc left) i base remainder h k = elim (Bool-cases (ltb i remainder)) [
  | inl less ↦ rw less (
      omega
        (arith, sum-shares left (i + 1) base remainder (ground (arith, less)) (omega (arith, k))))
  | inr last ↦
      rw last (
        omega
          (arith, same last, sum-shares_base left (i + 1) base remainder (ground (arith, last))))
]
  where
    same : ltb i remainder ≡ false → remainder ≡ i
    same e = ground (arith, e, h)

length-shares : (left i base remainder : ℕ) → length (shares left i base remainder) ≡ left
unfolding shares
length-shares zero i base remainder = refl
length-shares (suc left) i base remainder = omega (arith, length-shares left (i + 1) base remainder)

-- `x` is the base or one more.
abbrev pub IsFair : ℕ → ℕ → Type 0
IsFair base x = (base ≤ x) × (x ≤ base + 1)

shares-IsFair : (left i base remainder : ℕ) → All (IsFair base) (shares left i base remainder)
unfolding shares
shares-IsFair zero i base remainder = tt
shares-IsFair (suc left) i base remainder =
    (ground arith, shares-IsFair left (i + 1) base remainder)

-- Splitting an amount that is not negative among at least one participant returns one share for each, which
-- add up to the amount, and each of which is the quotient or one poisha more.
pub allocate_evenly_exact :
    (total n : ℕ)
    → 0 < n
    → (xs : List ℕ) × (allocate_evenly (pos total) (pos n) ≡ some xs)
      × (sum xs ≡ total)
      × (length xs ≡ n)
      × All (IsFair (total / n)) xs
unfolding allocate_evenly
allocate_evenly_exact total n some_n = (
  shares n 0 (total / n) (total % n),
  ground arith,
  omega (
    arith,
    sum-shares n 0 (total / n) (total % n) (omega arith) (omega (arith, mod-lt total some_n)),
    div_any total n,
  ),
  length-shares n 0 (total / n) (total % n),
  shares-IsFair n 0 (total / n) (total % n),
)
