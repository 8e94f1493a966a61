-- ===== src/Shared/Allocate.antt =====
-- backend/src/shared/allocate.ts; `none` is the Error that it throws.
pub mod Even
pub mod Weighted
use pstu_hackathon.Base.{
  ℕ, zero, suc, ◌+◌, ◌-◌, ◌*◌, ◌/◌, ◌%◌, Bool, false, ◌||◌, Option, none, some, List, [], ◌∷◌, ltb,
  ◌==◌, length, map, if◌then◌else◌,
}
use pstu_hackathon.Base.Int.{ℤ, pos, pos_part, ltb_ℤ, leb_ℤ}

-- `left` shares, the first of them with index i
unfoldable pub shares : ℕ → ℕ → ℕ → ℕ → List ℕ
shares zero i base remainder = []
shares (suc left) i base remainder =
    (if ltb i remainder then base + 1 else base) ∷ shares left (i + 1) base remainder

unfoldable pub allocate_evenly : ℤ → ℤ → Option (List ℕ)
unfolding shares
allocate_evenly total count =
    if leb_ℤ count (pos 0)
    then none
    else if ltb_ℤ total (pos 0)
    then none
    else some (
        shares (pos_part count) 0 (pos_part total / pos_part count)
          (pos_part total % pos_part count))

-- `reduce((sum, share) => sum + share, 0n)`
abbrev pub sum : List ℕ → ℕ
sum [] = 0
sum (x ∷ xs) = x + sum xs

-- what the floor of the share with this index has left
pub record Remainder : Type 0 where
  pub index : ℕ
  pub remainder : ℕ

-- the floors of the shares
unfoldable pub quotas : ℕ → ℕ → List ℕ → List ℕ
quotas total whole [] = []
quotas total whole (w ∷ ws) = total * w / whole ∷ quotas total whole ws

unfoldable pub remainders : ℕ → ℕ → ℕ → List ℕ → List Remainder
remainders total whole i [] = []
remainders total whole i (w ∷ ws) =
    record { index = i; remainder = total * w % whole } ∷ remainders total whole (i + 1) ws

-- the larger remainder first, and of two that are equal the smaller index
abbrev pub is_before : Remainder → Remainder → Bool
is_before a b =
    if a.remainder == b.remainder then ltb a.index b.index else ltb b.remainder a.remainder

unfoldable pub insert_remainder : Remainder → List Remainder → List Remainder
insert_remainder r [] = r ∷ []
insert_remainder r (q ∷ qs) =
    let rest = insert_remainder r qs in if is_before q r then q ∷ rest else r ∷ q ∷ qs

unfoldable pub sort_remainders : List Remainder → List Remainder
unfolding insert_remainder
sort_remainders [] = []
sort_remainders (r ∷ rs) = insert_remainder r (sort_remainders rs)

-- `shares[index] = shares[index] + 1n`
unfoldable pub add_one : ℕ → List ℕ → List ℕ
add_one i [] = []
add_one zero (x ∷ xs) = (x + 1) ∷ xs
add_one (suc i) (x ∷ xs) = x ∷ add_one i xs

-- the loop over the remainders, until nothing is left
unfoldable pub hand_out : List Remainder → ℕ → List ℕ → List ℕ
unfolding add_one
hand_out [] left xs = xs
hand_out (r ∷ rs) zero xs = xs
hand_out (r ∷ rs) (suc left) xs = hand_out rs left (add_one r.index xs)

unfoldable pub weighted_shares : ℕ → List ℕ → List ℕ
unfolding quotas remainders sort_remainders hand_out
weighted_shares total weights =
    let floors = quotas total (sum weights) weights in
    hand_out (sort_remainders (remainders total (sum weights) 0 weights)) (total - sum floors)
      floors

abbrev pub any_negative : List ℤ → Bool
any_negative [] = false
any_negative (w ∷ ws) = ltb_ℤ w (pos 0) || any_negative ws

-- `allocateByWeight` of a total that is not negative
unfoldable pub allocate_by_weight : ℕ → List ℤ → Option (List ℕ)
unfolding weighted_shares allocate_evenly
allocate_by_weight total weights =
    if length weights == 0
    then none
    else if any_negative weights
    then none
    else if sum (map pos_part weights) == 0
    then allocate_evenly (pos total) (pos (length weights))
    else some (weighted_shares total (map pos_part weights))
