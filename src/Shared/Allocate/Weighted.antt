-- ===== src/Shared/Allocate/Weighted.antt =====
-- A split by weights gives everything away: less than one poisha for each share is left by the floors.
use native.Mathlib.Nat.{mod-lt, le_of_mul-le-mul_right}
use native.Mathlib.Omega.{div_any}
use pstu_hackathon.Base.{
  ℕ, zero, suc, ◌+◌, ◌-◌, false, ◌*◌, ◌<◌, ◌≤◌, ◌≡◌, refl, arith, some, List, [], ◌∷◌, length,
  Bool-cases, inl, inr, map, ap, ◌==◌, ◌∙◌,
}
use pstu_hackathon.Base.Int.{pos, pos_part}
use pstu_hackathon.Base.Table.{All}
use pstu_hackathon.Shared.Allocate.{
  sum, Remainder, quotas, remainders, is_before, insert_remainder, sort_remainders, add_one,
  hand_out, weighted_shares, any_negative, allocate_by_weight,
}
use pstu_hackathon.Shared.Allocate.Even.{allocate_evenly_exact}

rest_sum : List Remainder → ℕ
rest_sum [] = 0
rest_sum (r ∷ rs) = r.remainder + rest_sum rs

length-quotas : (total whole : ℕ) (ws : List ℕ) → length (quotas total whole ws) ≡ length ws
unfolding quotas
length-quotas total whole [] = refl
length-quotas total whole (w ∷ ws) = omega (arith, length-quotas total whole ws)

length-remainders :
    (total whole i : ℕ) (ws : List ℕ) → length (remainders total whole i ws) ≡ length ws
unfolding remainders
length-remainders total whole i [] = refl
length-remainders total whole i (w ∷ ws) = omega (arith, length-remainders total whole (i + 1) ws)

abbrev IsBelow : ℕ → Remainder → Type 0
IsBelow n r = r.index < n

remainders-IsBelow :
    (total whole i n : ℕ) (ws : List ℕ)
    → i + length ws ≤ n
    → All (IsBelow n) (remainders total whole i ws)
unfolding remainders
remainders-IsBelow total whole i n [] h = tt
remainders-IsBelow total whole i n (w ∷ ws) h =
    (omega (arith, h), remainders-IsBelow total whole (i + 1) n ws (omega (arith, h)))

length-insert_remainder :
    (r : Remainder) (rs : List Remainder) → length (insert_remainder r rs) ≡ length rs + 1
unfolding insert_remainder
length-insert_remainder r [] = refl
length-insert_remainder r (q ∷ qs) = ground (arith, length-insert_remainder r qs)

length-sort_remainders : (rs : List Remainder) → length (sort_remainders rs) ≡ length rs
unfolding sort_remainders
length-sort_remainders [] = refl
length-sort_remainders (r ∷ rs) =
    omega (arith, length-insert_remainder r (sort_remainders rs), length-sort_remainders rs)

insert_remainder-All :
    (P : Remainder → Type 0) (r : Remainder) (rs : List Remainder)
    → P r
    → All P rs
    → All P (insert_remainder r rs)
unfolding insert_remainder
insert_remainder-All P r [] p h = (p, tt)
insert_remainder-All P r (q ∷ qs) p h = elim (Bool-cases (is_before q r)) [
  | inl first ↦ rw first (h.0, insert_remainder-All P r qs p h.1)
  | inr later ↦ rw later (p, h)
]

sort_remainders-All :
    (P : Remainder → Type 0) (rs : List Remainder) → All P rs → All P (sort_remainders rs)
unfolding sort_remainders
sort_remainders-All P [] h = tt
sort_remainders-All P (r ∷ rs) h =
    insert_remainder-All P r (sort_remainders rs) h.0 (sort_remainders-All P rs h.1)

sum-add_one : (i : ℕ) (xs : List ℕ) → i < length xs → sum (add_one i xs) ≡ sum xs + 1
unfolding add_one
sum-add_one i [] h = absurd (omega (arith, h))
sum-add_one zero (x ∷ xs) h = omega arith
sum-add_one (suc i) (x ∷ xs) h = omega (arith, sum-add_one i xs (omega (arith, h)))

length-add_one : (i : ℕ) (xs : List ℕ) → length (add_one i xs) ≡ length xs
unfolding add_one
length-add_one i [] = refl
length-add_one zero (x ∷ xs) = refl
length-add_one (suc i) (x ∷ xs) = omega (arith, length-add_one i xs)

length-hand_out :
    (rs : List Remainder) (left : ℕ) (xs : List ℕ) → length (hand_out rs left xs) ≡ length xs
unfolding hand_out
length-hand_out [] left xs = refl
length-hand_out (r ∷ rs) zero xs = refl
length-hand_out (r ∷ rs) (suc left) xs =
    length-hand_out rs left (add_one r.index xs) ∙ length-add_one r.index xs

sum-hand_out :
    (rs : List Remainder) (left : ℕ) (xs : List ℕ)
    → left ≤ length rs
    → All (IsBelow (length xs)) rs
    → sum (hand_out rs left xs) ≡ sum xs + left
unfolding hand_out
sum-hand_out [] zero xs le h = omega arith
sum-hand_out [] (suc left) xs le h = absurd (omega (arith, le))
sum-hand_out (r ∷ rs) zero xs le h = omega arith
sum-hand_out (r ∷ rs) (suc left) xs le h = omega (
  arith,
  sum-hand_out rs left (add_one r.index xs) (omega (arith, le)) below,
  sum-add_one r.index xs h.0,
)
  where
    below : All (IsBelow (length (add_one r.index xs))) rs
    below = rw (length-add_one r.index xs) h.1

-- The floors and what they leave make up the whole.
quotas_whole :
    (total whole i : ℕ) (ws : List ℕ)
    → sum (quotas total whole ws) * whole + rest_sum (remainders total whole i ws) ≡ total * sum ws
unfolding quotas remainders rest_sum
quotas_whole total whole i [] = omega arith
quotas_whole total whole i (w ∷ ws) =
    omega (arith, div_any (total * w) whole, quotas_whole total whole (i + 1) ws)

rest_small :
    (total whole i : ℕ) (ws : List ℕ)
    → 0 < whole
    → rest_sum (remainders total whole i ws) ≤ whole * length ws
unfolding remainders rest_sum
rest_small total whole i [] h = omega arith
rest_small total whole i (w ∷ ws) h =
    omega (arith, mod-lt (total * w) h, rest_small total whole (i + 1) ws h)

-- what is left is less than a whole for each share
few :
    (given left whole rest n : ℕ)
    → given * whole + rest ≡ (given + left) * whole
    → rest ≤ whole * n
    → 0 < whole
    → left ≤ n
few given left whole rest n e le h = le_of_mul-le-mul_right {k = whole} (omega (arith, e, le)) h

module _ (total : ℕ) (ws : List ℕ) (positive : 0 < sum ws) where
  abbrev floors : List ℕ
  floors = quotas total (sum ws) ws

  abbrev rests : List Remainder
  rests = remainders total (sum ws) 0 ws

  floors_below : sum floors ≤ total
  floors_below = le_of_mul-le-mul_right (omega (arith, quotas_whole total (sum ws) 0 ws)) positive

  left_small : total - sum floors ≤ length ws
  left_small =
      few (sum floors) (total - sum floors) (sum ws) (rest_sum rests) (length ws)
        (rw split (quotas_whole total (sum ws) 0 ws)) (rest_small total (sum ws) 0 ws positive)
        positive
    where
      split : sum floors + (total - sum floors) ≡ total
      split = omega (arith, floors_below)

  length-rests : length (sort_remainders rests) ≡ length ws
  length-rests = length-sort_remainders rests ∙ length-remainders total (sum ws) 0 ws

  rests-IsBelow : All (IsBelow (length floors)) (sort_remainders rests)
  rests-IsBelow = sort_remainders-All _ rests (
      remainders-IsBelow total (sum ws) 0 (length floors) ws
        (omega (arith, length-quotas total (sum ws) ws)))

  sum-weighted_shares : sum (weighted_shares total ws) ≡ total
  unfolding weighted_shares
  sum-weighted_shares = omega (
    arith,
    sum-hand_out (sort_remainders rests) (total - sum floors) floors
        (omega (arith, left_small, length-rests)) rests-IsBelow,
    floors_below,
  )

  length-weighted_shares : length (weighted_shares total ws) ≡ length ws
  unfolding weighted_shares
  length-weighted_shares =
      length-hand_out (sort_remainders rests) (total - sum floors) floors
      ∙ length-quotas total (sum ws) ws

naturals : (ws : List ℕ) → map pos_part (map pos ws) ≡ ws
naturals [] = refl
naturals (w ∷ ws) = ap (λ xs. w ∷ xs) (naturals ws)

none_negative : (ws : List ℕ) → any_negative (map pos ws) ≡ false
none_negative [] = refl
none_negative (w ∷ ws) = ground (arith, none_negative ws)

length-naturals : (ws : List ℕ) → length (map pos ws) ≡ length ws
length-naturals [] = refl
length-naturals (w ∷ ws) = omega (arith, length-naturals ws)

-- Splitting an amount that is not negative by at least one weight, none of them negative, returns one share for
-- each, and they add up to the amount.
pub allocate_by_weight_exact :
    (total : ℕ) (ws : List ℕ)
    → 0 < length ws
    → (xs : List ℕ) × (allocate_by_weight total (map pos ws) ≡ some xs)
      × (sum xs ≡ total)
      × (length xs ≡ length ws)
unfolding allocate_by_weight
allocate_by_weight_exact total ws some_ws = elim (Bool-cases (sum ws == 0)) [
  | inl idle ↦
      let (xs, e, s, n, fair) = allocate_evenly_exact total (length ws) some_ws in
      (xs, rw (counted, none_negative ws, naturals ws, idle, length-naturals ws) e, s, n)
  | inr weighs ↦ (
    weighted_shares total ws,
    rw (counted, none_negative ws, naturals ws, weighs) refl,
    sum-weighted_shares total ws (==_positive weighs),
    length-weighted_shares total ws (==_positive weighs),
  )
]
  where
    counted : (length (map pos ws) == 0) ≡ false
    counted = rw (length-naturals ws) (ground (arith, some_ws))

    ==_positive : (sum ws == 0) ≡ false → 0 < sum ws
    ==_positive e = ground (arith, e)
