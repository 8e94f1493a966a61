-- ===== src/Base/Sums.antt =====
-- Sums of integers over the rows of a table, which no order of the rows changes.
use Prim.Native.Nat.{ℕ, ◌+◌}
use mathlib.Core.Path.{◌≡◌, refl, ap, sym, ◌∙◌}
use mathlib.Core.Bool.{Bool}
use mathlib.Core.Logic.{inl, inr}
use mathlib.Core.List.{List, [], ◌∷◌}
use native.Mathlib.Omega.{arith}
use package.pstu_hackathon.Base.Tests.{Bool-cases, ltb, length, if◌then◌else◌}
use package.pstu_hackathon.Base.Int.{ℤ, pos, ◌+ℤ◌, int_laws, zero-+ℤ}
use package.pstu_hackathon.Base.Table.{select_where, insert_by, sort_by}

abbrev pub sum_of {ℓ} : {A : Type ℓ} → (A → ℤ) → List A → ℤ
sum_of f [] = pos 0
sum_of f (x ∷ xs) = f x +ℤ sum_of f xs

swap : (a b c : ℤ) → a +ℤ (b +ℤ c) ≡ b +ℤ (a +ℤ c)
swap a b c = omega int_laws

module _ {ℓ} {A : Type ℓ} (f : A → ℤ) (key : A → ℕ) where
  sum_of-insert_by : (x : A) (xs : List A) → sum_of f (insert_by key x xs) ≡ f x +ℤ sum_of f xs
  unfolding insert_by
  sum_of-insert_by x [] = refl
  sum_of-insert_by x (y ∷ ys) = elim (Bool-cases (ltb (key y) (key x))) [
    | inl less ↦
        rw less (ap (λ z. f y +ℤ z) (sum_of-insert_by x ys) ∙ swap (f y) (f x) (sum_of f ys))
    | inr least ↦ rw least refl
  ]

  pub sum_of-sort_by : (xs : List A) → sum_of f (sort_by key xs) ≡ sum_of f xs
  unfolding sort_by
  sum_of-sort_by [] = refl
  sum_of-sort_by (x ∷ xs) =
      sum_of-insert_by x (sort_by key xs) ∙ ap (λ z. f x +ℤ z) (sum_of-sort_by xs)

  length-insert_by : (x : A) (xs : List A) → length (insert_by key x xs) ≡ length xs + 1
  unfolding insert_by
  length-insert_by x [] = refl
  length-insert_by x (y ∷ ys) = ground (arith, length-insert_by x ys)

  pub length-sort_by : (xs : List A) → length (sort_by key xs) ≡ length xs
  unfolding sort_by
  length-sort_by [] = refl
  length-sort_by (x ∷ xs) = omega (arith, length-insert_by x (sort_by key xs), length-sort_by xs)

module _ {ℓ} {A : Type ℓ} (f : A → ℤ) (p : A → Bool) where
  abbrev pub where_so : A → ℤ
  where_so x = if p x then f x else pos 0

  pub sum_of-select_where : (xs : List A) → sum_of f (select_where p xs) ≡ sum_of where_so xs
  sum_of-select_where [] = refl
  sum_of-select_where (x ∷ xs) = elim (Bool-cases (p x)) [
    | inl yes_so ↦ rw yes_so (ap (λ z. f x +ℤ z) (sum_of-select_where xs))
    | inr not_so ↦ rw not_so (sum_of-select_where xs ∙ sym (zero-+ℤ (sum_of where_so xs)))
  ]
