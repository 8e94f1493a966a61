-- ===== src/Base/Table.antt =====
-- A table of the database: its rows, each with a primary key that `key` reads. A new row is put in
-- front.
use Prim.Native.Nat.{ℕ, zero, suc}
use mathlib.Core.Path.{◌≡◌, refl, sym, ap, subst, ◌∙◌}
use mathlib.Core.Logic.{◌≢◌, inl, inr}
use mathlib.Core.Bool.{Bool, true}
use mathlib.Core.Option.{Option, none, some}
use mathlib.Core.List.{List, [], ◌∷◌}
use native.Mathlib.Omega.{arith}
use package.pstu_hackathon.Base.Tests.{Bool-cases, ltb, ◌==◌, if◌then◌else◌}

-- rows that a WHERE clause selects
abbrev pub select_where {ℓ} : {A : Type ℓ} → (A → Bool) → List A → List A
select_where p [] = []
select_where p (x ∷ xs) = let rest = select_where p xs in if p x then x ∷ rest else rest

-- the first of them, `rows[0]`
abbrev pub first_where {ℓ} : {A : Type ℓ} → (A → Bool) → List A → Option A
first_where p [] = none
first_where p (x ∷ xs) = let rest = first_where p xs in if p x then some x else rest

-- ORDER BY key
unfoldable pub insert_by {ℓ} : {A : Type ℓ} → (A → ℕ) → A → List A → List A
insert_by key x [] = x ∷ []
insert_by key x (y ∷ ys) =
    let rest = insert_by key x ys in if ltb (key y) (key x) then y ∷ rest else x ∷ y ∷ ys

unfoldable pub sort_by {ℓ} : {A : Type ℓ} → (A → ℕ) → List A → List A
unfolding insert_by
sort_by key [] = []
sort_by key (x ∷ xs) = insert_by key x (sort_by key xs)

-- LIMIT n
abbrev pub take {ℓ} : {A : Type ℓ} → ℕ → List A → List A
take zero xs = []
take (suc n) [] = []
take (suc n) (x ∷ xs) = x ∷ take n xs

abbrev pub All {ℓ κ} : {A : Type ℓ} → (A → Type κ) → List A → Type κ
All P [] = Unit
All P (x ∷ xs) = P x × All P xs

abbrev pub apply_if {ℓ} : {A : Type ℓ} → Bool → (A → A) → Option A → Option A
apply_if b f none = none
apply_if b f (some x) = if b then some (f x) else some x

module _ {ℓ} {A : Type ℓ} (key : A → ℕ) where
  -- SELECT … WHERE id = k
  abbrev pub find : ℕ → List A → Option A
  find k [] = none
  find k (x ∷ xs) = let rest = find k xs in if key x == k then some x else rest

  -- UPDATE … SET f WHERE id = k
  abbrev pub modify : ℕ → (A → A) → List A → List A
  modify k f [] = []
  modify k f (x ∷ xs) = let rest = modify k f xs in (if key x == k then f x else x) ∷ rest

  -- the primary key constraint
  abbrev pub IsKeyed : List A → Type ℓ
  IsKeyed [] = Unit
  IsKeyed (x ∷ xs) = (find (key x) xs ≡ none) × IsKeyed xs

  -- What is found after an update that leaves the key alone.
  pub find-modify :
      (j k : ℕ) (f : A → A) (xs : List A)
      → ((x : A) → key (f x) ≡ key x)
      → find j (modify k f xs) ≡ apply_if (j == k) f (find j xs)
  find-modify j k f [] e = refl
  find-modify j k f (x ∷ xs) e = ground (arith, e x, find-modify j k f xs e)

  pub key-find : (k : ℕ) (x : A) (xs : List A) → find k xs ≡ some x → key x ≡ k
  key-find k x [] h = cc
  key-find k x (y ∷ ys) h = ground (arith, key-find k x ys)

  pub modify-IsKeyed :
      (k : ℕ) (f : A → A) (xs : List A)
      → ((x : A) → key (f x) ≡ key x)
      → IsKeyed xs
      → IsKeyed (modify k f xs)
  modify-IsKeyed k f [] e h = tt
  modify-IsKeyed k f (x ∷ xs) e h = ground (
    arith,
    e x,
    find-modify (key x) k f xs e,
    find-modify (key (f x)) k f xs e,
    modify-IsKeyed k f xs e h.1,
  )

pub All-imp {ℓ κ μ} :
    {A : Type ℓ} {P : A → Type κ} {Q : A → Type μ} (xs : List A)
    → ((x : A) → P x → Q x)
    → All P xs
    → All Q xs
All-imp [] f h = tt
All-imp (x ∷ xs) f (p, h) = (f x p, All-imp xs f h)

-- An update that keeps a property of the rows.
pub All-modify {ℓ κ} :
    {A : Type ℓ} {P : A → Type κ} (key : A → ℕ) (k : ℕ) (f : A → A) (xs : List A)
    → ((x : A) → P x → P (f x))
    → All P xs
    → All P (modify key k f xs)
All-modify key k f [] e h = tt
All-modify key k f (x ∷ xs) e (p, h) = elim (Bool-cases (key x == k)) [
  | inl hit ↦ rw hit (e x p, All-modify key k f xs e h)
  | inr miss ↦ rw miss (p, All-modify key k f xs e h)
]

pub some_inj {ℓ} : {A : Type ℓ} {y z : A} → some y ≡ some z → y ≡ z
some_inj q = cc

-- The first row of a selection, after an update that the selection does not see.
pub first_where-modify {ℓ} :
    {A : Type ℓ} (key : A → ℕ) (p : A → Bool) (k : ℕ) (f : A → A) (xs : List A) {x : A}
    → ((y : A) → p (f y) ≡ p y)
    → first_where p xs ≡ some x
    → first_where p (modify key k f xs) ≡ some (if key x == k then f x else x)
first_where-modify key p k f [] e h = cc
first_where-modify {A = A} key p k f (y ∷ ys) {x} e h = elim (Bool-cases (p y)) [
  | inl hit ↦ rw (seen ∙ hit) (
      ap {B = Option A} (λ z. some (if key z == k then f z else z))
        (some_inj {y = y} {z = x} (rw hit at h)))
  | inr miss ↦ rw (seen ∙ miss) (first_where-modify key p k f ys e (rw miss at h))
]
  where
    seen : p (if key y == k then f y else y) ≡ p y
    seen = elim (Bool-cases (key y == k)) [ inl same ↦ rw same (e y) | inr other ↦ rw other refl ]

pub missing {ℓ} : {A : Type ℓ} {x : A} → none ≡ some x → ⊥
missing e = cc

-- A key that is not found is the key of no row.
pub absent {ℓ} :
    {A : Type ℓ} (key : A → ℕ) (k : ℕ) (xs : List A)
    → find key k xs ≡ none
    → All (λ x. key x ≢ k) xs
absent key k [] h = tt
absent key k (x ∷ xs) h = elim (Bool-cases (key x == k)) [
  | inl same ↦ absurd (missing (sym (rw same at h)))
  | inr other ↦ ((λ e. ground (arith, e, other)), absent key k xs (rw other at h))
]

-- What holds of all rows holds of the one that is found.
pub first_where-All {ℓ κ} :
    {A : Type ℓ} (P : A → Type κ) (p : A → Bool) {x : A} (xs : List A)
    → All P xs
    → first_where p xs ≡ some x
    → P x
first_where-All P p [] h f = absurd (missing f)
first_where-All P p (y ∷ ys) h f = elim (Bool-cases (p y)) [
  | inl hit ↦ subst P (some_inj (rw hit at f)) h.0
  | inr miss ↦ first_where-All P p ys h.1 (rw miss at f)
]

-- The row that is found passes the test.
pub first_where-holds {ℓ} :
    {A : Type ℓ} (p : A → Bool) {x : A} (xs : List A) → first_where p xs ≡ some x → p x ≡ true
first_where-holds p [] f = absurd (missing f)
first_where-holds p (y ∷ ys) f = elim (Bool-cases (p y)) [
  | inl hit ↦ subst (λ z. p z ≡ true) (some_inj (rw hit at f)) hit
  | inr miss ↦ first_where-holds p ys (rw miss at f)
]

-- What holds of all rows holds of those that are selected.
pub All-select_where {ℓ κ} :
    {A : Type ℓ} (P : A → Type κ) (p : A → Bool) (xs : List A)
    → All P xs
    → All P (select_where p xs)
All-select_where P p [] h = tt
All-select_where P p (x ∷ xs) h = elim (Bool-cases (p x)) [
  | inl hit ↦ rw hit (h.0, All-select_where P p xs h.1)
  | inr miss ↦ rw miss (All-select_where P p xs h.1)
]
