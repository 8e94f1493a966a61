-- ===== src/Shared/Money/RoundTrip.antt =====
-- An amount is read back from the text that it is written as.
use pstu_hackathon.Base.{
  ℕ, zero, suc, ◌+◌, ◌-◌, ◌*◌, ◌/◌, ◌%◌, ◌<◌, ◌≡◌, refl, sym, ap, ◌∙◌, arith, true, false, some, [],
  ◌∷◌, ◌==◌, Bool-cases, inl, inr, ==_eq, leb, leb,
}
use pstu_hackathon.Base.Table.{All, missing}
use pstu_hackathon.Base.Int.{ℤ, pos, negsuc}
use pstu_hackathon.Shared.Text.{
  Text, is_space, keep_before, trim_start, trim_end, trim, is_digit, decimal, to_string,
  read_digits,
}
use pstu_hackathon.Shared.Money.{negate, to_minor_digits, to_minor, to_minor_trimmed, minor_string}

digit_read :
    (a d : ℕ) (s : Text) → d < 10 → read_digits a ((b'0' + d) ∷ s) ≡ read_digits (a * 10 + d) s
unfolding read_digits
digit_read a d s h = rw (digit, back) refl
  where
    digit : is_digit (b'0' + d) ≡ true
    digit = ground (arith, h)

    back : b'0' + d - b'0' ≡ d
    back = omega arith

read_digits-decimal :
    (fuel n : ℕ) (acc : Text) → n < fuel → read_digits 0 (decimal fuel n acc) ≡ read_digits n acc
unfolding decimal
read_digits-decimal zero n acc h = absurd (omega (arith, h))
read_digits-decimal (suc fuel) n acc h = elim (Bool-cases (n / 10 == 0)) [
  | inl last ↦ rw last (
      digit_read 0 (n % 10) acc (omega arith)
      ∙ ap (λ k. read_digits k acc) (omega (arith, ==_eq (n / 10) 0 last)))
  | inr more ↦ rw more (
      read_digits-decimal fuel (n / 10) ((b'0' + n % 10) ∷ acc) (ground (arith, h, more))
      ∙ digit_read (n / 10) (n % 10) acc (omega arith)
      ∙ ap (λ k. read_digits k acc) (omega arith))
]

read_digits-to_string : (n : ℕ) → read_digits 0 (to_string n) ≡ some n
unfolding to_string read_digits
read_digits-to_string n = read_digits-decimal (suc n) n [] (omega arith)

-- A numeral starts with some character.
decimal_front : (fuel n c : ℕ) (s : Text) → (d : ℕ) × (t : Text) × (decimal fuel n (c ∷ s) ≡ d ∷ t)
unfolding decimal
decimal_front zero n c s = (c, s, refl)
decimal_front (suc fuel) n c s = elim (Bool-cases (n / 10 == 0)) [
  | inl last ↦ rw last (b'0' + n % 10, c ∷ s, refl)
  | inr more ↦ rw more (decimal_front fuel (n / 10) (b'0' + n % 10) (c ∷ s))
]

to_string_front : (n : ℕ) → (d : ℕ) × (t : Text) × (to_string n ≡ d ∷ t)
unfolding to_string decimal
to_string_front n = elim (Bool-cases (n / 10 == 0)) [
  | inl last ↦ rw last (b'0' + n % 10, [], refl)
  | inr more ↦ rw more (decimal_front n (n / 10) (b'0' + n % 10) [])
]

to_minor_digits-to_string : (n : ℕ) → to_minor_digits (to_string n) ≡ some n
unfolding to_minor_digits read_digits
to_minor_digits-to_string n =
    let (d, t, e) = to_string_front n in
    ap to_minor_digits e ∙ ap (read_digits 0) (sym e) ∙ read_digits-to_string n

-- what starts a text of digits is not the sign
unsigned : (d : ℕ) (t : Text) {n : ℕ} → read_digits 0 (d ∷ t) ≡ some n → (d == b'-') ≡ false
unfolding read_digits
unsigned d t h = elim (Bool-cases (d == b'-')) [
  | inl sign ↦ absurd (missing (rw (other_sign sign) at h))
  | inr other ↦ other
]
  where
    other_sign : (d == b'-') ≡ true → is_digit d ≡ false
    other_sign e = ground (arith, e)

negate_suc : (n : ℕ) → negate (n + 1) ≡ negsuc n
negate_suc n = rw below (ap negsuc (omega arith))
  where
    below : leb (n + 1) 0 ≡ false
    below = ground arith

to_minor_trimmed-minor_string : (amount : ℤ) → to_minor_trimmed (minor_string amount) ≡ some amount
unfolding to_minor_trimmed minor_string
to_minor_trimmed-minor_string (pos n) =
    let (d, t, e) = to_string_front n in
    let read = ap (read_digits 0) (sym e) ∙ read_digits-to_string n in
    let digits = ap to_minor_digits (sym e) ∙ to_minor_digits-to_string n in
    rw (e, unsigned d t {n = n} read, digits) refl
to_minor_trimmed-minor_string (negsuc n) =
    rw (to_minor_digits-to_string (n + 1)) (ap some (negate_suc n))

-- What has no white space is left alone by `trim`.
abbrev IsSolid : Text → Type 0
IsSolid s = All (λ c. is_space c ≡ false) s

trim_start-IsSolid : (s : Text) → IsSolid s → trim_start s ≡ s
unfolding trim_start
trim_start-IsSolid [] h = refl
trim_start-IsSolid (c ∷ s) h = rw h.0 refl

trim_end-IsSolid : (s : Text) → IsSolid s → trim_end s ≡ s
unfolding trim_end
trim_end-IsSolid [] h = refl
trim_end-IsSolid (c ∷ s) h = ap (keep_before c) (trim_end-IsSolid s h.1) ∙ kept s
  where
    kept : (t : Text) → keep_before c t ≡ c ∷ t
    kept [] = rw h.0 refl
    kept (d ∷ t) = refl

trim-IsSolid : (s : Text) → IsSolid s → trim s ≡ s
unfolding trim
trim-IsSolid s h = ap trim_end (trim_start-IsSolid s h) ∙ trim_end-IsSolid s h

-- A text of digits has no white space.
digits-IsSolid : (s : Text) (a : ℕ) {n : ℕ} → read_digits a s ≡ some n → IsSolid s
unfolding read_digits
digits-IsSolid [] a h = tt
digits-IsSolid (c ∷ s) a h = elim (Bool-cases (is_digit c)) [
  | inl digit ↦ (solid digit, digits-IsSolid s (a * 10 + (c - b'0')) (rw digit at h))
  | inr other ↦ absurd (missing (rw other at h))
]
  where
    solid : is_digit c ≡ true → is_space c ≡ false
    solid e = ground (arith, e)

minor_string-IsSolid : (amount : ℤ) → IsSolid (minor_string amount)
unfolding minor_string
minor_string-IsSolid (pos n) = digits-IsSolid (to_string n) 0 (read_digits-to_string n)
minor_string-IsSolid (negsuc n) =
    (refl, digits-IsSolid (to_string (n + 1)) 0 (read_digits-to_string (n + 1)))

-- The text of an amount is read back as that amount.
pub to_minor-minor_string : (amount : ℤ) → to_minor (minor_string amount) ≡ some amount
unfolding to_minor
to_minor-minor_string amount =
    ap to_minor_trimmed (trim-IsSolid (minor_string amount) (minor_string-IsSolid amount))
    ∙ to_minor_trimmed-minor_string amount
