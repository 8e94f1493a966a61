-- ===== src/Shared/Money.antt =====
-- backend/src/shared/money.ts: amounts are integers of poisha, 1/100 of a Taka.
pub mod RoundTrip
use pstu_hackathon.Base.{
  ℕ, ◌+◌, ◌/◌, ◌%◌, ◌&&◌, Option, none, some, [], ◌∷◌, ◌++◌, ltb, ◌==◌, if◌then◌else◌, length,
}
use pstu_hackathon.Base.Int.{ℤ, pos, negsuc, pos_part, neg_part, sub_ℕ, ltb_ℤ}
use pstu_hackathon.Shared.Text.{Text, trim, to_string, read_digits}

abbrev pub poisha_per_taka : ℕ
poisha_per_taka = 100

-- `-n`
abbrev pub negate : ℕ → ℤ
negate n = sub_ℕ 0 n

-- `/^-?\d+$/` and `BigInt`, on a trimmed text; `none` is the TypeError.
unfoldable pub to_minor_digits : Text → Option ℕ
unfolding read_digits
to_minor_digits [] = none
to_minor_digits (c ∷ s) = read_digits 0 (c ∷ s)

unfoldable pub to_minor_trimmed : Text → Option ℤ
unfolding to_minor_digits
to_minor_trimmed [] = none
to_minor_trimmed (c ∷ s) =
    if c == b'-'
    then elim (to_minor_digits s) [ none ↦ none | some n ↦ some (negate n) ]
    else elim (to_minor_digits (c ∷ s)) [ none ↦ none | some n ↦ some (pos n) ]

-- a text, as `pg` and JSON give them
unfoldable pub to_minor : Text → Option ℤ
unfolding to_minor_trimmed trim
to_minor value = to_minor_trimmed (trim value)

-- `bigint.toString()`
unfoldable pub minor_string : ℤ → Text
unfolding to_string
minor_string (pos n) = to_string n
minor_string (negsuc n) = b'-' ∷ to_string (n + 1)

-- `replace(/\B(?=(\d{3})+(?!\d))/g, ',')`: a comma before every further group of three digits
unfoldable pub group_thousands : Text → Text
group_thousands [] = []
group_thousands (c ∷ s) =
    let rest = group_thousands s in
    c ∷ (if ltb 0 (length s) && length s % 3 == 0 then b',' ∷ rest else rest)

-- `padStart(2, '0')`
unfoldable pub pad_two : Text → Text
pad_two [] = b'0' ∷ b'0' ∷ []
pad_two (c ∷ []) = b'0' ∷ c ∷ []
pad_two (c ∷ d ∷ s) = c ∷ d ∷ s

unfoldable pub format_taka : ℤ → Text
unfolding to_string group_thousands pad_two
format_taka minor =
    let abs = pos_part minor + neg_part minor in
    let rest =
      group_thousands (to_string (abs / poisha_per_taka))
      ++ (b'.' ∷ pad_two (to_string (abs % poisha_per_taka))) in
    if ltb_ℤ minor (pos 0) then b'-' ∷ rest else rest

pub record MoneyDto : Type 0 where
  pub minor : Text
  pub formatted : Text

unfoldable pub money : ℤ → MoneyDto
unfolding minor_string format_taka
money minor = record { minor = minor_string minor; formatted = format_taka minor }
