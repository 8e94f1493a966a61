-- ===== src/Ledger/Reference.antt =====
-- `generateReference` and `referenceDateRange` of ledger.service.ts: TF, the date as YYMMDD, and 40 random bits as eight
-- Crockford base-32 characters.
use pstu_hackathon.Base.{
  ℕ, zero, suc, ◌+◌, ◌-◌, ◌*◌, ◌/◌, ◌%◌, ◌^◌, Bool, true, false, ◌&&◌, ◌||◌, Option, some, none,
  List, [], ◌∷◌, ◌++◌, ltb, leb, ◌==◌, if◌then◌else◌,
}
use pstu_hackathon.Shared.Text.{Text, is_digit, to_string}
use pstu_hackathon.Shared.Money.{pad_two}

-- '0123456789ABCDEFGHJKMNPQRSTVWXYZ'[k], the letters without I, L, O and U
unfoldable pub base32 : ℕ → ℕ
base32 k =
    if ltb k 10
    then 48 + k
    else if ltb k 18
    then 55 + k
    else if ltb k 20
    then 56 + k
    else if ltb k 22
    then 57 + k
    else if ltb k 27
    then 58 + k
    else 59 + k

-- `bytes[i] ?? 0`
abbrev pub byte_at : List ℕ → ℕ → ℕ
byte_at [] i = 0
byte_at (b ∷ bs) zero = b
byte_at (b ∷ bs) (suc i) = byte_at bs i

-- The five bits from bit 5 i on. A byte has no bit above the eighth, so `|` is a sum.
unfoldable pub chunk : List ℕ → ℕ → ℕ
chunk bytes i =
    let offset = i * 5 in
    ((byte_at bytes (offset / 8) * 256 + byte_at bytes (offset / 8 + 1)) / 2 ^ (11 - offset % 8))
    % 32

-- `left` characters, the i-th first
unfoldable pub suffix : ℕ → ℕ → List ℕ → Text
unfolding base32 chunk
suffix zero i bytes = []
suffix (suc left) i bytes = base32 (chunk bytes i) ∷ suffix left (i + 1) bytes

unfoldable pub generate_reference : ℕ × ℕ × ℕ → List ℕ → Text
unfolding suffix to_string pad_two
generate_reference (year, month, day) bytes =
    b'T'
    ∷ b'F'
    ∷ (pad_two (to_string (year % 100))
        ++ (pad_two (to_string month) ++ (pad_two (to_string day) ++ suffix 8 0 bytes)))

-- `[0-9A-Z]`
abbrev is_code : ℕ → Bool
is_code c = is_digit c || (leb b'A' c && leb c b'Z')

-- `[0-9A-Z]{n}$`
unfoldable pub all_codes : ℕ → Text → Bool
all_codes zero [] = true
all_codes zero (c ∷ s) = false
all_codes (suc n) [] = false
all_codes (suc n) (c ∷ s) = is_code c && all_codes n s

-- the value of two digits
abbrev two_digits : ℕ → ℕ → ℕ
two_digits c d = (c - b'0') * 10 + (d - b'0')

-- the year, month and day of `/^TF(\d{2})(\d{2})(\d{2})[0-9A-Z]{8}$/`
unfoldable pub reference_date : Text → Option (ℕ × ℕ × ℕ)
unfolding all_codes
reference_date (t ∷ f ∷ y ∷ z ∷ m ∷ n ∷ d ∷ e ∷ rest) =
    if (t == b'T')
      && ((f == b'F')
          && (is_digit y
              && (is_digit z
                  && (is_digit m
                      && (is_digit n && (is_digit d && (is_digit e && all_codes 8 rest)))))))
    then some (2000 + two_digits y z, two_digits m n, two_digits d e)
    else none
reference_date s = none
