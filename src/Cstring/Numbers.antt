-- ===== src/Cstring/Numbers.antt =====
-- `atoi` and the signed numbers that it returns. A number beyond the range of `int` is left as it
-- is: the C library promises nothing there.
use gogoc_android.Prelude.{
  ℕ, zero, suc, ◌+◌, ◌-◌, ◌*◌, Bool, false, [], ◌∷◌, leb, ◌==◌, ◌&&◌, ◌||◌, if◌then◌else◌,
}
use gogoc_android.Cstring.{Text}

pub data ℤ : Type 0 where
  pos : ℕ → ℤ
  negsuc : ℕ → ℤ

abbrev pub negate : ℕ → ℤ
negate zero = pos 0
negate (suc n) = negsuc n

-- `isspace` in the C locale: tab to carriage return, and the space
abbrev pub is_space : ℕ → Bool
is_space c = (c == 32) || (leb 9 c && leb c 13)

abbrev pub is_digit : ℕ → Bool
is_digit c = leb b'0' c && leb c b'9'

-- the digits, after the ones already read
unfoldable pub digits_value : ℕ → Text → ℕ
digits_value n [] = n
digits_value n (c ∷ s) =
    let rest = digits_value (n * 10 + (c - b'0')) s in if is_digit c then rest else n

unfoldable pub atoi : Text → ℤ
unfolding digits_value
atoi [] = pos 0
atoi (c ∷ s) =
    let skip = atoi s in
    if is_space c
    then skip
    else if c == b'-'
    then negate (digits_value 0 s)
    else if c == b'+'
    then pos (digits_value 0 s)
    else pos (digits_value 0 (c ∷ s))

-- `status == n`, of a signed number and a literal that is not negative
abbrev pub is_number : ℤ → ℕ → Bool
is_number (pos m) n = m == n
is_number (negsuc m) n = false
