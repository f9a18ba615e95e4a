-- ===== src/Cstring.antt =====
-- C strings: the bytes before the terminating 0, and what the client uses of the C library on them.
pub mod Numbers
use gogoc_android.Prelude.{
  ℕ, ◌-◌, ◌<◌, ◌≡◌, arith, min, length, length-take, take_of_length-le, ◌≢◌, Bool, true, false,
  List, [], ◌∷◌, ◌==◌, ◌&&◌, All, take,
}

abbrev pub Text : Type 0
Text = List ℕ

-- No conversion starts in the text: it has no byte `%`.
abbrev pub IsPlain : Text → Type 0
IsPlain = All (λ c. c ≢ b'%')

-- The C library's formatter on a format and no further argument. It copies a format that has no
-- conversion; on any other the result depends on what the stack holds.
pub record Printf : Type 0 where
  pub expand : Text → Text
  pub expand_plain : (s : Text) → IsPlain s → expand s ≡ s

-- `snprintf(buf, size, fmt)`: at most `size - 1` bytes are stored before the 0.
unfoldable pub snprintf : Printf → ℕ → Text → Text
snprintf p size fmt = take (size - 1) (p.expand fmt)

pub snprintf_fits :
    (p : Printf) (size : ℕ) (s : Text) → IsPlain s → length s < size → snprintf p size s ≡ s
unfolding snprintf
snprintf_fits p size s plain h =
    rw (p.expand_plain s plain) (take_of_length-le (size - 1) s (omega arith))

pub length-snprintf :
    (p : Printf) (size : ℕ) (s : Text)
    → IsPlain s
    → length (snprintf p size s) ≡ min (size - 1) (length s)
unfolding snprintf
length-snprintf p size s plain = rw (p.expand_plain s plain) (length-take (size - 1) s)

-- `strcmp(s, t) == 0`
unfoldable pub text_eq : Text → Text → Bool
text_eq [] [] = true
text_eq [] (d ∷ t) = false
text_eq (c ∷ s) [] = false
text_eq (c ∷ s) (d ∷ t) = (c == d) && text_eq s t

abbrev pub verbatim : Printf
verbatim = record { expand = λ s. s; expand_plain = λ s _. λ i. s }
