-- ===== src/Session/Capability/Laws.antt =====
-- The capabilities that are read from a list, and the ones that are not.
use mathlib.Core.List.{append_assoc, append-nil}
use gogoc_android.Prelude.{
  ℕ, ◌<◌, ◌≡◌, refl, sym, ap, ◌∙◌, bit_or, Bool, true, false, List, [], ◌∷◌, ◌++◌, ◌==◌, ◌||◌,
  length, arith, All,
}
use gogoc_android.Cstring.{Text}
use gogoc_android.Session.Capability.{
  set_capability, is_separator, extract_loop, extract_capability,
}

-- neither a separator nor `=`
abbrev pub IsOrdinary : ℕ → Type 0
IsOrdinary c = (is_separator c || (c == b'=')) ≡ false

-- a word: ordinary bytes, and at least one
abbrev pub IsWord : Text → Type 0
IsWord s = (0 < length s) × All IsOrdinary s

-- a token and its value
abbrev pub Pair : Type 0
Pair = Text × Text

abbrev pub IsPair : Pair → Type 0
IsPair (token, value) = IsWord token × IsWord value

-- `token=value`, one space between two, and what the text ends with
pub print_pairs : Pair → List Pair → Text → Text
print_pairs (token, value) [] end = token ++ (b'=' ∷ (value ++ end))
print_pairs (token, value) (p ∷ ps) end = token ++ (b'=' ∷ (value ++ (b' ' ∷ print_pairs p ps end)))

abbrev pub flags_of : ℕ → List Pair → ℕ
flags_of flags [] = flags
flags_of flags ((token, value) ∷ ps) = flags_of (bit_or flags (set_capability token value)) ps

extract_loop-word :
    (w token part rest : Text) (flags : ℕ)
    → All IsOrdinary w
    → extract_loop false token part flags (w ++ rest)
      ≡ extract_loop false token (part ++ w) flags rest
unfolding extract_loop
extract_loop-word [] token part rest flags h =
    ap (λ p. extract_loop false token p flags rest) (sym (append-nil part))
extract_loop-word (c ∷ w) token part rest flags h = ground (
  arith,
  h.0,
  extract_loop-word w token (part ++ (c ∷ [])) rest flags h.1,
  append_assoc part (c ∷ []) w,
)

extract_loop-skipped :
    (skip : Bool) (w token rest : Text) (flags : ℕ)
    → IsWord w
    → extract_loop skip token [] flags (w ++ rest) ≡ extract_loop false token w flags rest
unfolding extract_loop
extract_loop-skipped skip [] token rest flags h = absurd (omega (arith, h.0))
extract_loop-skipped true (c ∷ w) token rest flags h =
    extract_loop-word w token (c ∷ []) rest flags h.1.1
extract_loop-skipped false (c ∷ w) token rest flags h =
    ground (arith, h.1.0, extract_loop-word w token (c ∷ []) rest flags h.1.1)

extract_loop-named :
    (skip : Bool) (token rest : Text) (flags : ℕ)
    → IsWord token
    → extract_loop skip [] [] flags (token ++ (b'=' ∷ rest)) ≡ extract_loop true token [] flags rest
unfolding extract_loop
extract_loop-named skip [] rest flags h = absurd (omega (arith, h.0))
extract_loop-named skip (c ∷ token) rest flags h =
    extract_loop-skipped skip (c ∷ token) [] (b'=' ∷ rest) flags h ∙ refl

extract_loop-recorded :
    (token value rest : Text) (c flags : ℕ)
    → IsWord token
    → IsWord value
    → is_separator c ≡ true
    → extract_loop true token [] flags (value ++ (c ∷ rest))
      ≡ extract_loop true [] [] (bit_or flags (set_capability token value)) rest
unfolding extract_loop
extract_loop-recorded token [] rest c flags t v s = absurd (omega (arith, v.0))
extract_loop-recorded [] (d ∷ value) rest c flags t v s = absurd (omega (arith, t.0))
extract_loop-recorded (e ∷ token) (d ∷ value) rest c flags t v s =
    extract_loop-skipped true (d ∷ value) (e ∷ token) (c ∷ rest) flags v ∙ rw s refl

print_pairs-read :
    (skip : Bool) (p : Pair) (ps : List Pair) (flags : ℕ)
    → IsPair p
    → All IsPair ps
    → extract_loop skip [] [] flags (print_pairs p ps (b'\r' ∷ b'\n' ∷ []))
      ≡ flags_of flags (p ∷ ps)
unfolding print_pairs extract_loop
print_pairs-read skip (token, value) [] flags h hs =
    extract_loop-named skip token (value ++ (b'\r' ∷ b'\n' ∷ [])) flags h.0
    ∙ extract_loop-recorded token value (b'\n' ∷ []) b'\r' flags h.0 h.1 refl
print_pairs-read skip (token, value) (p ∷ ps) flags h hs =
    extract_loop-named skip token (value ++ (b' ' ∷ print_pairs p ps (b'\r' ∷ b'\n' ∷ []))) flags
      h.0
    ∙ extract_loop-recorded token value (print_pairs p ps (b'\r' ∷ b'\n' ∷ [])) b' ' flags h.0 h.1
        refl
    ∙ print_pairs-read true p ps (bit_or flags (set_capability token value)) hs.0 hs.1

-- A list of capabilities `token=value`, with one space between two and a line break at the end, is
-- read as the flags of all of them together, if each word has a byte and neither a separator nor `=`.
pub extract_capability_roundtrip :
    (p : Pair) (ps : List Pair)
    → IsPair p
    → All IsPair ps
    → extract_capability (print_pairs p ps (b'\r' ∷ b'\n' ∷ [])) ≡ flags_of 0 (p ∷ ps)
unfolding extract_capability
extract_capability_roundtrip p ps h hs = print_pairs-read false p ps 0 h hs

-- the pairs before the last
abbrev pub without_last : Pair → List Pair → List Pair
without_last p [] = []
without_last p (q ∷ ps) = p ∷ without_last q ps

print_pairs-unended :
    (skip : Bool) (p : Pair) (ps : List Pair) (flags : ℕ)
    → IsPair p
    → All IsPair ps
    → extract_loop skip [] [] flags (print_pairs p ps []) ≡ flags_of flags (without_last p ps)
unfolding print_pairs extract_loop
print_pairs-unended skip (token, value) [] flags h hs =
    extract_loop-named skip token (value ++ []) flags h.0
    ∙ extract_loop-skipped true value token [] flags h.1
print_pairs-unended skip (token, value) (p ∷ ps) flags h hs =
    extract_loop-named skip token (value ++ (b' ' ∷ print_pairs p ps [])) flags h.0
    ∙ extract_loop-recorded token value (print_pairs p ps []) b' ' flags h.0 h.1 refl
    ∙ print_pairs-unended true p ps (bit_or flags (set_capability token value)) hs.0 hs.1

-- The same list with no line break at its end is read without its last capability: the tests for the
-- end of the text inside the loop never hold, since the loop ends there first.
pub extract_capability_unended :
    (p : Pair) (ps : List Pair)
    → IsPair p
    → All IsPair ps
    → extract_capability (print_pairs p ps []) ≡ flags_of 0 (without_last p ps)
unfolding extract_capability
extract_capability_unended p ps h hs = print_pairs-unended false p ps 0 h hs
