-- ===== src/Checksum/Laws.antt =====
-- `in_cksum` is the checksum of RFC 1071, and a packet that carries it checks.
use gogoc_android.Prelude.{
  ℕ, ◌+◌, ◌-◌, ◌*◌, ◌/◌, ◌%◌, ◌≤◌, ◌<◌, ◌≡◌, refl, sym, ap, ◌∙◌, List, [], ◌∷◌, ◌++◌, ltb,
  if◌then◌else◌, All, length, arith,
}
use gogoc_android.Checksum.{sum_words, fold_carries, in_cksum}

-- addition with the carry added back in, on 16-bit words
abbrev pub ones_add : ℕ → ℕ → ℕ
ones_add a b = if ltb (a + b) 65536 then a + b else a + b - 65535

-- the one's complement sum of the words of the bytes
abbrev pub ones_sum : List ℕ → ℕ
ones_sum [] = 0
ones_sum (low ∷ []) = ones_add low 0
ones_sum (low ∷ high ∷ rest) = ones_add (low + high * 256) (ones_sum rest)

abbrev pub IsByte : ℕ → Type 0
IsByte b = b < 256

-- the word that a sum comes to
abbrev residue : ℕ → ℕ
residue s = if ltb s 1 then 0 else (s - 1) % 65535 + 1

fold_carries-residue : (s : ℕ) → s < 2147483648 → fold_carries s % 65536 ≡ residue s
unfolding fold_carries
fold_carries-residue s h = ground arith

ones_add-residue : (a s : ℕ) → a < 65536 → ones_add a (residue s) ≡ residue (a + s)
ones_add-residue a s h = ground arith

ones_sum-residue : (bytes : List ℕ) → All IsByte bytes → ones_sum bytes ≡ residue (sum_words bytes)
unfolding sum_words
ones_sum-residue [] h = refl
ones_sum-residue (low ∷ []) h = ground (arith, h.0)
ones_sum-residue (low ∷ high ∷ rest) h =
    ap (ones_add (low + high * 256)) (ones_sum-residue rest h.1.1)
    ∙ ones_add-residue (low + high * 256) (sum_words rest) (omega (arith, h.0, h.1.0))

sum_words-bound :
    (bytes : List ℕ) → All IsByte bytes → 2 * sum_words bytes ≤ 65535 * (length bytes + 1)
unfolding sum_words
sum_words-bound [] h = omega arith
sum_words-bound (low ∷ []) h = omega (arith, h.0)
sum_words-bound (low ∷ high ∷ rest) h = omega (arith, h.0, h.1.0, sum_words-bound rest h.1.1)

-- The checksum of up to 65534 bytes is the complement of their one's complement sum, as RFC 1071 defines
-- it; up to there, the 32-bit sum does not overflow either.
pub in_cksum-ones_sum :
    (bytes : List ℕ)
    → All IsByte bytes
    → length bytes < 65535
    → (in_cksum bytes ≡ 65535 - ones_sum bytes) × (sum_words bytes < 2147483648)
unfolding in_cksum
in_cksum-ones_sum bytes h n =
    let small : sum_words bytes < 2147483648 = omega (arith, sum_words-bound bytes h) in
    (
      ap (λ r. 65535 - r)
          (fold_carries-residue (sum_words bytes) small ∙ sym (ones_sum-residue bytes h)),
      small,
    )

-- pairs of bytes
abbrev pub IsEven : List ℕ → Type 0
IsEven [] = Unit
IsEven (low ∷ []) = ⊥
IsEven (low ∷ high ∷ rest) = IsEven rest

sum_words-append :
    (before after : List ℕ)
    → IsEven before
    → sum_words (before ++ after) ≡ sum_words before + sum_words after
unfolding sum_words
sum_words-append [] after h = omega arith
sum_words-append (low ∷ []) after h = absurd h
sum_words-append (low ∷ high ∷ before) after h = omega (arith, sum_words-append before after h)

-- A packet that is summed with zeros in its checksum field, and then carries the checksum there, in the
-- host's byte order, checks: its own checksum is zero. The field stands at an even offset, and the packet
-- has at most 65534 bytes.
pub checksum_checks :
    (before after : List ℕ)
    → IsEven before
    → All IsByte (before ++ (0 ∷ 0 ∷ after))
    → length (before ++ (0 ∷ 0 ∷ after)) < 65535
    → let c = in_cksum (before ++ (0 ∷ 0 ∷ after)) in
      in_cksum (before ++ (c % 256 ∷ c / 256 ∷ after)) ≡ 0
unfolding in_cksum sum_words fold_carries
checksum_checks before after e h n =
    let c = in_cksum (before ++ (0 ∷ 0 ∷ after)) in
    ground (
      arith,
      sum_words-bound (before ++ (0 ∷ 0 ∷ after)) h,
      sum_words-append before (0 ∷ 0 ∷ after) e,
      sum_words-append before (c % 256 ∷ c / 256 ∷ after) e,
    )
