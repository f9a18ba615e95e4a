-- ===== src/Checksum.antt =====
-- native/gogoc-1_2-RELEASE/gogoc-tsp/src/net/net_cksm.c: the Internet checksum.
pub mod Laws
mod Tests
use gogoc_android.Prelude.{ℕ, ◌+◌, ◌-◌, ◌*◌, ◌/◌, ◌%◌, List, [], ◌∷◌}

-- What the loop and the odd byte after it add up: 16-bit words in the order of a little-endian host.
-- `sum` is a `sint32_t`, which holds the sum of up to 32768 words.
unfoldable pub sum_words : List ℕ → ℕ
sum_words [] = 0
sum_words (low ∷ []) = low
sum_words (low ∷ high ∷ rest) = low + high * 256 + sum_words rest

-- the two lines that fold the carries back
unfoldable pub fold_carries : ℕ → ℕ
fold_carries sum = let sum' = sum / 65536 + sum % 65536 in sum' + sum' / 65536

-- `in_cksum`
unfoldable pub in_cksum : List ℕ → ℕ
in_cksum bytes = 65535 - fold_carries (sum_words bytes) % 65536
