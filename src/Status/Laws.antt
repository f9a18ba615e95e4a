-- ===== src/Status/Laws.antt =====
-- The two halves of a status word are read back as they were put in.
use gogoc_android.Prelude.{ℕ, ◌+◌, ◌*◌, ◌/◌, ◌%◌, ◌^◌, ◌<◌, ◌≡◌, arith}
use gogoc_android.Prelude.Bits.{bit_or-shl, bit_and_mask, shr-bit_and}
use gogoc_android.Status.{make_status, status_context, status_number}

make_status-eq :
    (ctx num : ℕ) → ctx < 2 ^ 16 → num < 2 ^ 16 → make_status ctx num ≡ num + ctx * 65536
unfolding make_status
make_status-eq ctx num hc hn = omega (arith, bit_or-shl 16 num ctx hn)

status_number-eq : (w : ℕ) → status_number w ≡ w % 65536
unfolding status_number
status_number-eq w = bit_and_mask 16 w

status_context-eq : (w : ℕ) → w < 2 ^ 32 → status_context w ≡ w / 65536
unfolding status_context
status_context-eq w h = omega (arith, shr-bit_and 16 w 0xFFFF0000, bit_and_mask 16 (w / 65536))

-- A context and a number of 16 bits each survive packing, and the word has 32 bits.
pub make_status_roundtrip :
    (ctx num : ℕ)
    → ctx < 2 ^ 16
    → num < 2 ^ 16
    → (status_context (make_status ctx num) ≡ ctx)
      × (status_number (make_status ctx num) ≡ num)
      × (make_status ctx num < 2 ^ 32)
make_status_roundtrip ctx num hc hn = omega (
  arith,
  make_status-eq ctx num hc hn,
  status_context-eq (make_status ctx num),
  status_number-eq (make_status ctx num),
)
