-- ===== src/Checksum/Tests.antt =====
-- Checksums at concrete inputs.
use gogoc_android.Prelude.{◌-◌, ◌<◌, ◌≡◌, refl, [], ◌∷◌, arith}
use gogoc_android.Checksum.{sum_words, fold_carries, in_cksum}
use gogoc_android.Checksum.Laws.{ones_sum, in_cksum-ones_sum}

in_cksum_carries : in_cksum (0xff ∷ 0xff ∷ 0x02 ∷ []) ≡ 0xfffd
unfolding in_cksum sum_words fold_carries
in_cksum_carries = refl

in_cksum-ones_sum_example :
    (in_cksum (0xff ∷ 0xff ∷ 0x02 ∷ []) ≡ 65535 - ones_sum (0xff ∷ 0xff ∷ 0x02 ∷ []))
    × (sum_words (0xff ∷ 0xff ∷ 0x02 ∷ []) < 2147483648)
in_cksum-ones_sum_example =
    in_cksum-ones_sum (0xff ∷ 0xff ∷ 0x02 ∷ []) (omega arith, (omega arith, (omega arith, tt)))
      (omega arith)
