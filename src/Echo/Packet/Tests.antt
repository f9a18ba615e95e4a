-- ===== src/Echo/Packet/Tests.antt =====
-- Packets at concrete inputs.
use gogoc_android.Prelude.{
  ltb, leb, if◌then◌else◌, ℕ, ◌+◌, ◌*◌, ◌/◌, ◌%◌, ◌^◌, ◌≡◌, refl, List, [], ◌∷◌, ◌++◌, some, none,
  get_or, arith,
}
use gogoc_android.Checksum.{in_cksum, sum_words, fold_carries}
use gogoc_android.Echo.Packet.{
  af_inet, Timeval, anal_packet_ignored, anal_packet_pingin_late, anal_packet_pingin_ontime,
  reply_type, echo_packet, decode_icmp_packet, echo_request, calc_icmp_csum,
}
use gogoc_android.Echo.Packet.Laws.{own_reply_decodes}

-- a clock of four bytes, the lowest first
abbrev pub four_bytes : Timeval
four_bytes = record {
  write = λ t. t % 256 ∷ t / 2 ^ 8 % 256 ∷ t / 2 ^ 16 % 256 ∷ t / 2 ^ 24 % 256 ∷ [];
  read = λ bytes.
      get_or bytes 0 0
      + get_or bytes 1 0 * 2 ^ 8
      + get_or bytes 2 0 * 2 ^ 16
      + get_or bytes 3 0 * 2 ^ 24;
}

-- an IPv4 header of five words
abbrev pub ip_header : List ℕ
ip_header =
    0x45 ∷ 0 ∷ 0 ∷ 32 ∷ 0 ∷ 0 ∷ 0 ∷ 0 ∷ 64 ∷ 1 ∷ 0 ∷ 0 ∷ 10 ∷ 0 ∷ 0 ∷ 1 ∷ 10 ∷ 0 ∷ 0 ∷ 2 ∷ []

request_runs :
    echo_request four_bytes af_inet [] [] 1000 7 2000
    ≡ 8 ∷ 0 ∷ 0x38 ∷ 0xf4 ∷ 0xe8 ∷ 3 ∷ 7 ∷ 0 ∷ 0xd0 ∷ 7 ∷ 0 ∷ 0 ∷ []
unfolding echo_request calc_icmp_csum in_cksum sum_words fold_carries
request_runs = refl

-- the process id 1000, the timeout 5 seconds, the reply after one
own_reply_decodes_example :
    decode_icmp_packet four_bytes af_inet 1000 5000 1002000
      (ip_header ++ echo_packet (reply_type af_inet) 0 0 1000 7 (four_bytes.write 2000))
      32
    ≡ (if ltb 1000 65536
        then (
          (if leb 1002000 (four_bytes.read (four_bytes.write 2000) + 1000 * 5000)
              then anal_packet_pingin_ontime
              else anal_packet_pingin_late),
          some (7 % 65536),
        )
        else (anal_packet_ignored, none))
own_reply_decodes_example =
    own_reply_decodes four_bytes af_inet ip_header 0 7 (four_bytes.write 2000) 1000 5000 1002000 32
      (5, omega arith, omega arith, refl, omega arith) (omega arith) (omega arith)
