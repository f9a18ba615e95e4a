-- ===== src/Echo/Packet/Laws.antt =====
-- What becomes of the reply to a request.
use gogoc_android.Prelude.{
  ltb, leb, if◌then◌else◌, ℕ, zero, suc, ◌+◌, ◌*◌, ◌%◌, ◌^◌, ◌≤◌, ◌<◌, ◌≡◌, ◌≢◌, refl, ap, List, [],
  ◌∷◌, ◌++◌, Option, none, some, get_or, drop, length, arith,
}
use gogoc_android.Echo.Packet.{
  Family, af_inet, af_inet6, PrivRet, anal_packet_ignored, anal_packet_pingin_late,
  anal_packet_pingin_ontime, send_pingout_error, Timeval, reply_type, echo_packet, icmp_header,
  check_type, check_reply, decode_icmp_packet,
}

-- what a raw socket puts before the ICMP packet: the IPv4 header, whose first byte has the version and
-- the length in words; nothing for IPv6
abbrev pub IsIpHeader : Family → List ℕ → Type 0
IsIpHeader af_inet ip =
    (words : ℕ) × (words < 16)
    × (0 < words)
    × (get_or ip 0 0 ≡ 64 + words)
    × (length ip ≡ words * 4)
IsIpHeader af_inet6 ip = ip ≡ []

drop-append {ℓ} : {A : Type ℓ} (xs ys : List A) (n : ℕ) → length xs ≡ n → drop n (xs ++ ys) ≡ ys
drop-append [] ys zero h = refl
drop-append [] ys (suc n) h = absurd (omega (arith, h))
drop-append (x ∷ xs) ys zero h = absurd (omega (arith, h))
drop-append (x ∷ xs) ys (suc n) h = drop-append xs ys n (omega (arith, h))

get_or-append_head : (xs ys : List ℕ) → 0 < length xs → get_or (xs ++ ys) 0 0 ≡ get_or xs 0 0
get_or-append_head [] ys h = absurd (omega (arith, h))
get_or-append_head (x ∷ xs) ys h = refl

icmp_header-reply :
    (saf : Family) (ip packet : List ℕ) (pkt_len : ℕ)
    → IsIpHeader saf ip
    → length ip + 8 ≤ pkt_len
    → pkt_len < 2 ^ 32
    → icmp_header saf (ip ++ packet) pkt_len ≡ check_type saf packet
unfolding icmp_header
icmp_header-reply af_inet ip packet pkt_len (words, small, some_words, first, long) h k = ground (
  arith,
  get_or-append_head ip packet (omega (arith, some_words, long)),
  drop-append ip packet (words * 4) long,
)
icmp_header-reply af_inet6 ip packet pkt_len e h k = rw e (ground (arith, ap (length {A = ℕ}) e))

module _ (tv : Timeval) (saf : Family) (ip : List ℕ) (icmp_cksm echo_seq : ℕ) (echo_data : List ℕ)
    (icmp_echo_id echo_timeout now pkt_len : ℕ) (header : IsIpHeader saf ip)
    (long : length ip + 8 ≤ pkt_len) (short : pkt_len < 2 ^ 32) where
  -- a reply with the code and id, as it is decoded
  abbrev pub decoded : ℕ → ℕ → PrivRet × Option ℕ
  decoded code echo_id =
      decode_icmp_packet tv saf icmp_echo_id echo_timeout now
        (ip ++ echo_packet (reply_type saf) code icmp_cksm echo_id echo_seq echo_data) pkt_len

  decoded-check_reply :
      (code echo_id : ℕ)
      → decoded code echo_id
        ≡ check_reply tv icmp_echo_id echo_timeout now
            (echo_packet (reply_type saf) code icmp_cksm echo_id echo_seq echo_data)
  unfolding decode_icmp_packet
  decoded-check_reply code echo_id = ground (
    arith,
    icmp_header-reply saf ip
        (echo_packet (reply_type saf) code icmp_cksm echo_id echo_seq echo_data) pkt_len header long
        short,
  )

  -- The reply to a request of this engine, which copies its id, its sequence number and its data: it is
  -- on time or late by the time since the request, and gives back the low 16 bits of its number, if the
  -- process id fits 16 bits. If it does not, the engine takes no reply for its own.
  pub own_reply_decodes : decoded 0 icmp_echo_id ≡ (
      if ltb icmp_echo_id 65536
      then (
        (if leb now (tv.read echo_data + 1000 * echo_timeout)
            then anal_packet_pingin_ontime
            else anal_packet_pingin_late),
        some (echo_seq % 65536),
      )
      else (anal_packet_ignored, none))
  unfolding check_reply
  own_reply_decodes = ground (arith, decoded-check_reply 0 icmp_echo_id)

  -- A reply to another process on the same host, whose code is not zero, is taken for an error.
  pub foreign_reply_error :
      (code echo_id : ℕ) → code ≢ 0 → decoded code echo_id ≡ (send_pingout_error, none)
  unfolding check_reply
  foreign_reply_error code echo_id h = ground (arith, decoded-check_reply code echo_id)
