-- ===== src/Echo/Packet.antt =====
-- icmp_echo_engine.c: the packets. `_do_send` builds a request, `_calc_icmp_csum` fills in its checksum,
-- and `_decode_icmp_packet` reads what comes in.
pub mod Laws
pub mod Tests
use gogoc_android.Prelude.{
  ℕ, ◌+◌, ◌-◌, ◌*◌, ◌/◌, ◌%◌, ◌^◌, Bool, true, false, not, List, [], ◌∷◌, ◌++◌, Option, none, some,
  ltb, leb, ◌==◌, if◌then◌else◌, get_or, drop, length,
}
use gogoc_android.Checksum.{in_cksum}

-- `icmp_saf`; `IEE_init` admits no other family
pub data Family : Type 0 where
  af_inet af_inet6 : Family

-- `iee_priv_ret_t`
pub data PrivRet : Type 0 where
  read_select_error read_select_timeout read_socket_closed read_recv_error : PrivRet
  send_pingout_success send_pingout_error send_memory_starvation : PrivRet
  anal_packet_bad anal_packet_ignored anal_packet_pingin_late anal_packet_pingin_ontime : PrivRet
  echo_event_removed echo_event_notfound : PrivRet

-- a `struct timeval` in memory: its bytes, and how a time in microseconds is written and read
pub record Timeval : Type 0 where
  pub write : ℕ → List ℕ
  pub read : List ℕ → ℕ

-- a 16-bit field in the order of a little-endian host
abbrev pub word : ℕ → List ℕ → List ℕ
word w rest = w % 256 ∷ (w / 256 % 256 ∷ rest)

abbrev pub word_at : List ℕ → ℕ → ℕ
word_at bytes i = get_or bytes i 0 + get_or bytes (i + 1) 0 * 256

abbrev pub request_type : Family → ℕ
request_type af_inet = 8
request_type af_inet6 = 128

abbrev pub reply_type : Family → ℕ
reply_type af_inet = 0
reply_type af_inet6 = 129

-- `ICMP_ECHO_HEADER` with its data
abbrev pub echo_packet : ℕ → ℕ → ℕ → ℕ → ℕ → List ℕ → List ℕ
echo_packet icmp_type icmp_code icmp_cksm echo_id echo_seq echo_data =
    icmp_type ∷ icmp_code ∷ word icmp_cksm (word echo_id (word echo_seq echo_data))

-- `IP6_PSEUDO_HEADER` up to the ICMP header, for a packet of the given length
unfoldable pub pseudo_header : List ℕ → List ℕ → ℕ → List ℕ
pseudo_header ip6_src ip6_dst hdr_len =
    ip6_src
    ++ (ip6_dst
        ++ (hdr_len / 2 ^ 24 % 256
            ∷ hdr_len / 2 ^ 16 % 256
            ∷ hdr_len / 256 % 256
            ∷ hdr_len % 256
            ∷ 0
            ∷ 0
            ∷ 0
            ∷ 58
            ∷ []))

-- `_calc_icmp_csum`: the checksum of a packet whose checksum field is zero
unfoldable pub calc_icmp_csum : Family → List ℕ → List ℕ → List ℕ → ℕ
calc_icmp_csum af_inet src dst packet = in_cksum packet
calc_icmp_csum af_inet6 src dst packet = in_cksum (pseudo_header src dst (length packet) ++ packet)

-- the packet that `_do_send` sends as number `count_send`; `echo_id` keeps 16 bits of the process id
unfoldable pub echo_request : Timeval → Family → List ℕ → List ℕ → ℕ → ℕ → ℕ → List ℕ
echo_request tv saf src dst icmp_echo_id count_send now =
    let fields = echo_packet (request_type saf) 0 in
    let cksm = calc_icmp_csum saf src dst (fields 0 icmp_echo_id count_send (tv.write now)) in
    fields cksm icmp_echo_id count_send (tv.write now)

-- what `_decode_icmp_packet` finds of the headers: the status it stops with, or the ICMP packet
pub data Header : Type 0 where
  stops : PrivRet → Header
  found : List ℕ → Header

-- `pkt_len - ip_len`, both unsigned
abbrev pub icmp_length : ℕ → ℕ → ℕ
icmp_length pkt_len ip_len = (pkt_len + 2 ^ 32 - ip_len) % 2 ^ 32

abbrev pub check_type : Family → List ℕ → Header
check_type saf packet =
    if get_or packet 0 0 == reply_type saf then found packet else stops anal_packet_ignored

unfoldable pub icmp_header : Family → List ℕ → ℕ → Header
icmp_header af_inet pkt_data pkt_len =
    let ip_ver = get_or pkt_data 0 0 / 16 in
    let ip_len = get_or pkt_data 0 0 % 16 * 4 in
    if not (ip_ver == 4)
    then stops anal_packet_bad
    else (if ltb (icmp_length pkt_len ip_len) 8
        then stops anal_packet_bad
        else check_type af_inet (drop ip_len pkt_data))
icmp_header af_inet6 pkt_data pkt_len =
    if ltb pkt_len 8 then stops anal_packet_bad else check_type af_inet6 pkt_data

-- A reply: its code, its id, and whether it is late. The code assigns `IEE_GENERAL_ECHO_ERROR` to a
-- variable of the type `iee_priv_ret_t`, where its value, 5, is `SEND_PINGOUT_ERROR`.
unfoldable pub check_reply : Timeval → ℕ → ℕ → ℕ → List ℕ → PrivRet × Option ℕ
check_reply tv icmp_echo_id echo_timeout now packet =
    if not (get_or packet 1 0 == 0)
    then (send_pingout_error, none)
    else (if not (word_at packet 4 == icmp_echo_id)
        then (anal_packet_ignored, none)
        else (if ltb (tv.read (drop 8 packet) + 1000 * echo_timeout) now
            then (anal_packet_pingin_late, some (word_at packet 6))
            else (anal_packet_pingin_ontime, some (word_at packet 6))))

-- `_decode_icmp_packet`, on the buffer and the number of bytes read into it: the status, and `*echo_seq`
unfoldable pub decode_icmp_packet : Timeval → Family → ℕ → ℕ → ℕ → List ℕ → ℕ → PrivRet × Option ℕ
decode_icmp_packet tv saf icmp_echo_id echo_timeout now pkt_data pkt_len =
    elim (icmp_header saf pkt_data pkt_len) [
      | stops ret ↦ (ret, none)
      | found packet ↦ check_reply tv icmp_echo_id echo_timeout now packet
    ]
