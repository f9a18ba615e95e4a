-- ===== src/Session/Capability.antt =====
-- tsp_cap.c: the capabilities of the server, in the build without OpenSSL and V4V6_SUPPORT.
pub mod Laws
use gogoc_android.Prelude.{
  ℕ, ◌+◌, ◌-◌, bit_or, Bool, true, false, List, [], ◌∷◌, ◌++◌, Option, none, some, leb, ◌==◌, ◌&&◌,
  ◌||◌, if◌then◌else◌,
}
use gogoc_android.Cstring.{Text, text_eq}
use gogoc_android.Cstring.Numbers.{is_number}
use gogoc_android.Status.{
  tsp_capabilities, success, err_socket_io, err_tsp_server_too_busy, err_inval_tsp_version,
  err_tsp_generic_error,
}
use gogoc_android.Redirect.{is_redirect_status, Broker}
use gogoc_android.Session.Reply.{
  tsp_protocol_server_too_busy, tsp_protocol_unsup_tsp_ver, get_status_code, Peer, Answer,
  redirect_reply,
}

abbrev pub to_upper : ℕ → ℕ
to_upper c = if leb b'a' c && leb c b'z' then c - 32 else c

-- `strcasecmp(s, t) == 0`
pub text_eq_nocase : Text → Text → Bool
text_eq_nocase [] [] = true
text_eq_nocase [] (d ∷ t) = false
text_eq_nocase (c ∷ s) [] = false
text_eq_nocase (c ∷ s) (d ∷ t) = (to_upper c == to_upper d) && text_eq_nocase s t

abbrev pub tunnel_token : Text
tunnel_token = b'T' ∷ b'U' ∷ b'N' ∷ b'N' ∷ b'E' ∷ b'L' ∷ []

abbrev pub auth_token : Text
auth_token = b'A' ∷ b'U' ∷ b'T' ∷ b'H' ∷ []

abbrev pub v6v4_value : Text
v6v4_value = b'V' ∷ b'6' ∷ b'V' ∷ b'4' ∷ []

abbrev pub v6udpv4_value : Text
v6udpv4_value = b'V' ∷ b'6' ∷ b'U' ∷ b'D' ∷ b'P' ∷ b'V' ∷ b'4' ∷ []

abbrev pub digest_md5_value : Text
digest_md5_value = b'D' ∷ b'I' ∷ b'G' ∷ b'E' ∷ b'S' ∷ b'T' ∷ b'-' ∷ b'M' ∷ b'D' ∷ b'5' ∷ []

abbrev pub anonymous_value : Text
anonymous_value = b'A' ∷ b'N' ∷ b'O' ∷ b'N' ∷ b'Y' ∷ b'M' ∷ b'O' ∷ b'U' ∷ b'S' ∷ []

abbrev pub plain_value : Text
plain_value = b'P' ∷ b'L' ∷ b'A' ∷ b'I' ∷ b'N' ∷ []

abbrev pub tunnel_v6v4 : ℕ
tunnel_v6v4 = 0x0001

abbrev pub tunnel_v6udpv4 : ℕ
tunnel_v6udpv4 = 0x0002

abbrev pub auth_digest_md5_flag : ℕ
auth_digest_md5_flag = 0x0040

abbrev pub auth_plain_flag : ℕ
auth_plain_flag = 0x0020

abbrev pub auth_anonymous_flag : ℕ
auth_anonymous_flag = 0x0010

abbrev pub auth_any : ℕ
auth_any = 0x00F0

unfoldable pub set_auth_capability : Text → ℕ
unfolding text_eq_nocase
set_auth_capability value =
    if text_eq_nocase digest_md5_value value
    then auth_digest_md5_flag
    else if text_eq_nocase anonymous_value value
    then auth_anonymous_flag
    else if text_eq_nocase plain_value value
    then auth_plain_flag
    else 0

-- `tspSetCapability`
pub set_capability : Text → Text → ℕ
set_capability token value =
    if text_eq tunnel_token token && text_eq v6v4_value value
    then tunnel_v6v4
    else if text_eq tunnel_token token && text_eq v6udpv4_value value
    then tunnel_v6udpv4
    else if text_eq auth_token token
    then set_auth_capability value
    else 0

abbrev pub is_separator : ℕ → Bool
is_separator c = (c == b' ') || ((c == b'\r') || (c == b'\n'))

abbrev pub is_empty : Text → Bool
is_empty [] = true
is_empty (_ ∷ _) = false

-- The loop of `tspExtractCapability`. `skip` says that `s` and `e` have just been moved on together,
-- and the loop's own `e++` passes the byte there unseen; `token` is `Token`, `part` the bytes from
-- `s` to `e`. The bytes after the text are zero: the caller's buffer was cleared.
pub extract_loop : Bool → Text → Text → ℕ → Text → ℕ
extract_loop skip token part flags [] = flags
extract_loop true token part flags (c ∷ rest) = extract_loop false token (c ∷ []) flags rest
extract_loop false token part flags (c ∷ rest) =
    let recorded = extract_loop true [] [] (bit_or flags (set_capability token part)) rest in
    let passed = extract_loop true token [] flags rest in
    let named = extract_loop true part [] flags rest in
    let longer = extract_loop false token (part ++ (c ∷ [])) flags rest in
    if is_separator c
    then (if is_empty part || is_empty token then passed else recorded)
    else if (c == b'=')
    then (if is_empty part then longer else named)
    else longer

-- after the 11 bytes of `CAPABILITY `
pub extract_capability : Text → ℕ
extract_capability text = extract_loop false [] [] 0 text

abbrev pub capability_prefix : Text
capability_prefix = b'C' ∷ b'A' ∷ b'P' ∷ b'A' ∷ b'B' ∷ b'I' ∷ b'L' ∷ b'I' ∷ b'T' ∷ b'Y' ∷ b' ' ∷ []

-- the text after a prefix, if it has it
unfoldable pub after_prefix : Text → Text → Option Text
after_prefix [] s = some s
after_prefix (c ∷ p) [] = none
after_prefix (c ∷ p) (d ∷ s) = if c == d then after_prefix p s else none

-- a reply that is no list of capabilities
unfoldable pub capability_status : Peer → Text → List Broker → Answer
capability_status peer datain list =
    let status = get_status_code (some datain) in
    if is_redirect_status status
    then redirect_reply peer tsp_capabilities datain list
    else if is_number status tsp_protocol_server_too_busy
    then ((tsp_capabilities, err_tsp_server_too_busy), list)
    else if is_number status tsp_protocol_unsup_tsp_ver
    then ((tsp_capabilities, err_inval_tsp_version), list)
    else ((tsp_capabilities, err_tsp_generic_error), list)

-- `tspGetCapabilities` on the server's reply, `none` if `netsendrecv` returned -1: the answer, and
-- the capabilities, if they were set.
unfoldable pub get_capabilities : Peer → Option Text → List Broker → Answer × Option ℕ
get_capabilities peer none list = (((tsp_capabilities, err_socket_io), list), none)
get_capabilities peer (some datain) list = elim (after_prefix capability_prefix datain) [
  | some text ↦ (((tsp_capabilities, success), list), some (extract_capability text))
  | none ↦ (capability_status peer datain list, none)
]
