-- ===== src/Session/Exchange.antt =====
-- native/gogoc-1_2-RELEASE/gogoc-tsp/src/tsp/tsp_net.c: `tspConnect` and `tspSendRecv`; tsp_client.c:
-- `tspAddPayloadString` by its sizes.
pub mod Laws
use gogoc_android.Prelude.{
  ℕ, ◌+◌, ◌-◌, zero, suc, Bool, true, false, List, [], ◌∷◌, ◌++◌, Option, none, some, ltb, ◌==◌,
  if◌then◌else◌, length, take,
}
use gogoc_android.Cstring.{Text}
use gogoc_android.Cstring.Numbers.{ℤ, pos, negsuc, atoi}
use gogoc_android.Status.{
  Context, network_connect, unspecified, success, err_fail_resolv_addr, err_fail_socket_connect,
  GogocStatus,
}
use gogoc_android.Session.Capability.{after_prefix}

-- what `netopen` returns
pub data Opening : Type 0 where
  connected resolve_failed cannot_connect other_result : Opening

unfoldable pub connect : Opening → GogocStatus
connect connected = (network_connect, success)
connect resolve_failed = (network_connect, err_fail_resolv_addr)
connect cannot_connect = (network_connect, err_fail_socket_connect)
connect other_result = (unspecified, success)

-- How `tspSendRecv` ends: a result that is not positive; `PROTOCOL_ERROR`, which is 1, with what the
-- buffer then holds; or the whole payload.
pub data Received : Type 0 where
  failed : Received
  protocol_error : Text → Received
  complete : Text → Received

-- The text after the first newline.
unfoldable pub after_newline : Text → Option Text
after_newline [] = none
after_newline (c ∷ s) = let rest = after_newline s in if c == b'\n' then some s else rest

-- The loop that reads what is left of the payload: the bytes of each `netrecv`, `none` for a result
-- that is not positive. Whether all came, and the bytes stored after the ones there.
unfoldable pub receive_rest : ℕ → List (Option Text) → Bool × Text
receive_rest zero chunks = (true, [])
receive_rest (suc left) [] = (false, [])
receive_rest (suc left) (none ∷ chunks) = (false, [])
receive_rest (suc left) (some [] ∷ chunks) = (false, [])
receive_rest (suc left) (some (c ∷ chunk) ∷ chunks) =
    let (all, more) = receive_rest (left - length (take left chunk)) chunks in
    (all, c ∷ (take left chunk ++ more))

abbrev pub content_length_prefix : Text
content_length_prefix =
    b'C' ∷ b'o' ∷ b'n' ∷ b't' ∷ b'e' ∷ b'n' ∷ b't' ∷ b'-' ∷ b'l' ∷ b'e' ∷ b'n' ∷ b'g' ∷ b't' ∷ b'h'
    ∷ b':' ∷ []

-- with the declared length
unfoldable pub receive_payload : ℤ → Text → Text → List (Option Text) → Received
receive_payload (negsuc n) buffer body chunks = failed
receive_payload (pos n) buffer body chunks =
    let (all, more) = receive_rest (n - length body) chunks in
    if ltb 0 n
    then (if ltb n (length body)
        then failed
        else (if all then complete (body ++ more) else protocol_error (buffer ++ more)))
    else failed

-- `tspSendRecv`: the first frame that `netsendrecv` returned, `none` if its result was not positive,
-- and what `netrecv` returns then. The declared length is not compared with the buffer's 4096 bytes.
unfoldable pub send_recv : Option Text → List (Option Text) → Received
send_recv none chunks = failed
send_recv (some buffer) chunks = elim (after_prefix content_length_prefix buffer) [
  | none ↦ failed
  | some declared ↦ elim (after_newline buffer) [
    | none ↦ failed
    | some body ↦ receive_payload (atoi declared) buffer body chunks
  ]
]

-- `tPayload`: what is allocated and what is used
pub record Payload : Type 0 where
  pub capacity : ℕ
  pub size : ℕ

abbrev pub protocol_max_payload_chunk : ℕ
protocol_max_payload_chunk = 2048

-- `tspAddPayloadString`, of a string of `n` bytes, with memory for each allocation
unfoldable pub add_payload_string : Payload → Option ℕ → Payload
add_payload_string p none = p
add_payload_string p (some n) =
    let first = if p.capacity == 0 then protocol_max_payload_chunk else p.capacity in
    let grown = if ltb first (p.size + n + 1) then first + protocol_max_payload_chunk else first in
    record { capacity = grown; size = p.size + n }
