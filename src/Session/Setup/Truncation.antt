-- ===== src/Session/Setup/Truncation.antt =====
-- A reply that is cut short.
use gogoc_android.Prelude.{
  ℕ, ◌≡◌, ◌-◌, length, drop, inl, inr, refl, true, List, [], ◌∷◌, Option, none, some, ◌==◌, arith,
  Bool-cases, Option-cases, ◌++◌,
}
use gogoc_android.Cstring.{Text}
use gogoc_android.Status.{tsp_tun_negotiation, err_tsp_generic_error}
use gogoc_android.Redirect.{Broker, is_redirect_status}
use gogoc_android.Cstring.Numbers.{ℤ, pos, negsuc, atoi, digits_value}
use gogoc_android.Session.Reply.{get_status_code}
use gogoc_android.Session.Capability.{after_prefix}
use gogoc_android.Session.Exchange.{
  protocol_error, content_length_prefix, after_newline, receive_rest, receive_payload, send_recv,
}
use gogoc_android.Session.Setup.{Session, negotiation_reply, tunnel_negotiation, received_reply}

after_prefix-append :
    (p s t : Text) {r : Text} → after_prefix p s ≡ some r → after_prefix p (s ++ t) ≡ some (r ++ t)
unfolding after_prefix
after_prefix-append [] s t {r} e = let same : s ≡ r = cc in rw same refl
after_prefix-append (c ∷ p) [] t e = absurd (ground (arith, e))
after_prefix-append (c ∷ p) (d ∷ s) t e = elim (Bool-cases (c == d)) [
  | inl same ↦ rw same (after_prefix-append p s t (rw same at e))
  | inr other ↦ absurd (ground (arith, other, e))
]

after_prefix-head :
    (c d : ℕ) (p s : Text) {r : Text} → after_prefix (c ∷ p) (d ∷ s) ≡ some r → d ≡ c
unfolding after_prefix
after_prefix-head c d p s e = ground (arith, e)

get_status_code-header :
    (payload : Text) {r : Text}
    → after_prefix content_length_prefix payload ≡ some r
    → get_status_code (some payload) ≡ pos 0
unfolding after_prefix get_status_code atoi digits_value
get_status_code-header [] e = absurd (ground arith)
get_status_code-header (c ∷ payload) e =
    let first = after_prefix-head b'C' c (drop 1 content_length_prefix) payload e in rw first refl

receive_payload-protocol_error :
    (declared : ℤ) (buffer body payload : Text) (chunks : List (Option Text))
    → receive_payload declared buffer body chunks ≡ protocol_error payload
    → (more : Text) × (payload ≡ buffer ++ more)
unfolding receive_payload
receive_payload-protocol_error (negsuc n) buffer body payload chunks e = absurd (ground arith)
receive_payload-protocol_error (pos n) buffer body payload chunks e =
    let (all, more) = receive_rest (n - length body) chunks in (more, ground (arith, e))

send_recv-protocol_error :
    (frame : Option Text) (chunks : List (Option Text)) (payload : Text)
    → send_recv frame chunks ≡ protocol_error payload
    → (r : Text) × (after_prefix content_length_prefix payload ≡ some r)
unfolding send_recv
send_recv-protocol_error none chunks payload e = absurd (ground arith)
send_recv-protocol_error (some buffer) chunks payload e =
    elim (Option-cases (after_prefix content_length_prefix buffer)) [
      | inl bad ↦ absurd (ground (arith, (rw (send_recv, bad) at e)))
      | inr (declared, good) ↦ elim (Option-cases (after_newline buffer)) [
        | inl bad ↦ absurd (ground (arith, (rw (send_recv, good, bad) at e)))
        | inr (body, found) ↦
            let (more, same) =
              receive_payload-protocol_error (atoi declared) buffer body payload chunks
                (rw (send_recv, good, found) at e) in
            (declared ++ more, rw same (after_prefix-append content_length_prefix buffer more good))
      ]
    ]

-- With memory for the negotiation: a reply to the tunnel request for which `tspSendRecv` gives
-- `PROTOCOL_ERROR`, as the rest of its payload could not be received, gives the status of a generic
-- error, not that of an I/O error, whatever the part received says, and leaves the broker list as it is.
pub truncated_reply_is_generic_error :
    (s : Session) (version_index : ℕ) (list : List Broker) (frame : Option Text)
    (chunks : List (Option Text)) (payload : Text)
    → s.negotiation_memory ≡ true
    → s.received ≡ send_recv frame chunks
    → send_recv frame chunks ≡ protocol_error payload
    → tunnel_negotiation s version_index list ≡ ((tsp_tun_negotiation, err_tsp_generic_error), list)
unfolding tunnel_negotiation received_reply negotiation_reply is_redirect_status
truncated_reply_is_generic_error s version_index list frame chunks payload m got e =
    let (r, header) = send_recv-protocol_error frame chunks payload e in
    rw (m, got, e, get_status_code-header payload header) refl
