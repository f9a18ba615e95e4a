-- ===== src/Session/Exchange/Laws.antt =====
-- How much of a payload is received and stored.
use mathlib.Core.List.{append-nil}
use gogoc_android.Prelude.{
  ℕ, zero, suc, ◌+◌, ◌-◌, ◌<◌, ◌≡◌, inl, inr, ◌↔◌, refl, ap, sym, ◌∙◌, true, List, [], ◌∷◌, ◌++◌,
  Option, none, some, length, take, length-take, length-append, take_of_length-le, arith,
  Option-cases,
}
use gogoc_android.Cstring.{Text}
use gogoc_android.Cstring.Numbers.{ℤ, pos, negsuc, atoi}
use gogoc_android.Session.Capability.{after_prefix}
use gogoc_android.Session.Exchange.{
  complete, after_newline, receive_rest, receive_payload, send_recv, content_length_prefix, Payload,
  add_payload_string,
}

receive_rest-all :
    (left : ℕ) (chunks : List (Option Text))
    → (receive_rest left chunks).0 ≡ true
    → length (receive_rest left chunks).1 ≡ left
unfolding receive_rest
receive_rest-all zero chunks e = refl
receive_rest-all (suc left) [] e = absurd (ground arith)
receive_rest-all (suc left) (none ∷ chunks) e = absurd (ground arith)
receive_rest-all (suc left) (some [] ∷ chunks) e = absurd (ground arith)
receive_rest-all (suc left) (some (c ∷ chunk) ∷ chunks) e =
    let rest = receive_rest (left - length (take left chunk)) chunks in
    omega (
      arith,
      length-append (take left chunk) rest.1,
      length-take left chunk,
      receive_rest-all (left - length (take left chunk)) chunks e,
    )

receive_payload-complete :
    (declared : ℤ) (buffer body payload : Text) (chunks : List (Option Text))
    → receive_payload declared buffer body chunks ≡ complete payload
    → (declared ≡ pos (length payload))
      × (0 < length payload)
      × (more : Text) × (payload ≡ body ++ more)
      × (receive_rest (length payload - length body) chunks ≡ (true, more))
unfolding receive_payload
receive_payload-complete (negsuc n) buffer body payload chunks e = absurd (ground arith)
receive_payload-complete (pos n) buffer body payload chunks e =
    let rest = receive_rest (n - length body) chunks in
    let (size, present, whole, all) : (n ≡ length payload)
        × (0 < length payload)
        × (payload ≡ body ++ rest.1)
        × (rest.0 ≡ true) =
      ground (arith, e, receive_rest-all (n - length body) chunks, length-append body rest.1) in
    (
      ap pos size,
      present,
      rest.1,
      whole,
      ap (λ k. receive_rest (k - length body) chunks) (sym size) ∙ ap (λ b. (b, rest.1)) all,
    )

-- If `tspSendRecv` ends with a whole payload, its first read gave a frame that begins with the prefix
-- of the content length, and the payload has the length that the frame declares, which is positive.
-- The payload is what stands behind the first newline of the frame and then what is received of the
-- rest of that length, all of it.
pub send_recv_complete :
    (frame : Option Text) (chunks : List (Option Text)) (payload : Text)
    → send_recv frame chunks ≡ complete payload
    → (buffer declared body more : Text) × (frame ≡ some buffer)
      × (after_prefix content_length_prefix buffer ≡ some declared)
      × (atoi declared ≡ pos (length payload))
      × (0 < length payload)
      × (after_newline buffer ≡ some body)
      × (payload ≡ body ++ more)
      × (receive_rest (length payload - length body) chunks ≡ (true, more))
unfolding send_recv
send_recv_complete none chunks payload e = absurd (ground arith)
send_recv_complete (some buffer) chunks payload e =
    elim (Option-cases (after_prefix content_length_prefix buffer)) [
      | inl bad ↦ absurd (ground (arith, (rw (send_recv, bad) at e)))
      | inr (declared, ok) ↦ elim (Option-cases (after_newline buffer)) [
        | inl bad ↦ absurd (ground (arith, (rw (send_recv, ok, bad) at e)))
        | inr (body, found) ↦
            let (size, present, more, whole, rest) =
              receive_payload-complete (atoi declared) buffer body payload chunks
                (rw (send_recv, ok, found) at e) in
            (buffer, declared, body, more, refl, ok, size, present, found, whole, rest)
      ]
    ]

receive_rest-one :
    (left : ℕ) (chunk : Text)
    → length chunk ≡ left
    → receive_rest left (some chunk ∷ []) ≡ (true, chunk)
unfolding receive_rest
receive_rest-one zero [] e = refl
receive_rest-one zero (c ∷ chunk) e = absurd (omega arith)
receive_rest-one (suc left) [] e = absurd (omega arith)
receive_rest-one (suc left) (c ∷ chunk) e =
    let whole = take_of_length-le left chunk (omega arith) in
    let none_left : left - length chunk ≡ 0 = omega arith in rw (whole, none_left, append-nil) refl

-- Whatever positive length the header declares, beyond the 4096 bytes of the buffer as well, the rest
-- of the payload is received and stored behind the header if the server sends it.
pub send_recv_unbounded :
    (buffer declared body chunk : Text) (n : ℕ)
    → after_prefix content_length_prefix buffer ≡ some declared
    → after_newline buffer ≡ some body
    → atoi declared ≡ pos n
    → 0 < n
    → length body + length chunk ≡ n
    → send_recv (some buffer) (some chunk ∷ []) ≡ complete (body ++ chunk)
unfolding send_recv receive_payload
send_recv_unbounded buffer declared body chunk n p b d pos_n e =
    let rest = receive_rest-one (n - length body) chunk (omega arith) in
    rw (send_recv, p, b, d) (ground (arith, rest))

-- A string added to a payload fits, with its final 0, exactly if it does so after one more chunk of
-- 2048 bytes: the payload grows by one chunk at most, however long the string is.
pub add_payload_string_fits :
    (p : Payload) (n : ℕ)
    → 0 < p.capacity
    → let q = add_payload_string p (some n) in
      (q.size < q.capacity) ↔ (p.size + n < p.capacity + 2048)
unfolding add_payload_string
add_payload_string_fits p n h = ground arith
