-- ===== src/Rudp/Exchange/Laws.antt =====
-- How many datagrams a request takes, and what is taken for its reply.
use gogoc_android.Prelude.{
  Bool-cases, ℕ, suc, ◌+◌, ◌-◌, ◌%◌, ◌^◌, ◌≤◌, ◌<◌, ◌≡◌, ◌⊎◌, inl, inr, refl, Bool, true, not, List,
  [], ◌∷◌, ◌++◌, none, some, ltb, ◌==◌, ◌&&◌, ◌||◌, if◌then◌else◌, take, drop, length, bit_or, All,
  arith,
}
use gogoc_android.Cstring.{text_eq}
use gogoc_android.Rudp.{Floats, Stats, rttengine_deinit, rttengine_update, internal_get_timestamp}
use gogoc_android.Rudp.Exchange.{
  zeros, htonl, ntohl, Wait, times_out, select_fails, recv_fails, receives, Try, Outcome, failed,
  faults, replied, resends, ends, recv_into, before_send, backs_off, accepts, select_loop,
  send_loop, internal_send_recv,
}

-- some wait ends the `selectloop`: every list of waits that has a timeout or a failure
abbrev pub Decides : List Wait → Type 0
Decides [] = ⊥
Decides (receives _ _ ∷ waits) = Decides waits
Decides (_ ∷ waits) = Unit

-- the number of datagrams that a request may take
abbrev pub limit : Bool → ℕ
limit has_peer = if has_peer then 8 else 3

module _ (fs : Floats) where
  open fs use {Float}

  abbrev delay : Stats Float → List ℕ → ℕ → ℕ
  delay s im now = (internal_get_timestamp fs s now + 2 ^ 32 - ntohl (drop 4 im)) % 2 ^ 32

  -- Each `selectloop` that decides resends with one more retry, or ends.
  select_loop-Decides :
      (ol : ℕ) (s : Stats Float) (sequence im : List ℕ) (waits : List Wait)
      → Decides waits
      → ((s' : Stats Float) × (im' : List ℕ) × (select_loop fs ol s sequence im waits
            ≡ resends s' im')
          × (s'.retries ≡ suc s.retries)
          × (s'.has_peer ≡ s.has_peer))
        ⊎ ((s' : Stats Float) × (o : Outcome) × (select_loop fs ol s sequence im waits ≡ ends s' o))
  unfolding select_loop backs_off accepts
  select_loop-Decides ol s sequence im [] h = absurd h
  select_loop-Decides ol s sequence im (times_out ∷ waits) h =
      inl (backs_off fs s, im, refl, refl, refl)
  select_loop-Decides ol s sequence im (select_fails ∷ waits) h =
      inr (rttengine_deinit fs s, failed, refl)
  select_loop-Decides ol s sequence im (recv_fails ∷ waits) h =
      inr (rttengine_deinit fs s, failed, refl)
  select_loop-Decides ol s sequence im (receives datagram now ∷ waits) h =
      let im' = recv_into im ol datagram in
      let len = length (take (8 + ol) datagram) in
      elim (Bool-cases (text_eq (take 4 im') sequence)) [
        | inl hit ↦ elim (Bool-cases (ltb len 8)) [
          | inl short ↦
              inr (rttengine_update fs s (delay s im' now), faults, ground (arith, hit, short))
          | inr long ↦ inr (
            record (rttengine_update fs s (delay s im' now)) { has_peer = true; retries = 0 },
            replied (take (len - 8) (drop 8 im')),
            ground (arith, hit, long),
          )
        ]
        | inr miss ↦ elim (select_loop-Decides ol s sequence im' waits h) [
          | inl (s', im'', e, r, p) ↦ inl (s', im'', ground (arith, miss, e), r, p)
          | inr (s', o, e) ↦ inr (s', o, ground (arith, miss, e))
        ]
      ]

  before_send-cases :
      (s : Stats Float)
      → s.retries ≤ limit s.has_peer
      → ((before_send fs s ≡ none) × (s.retries ≡ limit s.has_peer))
        ⊎ ((s' : Stats Float) × (before_send fs s ≡ some s')
            × (s'.retries ≡ s.retries)
            × (s'.has_peer ≡ s.has_peer)
            × (s.retries < limit s.has_peer))
  unfolding before_send
  before_send-cases s h =
      let tested : Stats Float = if s.retries == 3 then record s { apply_backoff = true } else s in
      elim (Bool-cases ((s.retries == 3 && not s.has_peer) || s.retries == 8)) [
        | inl gives_up ↦ inl (ground (arith, gives_up, h), ground (arith, gives_up, h))
        | inr goes_on ↦ inr (
          tested,
          ground (arith, goes_on),
          ground (arith, goes_on),
          ground (arith, goes_on),
          ground (arith, goes_on, h),
        )
      ]

  send_loop-total :
      (ol : ℕ) (s : Stats Float) (sequence request im : List ℕ) (tries : List Try)
      → s.retries ≤ limit s.has_peer
      → limit s.has_peer ≤ length tries + s.retries
      → All (λ (t : Try). Decides t.waits) tries
      → (s' : Stats Float) × (o : Outcome) × (sent : List (List ℕ)) × (send_loop fs ol s sequence
            request im tries
          ≡ some (s', o, sent))
        × (length sent + s.retries ≤ limit s.has_peer)
  unfolding send_loop
  send_loop-total ol s sequence request im [] r n d = elim (before_send-cases s r) [
    | inl (e, k) ↦ (rttengine_deinit fs s, failed, [], ground (arith, e), ground (arith, k))
    | inr (s', e, k, p, below) ↦ absurd (omega (arith, n, below))
  ]
  send_loop-total ol s sequence request im (t ∷ tries) r n d = elim (before_send-cases s r) [
    | inl (e, k) ↦ (rttengine_deinit fs s, failed, [], ground (arith, e), ground (arith, k))
    | inr (s', e, k, p, below) ↦ elim (Bool-cases t.sends) [
      | inr fails ↦
          (rttengine_deinit fs s', failed, [], ground (arith, e, fails), ground (arith, below))
      | inl goes ↦
          let om = sequence ++ (htonl (internal_get_timestamp fs s' t.now) ++ request) in
          elim (select_loop-Decides ol s' sequence im t.waits d.0) [
            | inr (s'', o, over) ↦
                (s'', o, om ∷ [], ground (arith, e, goes, over), ground (arith, below))
            | inl (s'', im', again, k', p') ↦
                let q : limit s''.has_peer ≡ limit s.has_peer = ground (arith, p, p') in
                let (s3, o, sent, runs, bound) =
                  send_loop-total ol s'' sequence request im' tries (omega (arith, below, k, k', q))
                    (omega (arith, n, k, k', q)) d.1 in
                (
                  s3,
                  o,
                  om ∷ sent,
                  ground (arith, e, goes, again, runs),
                  omega (arith, bound, k, k', q),
                )
          ]
    ]
  ]

  -- A request of an initiated engine, with memory for its messages and no retries behind it, ends if each
  -- wait for a reply meets a timeout or a failure at last, or the reply. It sends at most 8 datagrams, and at
  -- most 3 as long as no peer has ever answered.
  pub request_ends :
      (heap : List ℕ) (s : Stats Float) (request : List ℕ) (ol : ℕ) (tries : List Try)
      → s.initiated ≡ true
      → s.retries ≡ 0
      → 8 ≤ length tries
      → All (λ (t : Try). Decides t.waits) tries
      → (s' : Stats Float) × (o : Outcome) × (sent : List (List ℕ)) × (internal_send_recv fs true
            true heap s request ol tries
          ≡ some (s', o, sent))
        × (length sent ≤ limit s.has_peer)
  unfolding internal_send_recv
  request_ends heap s request ol tries i r n d =
      let counted : Stats Float = record s { sequence = (s.sequence + 1) % 2 ^ 32 } in
      let (s', o, sent, runs, bound) =
        send_loop-total ol counted (htonl (bit_or s.sequence 0xf0000000)) request
          (zeros ol ++ drop ol heap) tries (ground (arith, r)) (ground (arith, r, n)) d in
      (s', o, sent, ground (arith, i, runs), ground (arith, bound, r))
