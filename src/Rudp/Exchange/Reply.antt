-- ===== src/Rudp/Exchange/Reply.antt =====
-- What is taken for the reply to a request.
use gogoc_android.Prelude.{
  Bool-cases, Option-cases, ℕ, zero, suc, ◌+◌, ◌-◌, ◌%◌, ◌^◌, ◌≤◌, ◌≡◌, ◌⊎◌, inl, inr, refl, sym,
  ap, ◌∙◌, true, List, [], ◌∷◌, ◌++◌, some, take, drop, length, length-take, bit_or, All, arith,
}
use gogoc_android.Cstring.{text_eq}
use gogoc_android.Rudp.{Floats, Stats}
use gogoc_android.Rudp.Exchange.{
  zeros, htonl, Wait, times_out, select_fails, recv_fails, receives, Try, Outcome, replied, Step,
  waiting, resends, ends, recv_into, before_send, accepts, select_loop, send_loop,
  internal_send_recv,
}

-- a datagram comes in these waits
abbrev pub Comes : List Wait → List ℕ → Type 0
Comes [] d = ⊥
Comes (receives d' _ ∷ waits) d = (d ≡ d') ⊎ Comes waits d
Comes (_ ∷ waits) d = Comes waits d

abbrev pub ComesIn : List Try → List ℕ → Type 0
ComesIn [] d = ⊥
ComesIn (t ∷ tries) d = Comes t.waits d ⊎ ComesIn tries d

-- every datagram has the eight bytes of a header
abbrev pub HasHeader : Wait → Type 0
HasHeader (receives d _) = 8 ≤ length d
HasHeader _ = Unit

module _ {ℓ} {A : Type ℓ} where
  take-append : (n : ℕ) (xs ys : List A) → n ≤ length xs → take n (xs ++ ys) ≡ take n xs
  take-append zero xs ys h = refl
  take-append (suc n) [] ys h = absurd (omega (arith, h))
  take-append (suc n) (x ∷ xs) ys h = ap (λ r. x ∷ r) (take-append n xs ys (omega (arith, h)))

  take_all-append : (xs ys : List A) (n : ℕ) → n ≡ length xs → take n (xs ++ ys) ≡ xs
  take_all-append [] ys zero h = refl
  take_all-append [] ys (suc n) h = absurd (omega (arith, h))
  take_all-append (x ∷ xs) ys zero h = absurd (omega (arith, h))
  take_all-append (x ∷ xs) ys (suc n) h =
      ap (λ r. x ∷ r) (take_all-append xs ys n (omega (arith, h)))

  take-drop-append :
      (k : ℕ) (xs ys : List A) (n : ℕ)
      → k ≤ length xs
      → n ≡ length xs - k
      → take n (drop k (xs ++ ys)) ≡ drop k xs
  take-drop-append zero xs ys n h e = take_all-append xs ys n (omega (arith, e))
  take-drop-append (suc k) [] ys n h e = absurd (omega (arith, h))
  take-drop-append (suc k) (x ∷ xs) ys n h e =
      take-drop-append k xs ys n (omega (arith, h)) (omega (arith, e))

  take-take : (n m : ℕ) (xs : List A) → n ≤ m → take n (take m xs) ≡ take n xs
  take-take zero m xs h = refl
  take-take (suc n) zero xs h = absurd (omega (arith, h))
  take-take (suc n) (suc m) [] h = refl
  take-take (suc n) (suc m) (x ∷ xs) h = ap (λ r. x ∷ r) (take-take n m xs (omega (arith, h)))

  drop-take : (k m n : ℕ) (xs : List A) → n ≡ k + m → drop k (take n xs) ≡ take m (drop k xs)
  drop-take zero m n xs e = ap (λ x. take x xs) (omega (arith, e))
  drop-take (suc k) m zero xs e = absurd (omega (arith, e))
  drop-take (suc k) zero (suc n) [] e = refl
  drop-take (suc k) (suc m) (suc n) [] e = refl
  drop-take (suc k) m (suc n) (x ∷ xs) e = drop-take k m n xs (omega (arith, e))

text_eq-true : (s t : List ℕ) → text_eq s t ≡ true → s ≡ t
unfolding text_eq
text_eq-true [] [] h = refl
text_eq-true [] (d ∷ t) h = ground (arith, h)
text_eq-true (c ∷ s) [] h = ground (arith, h)
text_eq-true (c ∷ s) (d ∷ t) h = ground (arith, h, text_eq-true s t)

pub step_cases :
    {F : Type 0} (r : Step F)
    → (r ≡ waiting)
      ⊎ ((s : Stats F) × (o : Outcome) × (r ≡ ends s o))
      ⊎ ((s : Stats F) × (im : List ℕ) × (r ≡ resends s im))
step_cases waiting = inl refl
step_cases (ends s o) = inr (inl (s, o, refl))
step_cases (resends s im) = inr (inr (s, im, refl))

module _ (fs : Floats) where
  open fs use {Float}

  -- the reply: the datagram that came, its sequence and its bytes
  abbrev pub IsReply : List ℕ → ℕ → List ℕ → List ℕ → Type 0
  IsReply sequence ol bytes d = (take 4 d ≡ sequence) × (bytes ≡ take ol (drop 8 d))

  select_loop-IsReply :
      (ol : ℕ) (s s' : Stats Float) (sequence im : List ℕ) (waits : List Wait) (bytes : List ℕ)
      → All HasHeader waits
      → select_loop fs ol s sequence im waits ≡ ends s' (replied bytes)
      → (d : List ℕ) × Comes waits d × IsReply sequence ol bytes d
  unfolding select_loop accepts
  select_loop-IsReply ol s s' sequence im [] bytes k h = absurd (ground (arith, h))
  select_loop-IsReply ol s s' sequence im (times_out ∷ waits) bytes k h = absurd (ground (arith, h))
  select_loop-IsReply ol s s' sequence im (select_fails ∷ waits) bytes k h =
      absurd (ground (arith, h))
  select_loop-IsReply ol s s' sequence im (recv_fails ∷ waits) bytes k h =
      absurd (ground (arith, h))
  select_loop-IsReply ol s s' sequence im (receives d now ∷ waits) bytes k h =
      let im' = recv_into im ol d in
      let got = take (8 + ol) d in
      let long : 8 ≤ length got = omega (arith, k.0, length-take (8 + ol) d) in
      elim (Bool-cases (text_eq (take 4 im') sequence)) [
        | inl hit ↦
            let stored : replied (take (length got - 8) (drop 8 im')) ≡ replied bytes =
              ground (arith, h, hit, long) in
            (
              d,
              inl refl,
              (
                sym (take-take 4 (8 + ol) d (omega arith))
                    ∙ (sym (take-append 4 got (drop (length got) im) (omega (arith, long)))
                        ∙ text_eq-true (take 4 im') sequence hit),
                ground (
                  arith,
                  stored,
                  take-drop-append 8 got (drop (length got) im) (length got - 8) long refl,
                  drop-take 8 ol (8 + ol) d refl,
                ),
              ),
            )
        | inr miss ↦
            let (d', comes, reply) =
              select_loop-IsReply ol s s' sequence im' waits bytes k.1 (ground (arith, h, miss)) in
            (d', inr comes, reply)
      ]

  send_loop-IsReply :
      (ol : ℕ) (s s' : Stats Float) (sequence request im : List ℕ) (tries : List Try)
      (bytes : List ℕ) (sent : List (List ℕ))
      → All (λ (t : Try). All HasHeader t.waits) tries
      → send_loop fs ol s sequence request im tries ≡ some (s', replied bytes, sent)
      → (d : List ℕ) × ComesIn tries d × IsReply sequence ol bytes d
  unfolding send_loop
  send_loop-IsReply ol s s' sequence request im [] bytes sent k h = absurd (ground (arith, h))
  send_loop-IsReply ol s s' sequence request im (t ∷ tries) bytes sent k h =
      elim (Option-cases (before_send fs s)) [
        | inl e ↦ absurd (ground (arith, h, e))
        | inr (s1, e) ↦ elim (Bool-cases t.sends) [
          | inr fails ↦ absurd (ground (arith, h, e, fails))
          | inl goes ↦ elim (step_cases (select_loop fs ol s1 sequence im t.waits)) [
            | inl w ↦ absurd (ground (arith, h, e, goes, w))
            | inr (inl (s2, o, w)) ↦
                let w' : select_loop fs ol s1 sequence im t.waits ≡ ends s2 (replied bytes) =
                  ground (arith, h, e, goes, w) in
                let (d, comes, reply) =
                  select_loop-IsReply ol s1 s2 sequence im t.waits bytes k.0 w' in
                (d, inl comes, reply)
            | inr (inr (s2, im2, w)) ↦
                elim (Option-cases (send_loop fs ol s2 sequence request im2 tries)) [
                  | inl stuck ↦ absurd (ground (arith, h, e, goes, w, stuck))
                  | inr ((s3, o, later), runs) ↦
                      let same : send_loop fs ol s2 sequence request im2 tries
                          ≡ some (s3, replied bytes, later) =
                        ground (arith, h, e, goes, w, runs) in
                      let (d, comes, reply) =
                        send_loop-IsReply ol s2 s3 sequence request im2 tries bytes later k.1
                          same in
                      (d, inr comes, reply)
                ]
          ]
        ]
      ]

  -- What a request returns is the reply to it, if every datagram that comes has the eight bytes of a header:
  -- one of them begins with the sequence of the request, and the bytes are what follows its header, at most
  -- as many as the caller has room for.
  pub reply_is_answer :
      (heap : List ℕ) (s s' : Stats Float) (request : List ℕ) (ol : ℕ) (tries : List Try)
      (bytes : List ℕ) (sent : List (List ℕ))
      → All (λ (t : Try). All HasHeader t.waits) tries
      → internal_send_recv fs true true heap s request ol tries ≡ some (s', replied bytes, sent)
      → (d : List ℕ) × ComesIn tries d
        × (take 4 d ≡ htonl (bit_or s.sequence 0xf0000000))
        × (bytes ≡ take ol (drop 8 d))
        × (length bytes ≤ ol)
  unfolding internal_send_recv
  reply_is_answer heap s s' request ol tries bytes sent k h =
      let counted : Stats Float = record s { sequence = (s.sequence + 1) % 2 ^ 32 } in
      let sequence = htonl (bit_or s.sequence 0xf0000000) in
      let runs : send_loop fs ol counted sequence request (zeros ol ++ drop ol heap) tries
          ≡ some (s', replied bytes, sent) =
        ground (arith, h) in
      let (d, comes, (first, rest)) =
        send_loop-IsReply ol counted s' sequence request (zeros ol ++ drop ol heap) tries bytes sent
          k runs in
      (d, comes, first, rest, omega (arith, ap (length {A = ℕ}) rest, length-take ol (drop 8 d)))
