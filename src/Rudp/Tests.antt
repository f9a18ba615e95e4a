-- ===== src/Rudp/Tests.antt =====
-- Requests over reliable UDP at concrete inputs.
use gogoc_android.Prelude.{
  ℕ, ◌+◌, ◌-◌, ◌*◌, ◌/◌, ◌≤◌, ◌≡◌, refl, true, false, List, [], ◌∷◌, some, length, take, drop, ltb,
  bit_or, arith,
}
use gogoc_android.Cstring.{text_eq}
use gogoc_android.Rudp.{
  Floats, Stats, net_rudp_init, rttengine_init, rttengine_deinit, rttengine_update,
  internal_get_adjusted_rto, internal_get_timestamp,
}
use gogoc_android.Rudp.Laws.{IsOrder, IsWithin, rto_bounds}
use gogoc_android.Rudp.Exchange.{
  htonl, times_out, receives, Try, Outcome, replied, internal_send_recv, send_loop, select_loop,
  before_send, backs_off, accepts,
}
use gogoc_android.Rudp.Exchange.Laws.{limit, request_ends}
use gogoc_android.Rudp.Exchange.Reply.{ComesIn, reply_is_answer}

-- whole thousandths in place of floats
abbrev thousandths : Floats
thousandths = record {
  Float = ℕ;
  of_ℕ = λ n. n * 1000;
  half = 500;
  rttengine_g = 125;
  rttengine_h = 250;
  add = λ a b. a + b;
  sub = λ a b. a - b;
  mul = λ a b. a * b / 1000;
  div = λ a b. a * 1000 / b;
  neg = λ a. a;
  lt = ltb;
}

thousandths-IsOrder : IsOrder thousandths
thousandths-IsOrder = record { min_min = refl; max_min = refl; max_max = refl }

abbrev unset : Stats ℕ
unset = record {
  has_sai = false;
  rtt = 0;
  srtt = 0;
  rttvar = 0;
  rto = 0;
  sequence = 0;
  retries = 0;
  initial_timestamp = 0;
  apply_backoff = false;
  has_peer = false;
  initiated = false;
}

-- the engine after `NetRUDPInit` at the second 100
abbrev fresh : Stats ℕ
fresh = record unset {
  rttvar = 500;
  rto = 2000;
  sequence = 240;
  initial_timestamp = 100;
  initiated = true;
}

net_rudp_init_runs : net_rudp_init thousandths 100 unset ≡ fresh
unfolding net_rudp_init rttengine_init
net_rudp_init_runs = refl

-- nothing comes
abbrev silence : ℕ → Try
silence t = record { now = t; sends = true; waits = times_out ∷ [] }

-- the reply to the sequence 240, with two bytes
abbrev answer : List ℕ
answer = 0xf0 ∷ 0 ∷ 0 ∷ 0xf0 ∷ 0 ∷ 0 ∷ 0 ∷ 0 ∷ 7 ∷ 9 ∷ []

abbrev answers : Try
answers = record {
  now = 102000;
  sends = true;
  waits = receives (1 ∷ 2 ∷ 3 ∷ 4 ∷ 0 ∷ 0 ∷ 0 ∷ 0 ∷ []) 102100 ∷ receives answer 102500 ∷ [];
}

abbrev eight : List Try
eight =
    silence 100000
    ∷ silence 100001
    ∷ silence 100002
    ∷ silence 100003
    ∷ silence 100004
    ∷ silence 100005
    ∷ silence 100006
    ∷ silence 100007
    ∷ []

request_ends_example :
    (s' : Stats ℕ) × (o : Outcome) × (sent : List (List ℕ)) × (internal_send_recv thousandths true
        true [] fresh
        (1 ∷ [])
        4
        eight
      ≡ some (s', o, sent))
    × (length sent ≤ limit false)
request_ends_example =
    request_ends thousandths [] fresh (1 ∷ []) 4 eight refl refl (omega arith)
      (tt, (tt, (tt, (tt, (tt, (tt, (tt, (tt, tt))))))))

-- the engine after the answer
abbrev answered : Stats ℕ
answered = record fresh {
  rtt = 2500;
  srtt = 312;
  rttvar = 1125;
  rto = 4812;
  sequence = 241;
  has_peer = true;
}

answer_runs :
    internal_send_recv thousandths true true [] fresh (1 ∷ []) 4 (answers ∷ [])
    ≡ some
        (answered, replied (7 ∷ 9 ∷ []), (0xf0 ∷ 0 ∷ 0 ∷ 0xf0 ∷ 0 ∷ 0 ∷ 0x07 ∷ 0xd0 ∷ 1 ∷ []) ∷ [])
unfolding internal_send_recv send_loop select_loop before_send backs_off accepts rttengine_update
    rttengine_deinit internal_get_timestamp internal_get_adjusted_rto text_eq
answer_runs = refl

abbrev two_bytes : List ℕ
two_bytes = 7 ∷ 9 ∷ []

reply_is_answer_example :
    (d : List ℕ) × ComesIn (answers ∷ []) d
    × (take 4 d ≡ htonl (bit_or 240 0xf0000000))
    × (two_bytes ≡ take 4 (drop 8 d))
    × (length two_bytes ≤ 4)
reply_is_answer_example =
    reply_is_answer thousandths [] fresh answered (1 ∷ []) 4 (answers ∷ []) two_bytes
      ((0xf0 ∷ 0 ∷ 0 ∷ 0xf0 ∷ 0 ∷ 0 ∷ 0x07 ∷ 0xd0 ∷ 1 ∷ []) ∷ [])
      (((omega arith, (omega arith, tt))), tt) answer_runs

rto_bounds_example :
    IsWithin thousandths 4812 × IsWithin thousandths (net_rudp_init thousandths 200 answered).rto
rto_bounds_example =
    rto_bounds thousandths 200 fresh answered true true [] (1 ∷ []) 4 (answers ∷ [])
      (replied two_bytes) ((0xf0 ∷ 0 ∷ 0 ∷ 0xf0 ∷ 0 ∷ 0 ∷ 0x07 ∷ 0xd0 ∷ 1 ∷ []) ∷ [])
      thousandths-IsOrder (refl, refl) answer_runs
