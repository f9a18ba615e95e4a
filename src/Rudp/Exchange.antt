-- ===== src/Rudp/Exchange.antt =====
-- net_rudp.c: `internal_send_recv`, which sends a request until its reply comes, and the exported
-- functions around it.
pub mod Laws
pub mod Reply
use gogoc_android.Prelude.{
  ℕ, zero, suc, ◌+◌, ◌-◌, ◌*◌, ◌/◌, ◌%◌, ◌^◌, Bool, true, false, not, List, [], ◌∷◌, ◌++◌, Option,
  none, some, ltb, leb, ◌==◌, ◌&&◌, ◌||◌, if◌then◌else◌, take, drop, length, get_or, bit_or,
}
use gogoc_android.Cstring.{text_eq}
use gogoc_android.Rudp.{
  Floats, Stats, internal_get_adjusted_rto, net_rudp_init, rttengine_deinit, rttengine_update,
  internal_get_timestamp,
}

-- a 32-bit number in network order
abbrev pub htonl : ℕ → List ℕ
htonl n = n / 2 ^ 24 % 256 ∷ n / 2 ^ 16 % 256 ∷ n / 2 ^ 8 % 256 ∷ n % 256 ∷ []

abbrev pub ntohl : List ℕ → ℕ
ntohl bytes =
    get_or bytes 0 0 * 2 ^ 24
    + get_or bytes 1 0 * 2 ^ 16
    + get_or bytes 2 0 * 2 ^ 8
    + get_or bytes 3 0

-- what a pass of `selectloop` meets; a datagram comes with the time in milliseconds of its reading
pub data Wait : Type 0 where
  times_out select_fails recv_fails : Wait
  receives : List ℕ → ℕ → Wait

-- what a pass of `sendloop` meets: the time in milliseconds, whether `send` succeeds, and the waits
pub record Try : Type 0 where
  pub now : ℕ
  pub sends : Bool
  pub waits : List Wait

-- -1, the bytes copied to `out`, or an access outside memory
pub data Outcome : Type 0 where
  failed faults : Outcome
  replied : List ℕ → Outcome

-- how a `selectloop` goes on: it still waits, the request is sent again, or the function ends
pub data Step (F : Type 0) : Type 0 where
  waiting : Step F
  resends : Stats F → List ℕ → Step F
  ends : Stats F → Outcome → Step F

-- the buffer `im` after a datagram is read into it
abbrev pub recv_into : List ℕ → ℕ → List ℕ → List ℕ
recv_into im ol datagram = let got = take (8 + ol) datagram in got ++ drop (length got) im

abbrev pub zeros : ℕ → List ℕ
zeros zero = []
zeros (suc n) = 0 ∷ zeros n

-- how `NetRUDPConnect` ends
pub data Connected : Type 0 where
  connects not_resolved not_connected : Connected

module _ (fs : Floats) where
  open fs use {Float, of_ℕ, mul}

  -- the tests at `sendloop`; none for a return with -1
  unfoldable pub before_send : Stats Float → Option (Stats Float)
  before_send s =
      let s' : Stats Float = if s.retries == 3 then record s { apply_backoff = true } else s in
      if s.retries == 3 && not s.has_peer then none else (if s.retries == 8 then none else some s')

  -- nothing to read before the timeout
  unfoldable pub backs_off : Stats Float → Stats Float
  backs_off s = record s {
    rto = if s.apply_backoff then internal_get_adjusted_rto fs (mul s.rto (of_ℕ 2)) else s.rto;
    retries = suc s.retries;
  }

  -- the reply that was waited for: `len` bytes of `im`
  unfoldable pub accepts : Stats Float → List ℕ → ℕ → ℕ → Step Float
  accepts s im len now =
      let ms = (internal_get_timestamp fs s now + 2 ^ 32 - ntohl (drop 4 im)) % 2 ^ 32 in
      let s' = rttengine_update fs s ms in
      if ltb len 8
      then ends s' faults
      else ends (record s' { has_peer = true; retries = 0 }) (replied (take (len - 8) (drop 8 im)))

  -- `selectloop`
  unfoldable pub select_loop : ℕ → Stats Float → List ℕ → List ℕ → List Wait → Step Float
  select_loop ol s sequence im [] = waiting
  select_loop ol s sequence im (times_out ∷ _) = resends (backs_off s) im
  select_loop ol s sequence im (select_fails ∷ _) = ends (rttengine_deinit fs s) failed
  select_loop ol s sequence im (recv_fails ∷ _) = ends (rttengine_deinit fs s) failed
  select_loop ol s sequence im (receives datagram now ∷ waits) =
      let im' = recv_into im ol datagram in
      let more = select_loop ol s sequence im' waits in
      if text_eq (take 4 im') sequence
      then accepts s im' (length (take (8 + ol) datagram)) now
      else more

  abbrev pub sent_before :
      List ℕ
      → Option (Stats Float × Outcome × List (List ℕ))
      → Option (Stats Float × Outcome × List (List ℕ))
  sent_before om none = none
  sent_before om (some (s, o, sent)) = some (s, o, om ∷ sent)

  -- `sendloop`: the engine, the outcome and the datagrams sent; `none` if it still runs after the tries
  unfoldable pub send_loop :
      ℕ
      → Stats Float
      → List ℕ
      → List ℕ
      → List ℕ
      → List Try
      → Option (Stats Float × Outcome × List (List ℕ))
  send_loop ol s sequence request im [] = elim (before_send s) [
    | none ↦ some (rttengine_deinit fs s, failed, [])
    | some s' ↦ none
  ]
  send_loop ol s sequence request im (t ∷ tries) = elim (before_send s) [
    | none ↦ some (rttengine_deinit fs s, failed, [])
    | some s' ↦
        let om = sequence ++ (htonl (internal_get_timestamp fs s' t.now) ++ request) in
        if not t.sends
        then some (rttengine_deinit fs s', failed, [])
        else elim (select_loop ol s' sequence im t.waits) [
          | waiting ↦ none
          | ends s'' o ↦ some (s'', o, om ∷ [])
          | resends s'' im' ↦ sent_before om (send_loop ol s'' sequence request im' tries)
        ]
  ]

  -- `internal_send_recv`: whether the two messages could be allocated, and what the memory of the second
  -- holds. The messages are cleared before they are tested for NULL.
  unfoldable pub internal_send_recv :
      Bool
      → Bool
      → List ℕ
      → Stats Float
      → List ℕ
      → ℕ
      → List Try
      → Option (Stats Float × Outcome × List (List ℕ))
  internal_send_recv om_memory im_memory heap s request ol tries =
      let sequence = htonl (bit_or s.sequence 0xf0000000) in
      let counted = record s { sequence = (s.sequence + 1) % 2 ^ 32 } in
      let cleared = zeros ol ++ drop ol heap in
      if not s.initiated
      then some (s, failed, [])
      else (if (not om_memory && ltb 0 (length request)) || (not im_memory && ltb 0 ol)
          then some (s, faults, [])
          else (if not om_memory || not im_memory
              then some (rttengine_deinit fs s, failed, [])
              else send_loop ol counted sequence request cleared tries))

  -- `NetRUDPConnect` at the second `now`: whether the name resolves, an address can be allocated, and the
  -- socket be made and connected
  unfoldable pub net_rudp_connect : ℕ → Bool → Bool → Bool → Stats Float → Connected × Stats Float
  net_rudp_connect now resolves memory socket s =
      let s' : Stats Float = if s.initiated then s else net_rudp_init fs now s in
      let cached = s'.has_sai || (resolves && memory) in
      if cached
      then (if socket then connects else not_connected, record s' { has_sai = true })
      else (not_resolved, s')

  -- `NetRUDPClose`
  unfoldable pub net_rudp_close : Stats Float → ℕ × Stats Float
  net_rudp_close s = (1, rttengine_deinit fs s)
