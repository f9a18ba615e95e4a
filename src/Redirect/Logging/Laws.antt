-- ===== src/Redirect/Logging/Laws.antt =====
-- The size of the logged list. The space left is not reduced as addresses are stored, so what
-- bounds the text is the number of brokers, not the buffer.
use gogoc_android.Prelude.{
  ℕ, ◌+◌, ◌*◌, ◌≤◌, ◌<◌, ◌≡◌, ◌↔◌, refl, ap, false, List, [], ◌∷◌, ◌++◌, length, length-append, All,
  arith,
}
use gogoc_android.Redirect.{Broker}
use gogoc_android.Redirect.Logging.{log_brokers, log_redirection_list, list_end}

-- the bytes of the addresses, with two more for each separator or bracket
abbrev pub log_size : List Broker → ℕ
log_size [] = 0
log_size (b ∷ bs) = length b.address + 2 + log_size bs

-- an address as `tspAddBrokerToList` stores it
abbrev pub IsStored : Broker → Type 0
IsStored b = length b.address ≤ 254

length-log_brokers :
    (bs : List Broker) → All IsStored bs → length (log_brokers false bs) ≡ log_size bs
unfolding log_brokers
length-log_brokers [] h = refl
length-log_brokers (b ∷ bs) h =
    ground (arith, length-append b.address (log_brokers false bs), length-log_brokers bs h.1)

length-log_redirection_list :
    (b : Broker) (bs : List Broker)
    → All IsStored (b ∷ bs)
    → length (log_redirection_list (b ∷ bs)) ≡ log_size (b ∷ bs) + 2
unfolding log_redirection_list
length-log_redirection_list b bs h = ground (
  arith,
  length-append b.address (log_brokers false bs),
  length-append (b.address ++ log_brokers false bs) list_end,
  length-log_brokers bs h.1,
)

-- The text of a list of stored addresses fits the buffer of 4096 bytes with its final 0 exactly
-- when the addresses and two bytes for each come to less than 4094: the code's own test cuts no
-- such list short, however long it is.
pub log_redirection_list_fits :
    (b : Broker) (bs : List Broker)
    → All IsStored (b ∷ bs)
    → (length (log_redirection_list (b ∷ bs)) < 4096) ↔ (log_size (b ∷ bs) < 4094)
log_redirection_list_fits b bs h = (
  λ k. omega (arith, length-log_redirection_list b bs h),
  λ k. omega (arith, length-log_redirection_list b bs h),
)

-- an address of 80 bytes at least, as `tspAddBrokerToList` stores it
abbrev pub IsLong : Broker → Type 0
IsLong b = (80 ≤ length b.address) × IsStored b

log_size-IsLong : (bs : List Broker) → All IsLong bs → length bs * 82 ≤ log_size bs
log_size-IsLong [] h = omega arith
log_size-IsLong (b ∷ bs) h = omega (arith, log_size-IsLong bs h.1, h.0.0)

All-IsStored : (bs : List Broker) → All IsLong bs → All IsStored bs
All-IsStored [] h = tt
All-IsStored (b ∷ bs) h = (h.0.1, All-IsStored bs h.1)

-- Logging overflows the buffer on every list of 50 brokers, which `tspCreateBrokerList` admits,
-- whose addresses have 80 to 254 bytes each.
pub log_redirection_list_overflow :
    (b : Broker) (bs : List Broker)
    → length (b ∷ bs) ≡ 50
    → All IsLong (b ∷ bs)
    → 4096 < length (log_redirection_list (b ∷ bs))
log_redirection_list_overflow b bs n h = omega (
  arith,
  length-log_redirection_list b bs (All-IsStored (b ∷ bs) h),
  ap (λ m. m * 82) n,
  log_size-IsLong (b ∷ bs) h,
)
