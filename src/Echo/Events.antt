-- ===== src/Echo/Events.antt =====
-- icmp_echo_engine.c: the linked list of echo events, on nodes that have addresses.
pub mod Leads
pub mod Insertion
pub mod Laws
pub mod Cycle
pub mod Removal
pub mod Queue
use gogoc_android.Prelude.{
  ℕ, zero, suc, ◌+◌, ◌*◌, Bool, true, false, Option, none, some, ltb, ◌==◌, if◌then◌else◌,
}

-- `ECHO_EVENT`; the time in microseconds
pub record EchoEvent : Type 0 where
  pub echo_seq : ℕ
  pub tv_timeout : ℕ
  pub next : Option ℕ

-- `event_list` and the memory
pub record EventList : Type 0 where
  pub event_list : Option ℕ
  pub node : ℕ → EchoEvent

-- what `pp_event` points to: `event_list`, or the `next` of an event
pub data Slot : Type 0 where
  head : Slot
  next_of : ℕ → Slot

unfoldable pub deref : EventList → Slot → Option ℕ
deref l head = l.event_list
deref l (next_of a) = (l.node a).next

abbrev pub update : (ℕ → EchoEvent) → ℕ → Option ℕ → ℕ → EchoEvent
update node a p b = if b == a then record (node a) { next = p } else node b

unfoldable pub assign : EventList → Slot → Option ℕ → EventList
assign l head p = record l { event_list = p }
assign l (next_of a) p = record l { node = update l.node a p }

-- `_compare_tv`, as a test for a positive difference
unfoldable pub is_later : ℕ → ℕ → Bool
is_later tv_1 tv_2 = ltb tv_2 tv_1

-- The loop of `_insert_echo_event` for at most the given number of rounds; `none` if it still runs.
unfoldable pub insert_at : ℕ → EventList → Slot → ℕ → Option EventList
insert_at zero l pp_event a = none
insert_at (suc rounds) l pp_event a = elim (deref l pp_event) [
  | none ↦ some (assign (assign l pp_event (some a)) (next_of a) none)
  | some b ↦
      let further = insert_at rounds l (next_of b) a in
      if is_later (l.node a).tv_timeout (l.node b).tv_timeout
      then further
      else some (assign (assign l (next_of a) (some b)) (next_of b) (some a))
]

-- `_insert_echo_event`
abbrev pub insert_echo_event : ℕ → EventList → ℕ → Option EventList
insert_echo_event rounds l a = insert_at rounds l head a

-- The loop of `_remove_free_echo_event`: whether the event was found, and the list.
unfoldable pub remove_at : ℕ → EventList → Slot → ℕ → Option (Bool × EventList)
remove_at zero l pp_event echo_seq = none
remove_at (suc rounds) l pp_event echo_seq = elim (deref l pp_event) [
  | none ↦ some (false, l)
  | some b ↦
      let further = remove_at rounds l (next_of b) echo_seq in
      if (l.node b).echo_seq == echo_seq
      then some (true, assign l pp_event (l.node b).next)
      else further
]

-- `_remove_free_echo_event`
abbrev pub remove_free_echo_event : ℕ → EventList → ℕ → Option (Bool × EventList)
remove_free_echo_event rounds l echo_seq = remove_at rounds l head echo_seq
