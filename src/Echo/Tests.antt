-- ===== src/Echo/Tests.antt =====
-- The list of echo events at concrete inputs.
use gogoc_android.Prelude.{
  List, ℕ, zero, suc, ◌≡◌, ◌≢◌, refl, [], ◌∷◌, ◌++◌, none, some, All, arith,
}
use gogoc_android.Echo.Events.{EchoEvent, EventList, insert_echo_event, remove_free_echo_event}
use gogoc_android.Echo.Events.Cycle.{insert_cycles}
use gogoc_android.Echo.Events.Queue.{
  Request, is_waiting, without, request_at, Represents, list_refines_queue,
}

-- events 0 and 1 in the list, event 2 to insert
abbrev nodes : ℕ → ℕ → EchoEvent
nodes new_timeout zero = record { echo_seq = 10; tv_timeout = 5000; next = some 1 }
nodes new_timeout (suc zero) = record { echo_seq = 11; tv_timeout = 6000; next = none }
nodes new_timeout a = record { echo_seq = 12; tv_timeout = new_timeout; next = none }

abbrev two_events : ℕ → EventList
two_events new_timeout = record { event_list = some 0; node = nodes new_timeout }

abbrev two_waiting : List Request
two_waiting = record { number = 10; due = 5000 } ∷ record { number = 11; due = 6000 } ∷ []

two_requests : Represents (two_events 7000) (0 ∷ 1 ∷ []) (two_waiting)
two_requests = record {
  leads = (refl, (refl, refl));
  distinct = ((ground arith, tt), (tt, tt));
  holds = refl;
}

list_refines_queue_example :
    ((l' : EventList) × (insert_echo_event 3 (two_events 7000) 2 ≡ some l')
      × Represents l' ((0 ∷ 1 ∷ []) ++ (2 ∷ [])) (two_waiting ++ (request_at (nodes 7000) 2 ∷ [])))
    × ((l' : EventList) × (events' : List ℕ) × (remove_free_echo_event 3 (two_events 7000) 11
          ≡ some (is_waiting 11 two_waiting, l'))
        × Represents l' events' (without 11 two_waiting))
list_refines_queue_example =
    list_refines_queue (two_events 7000) (0 ∷ 1 ∷ []) two_waiting 2 11 3 two_requests (ground arith)
      (ground arith, (ground arith, tt)) (ground arith, (ground arith, tt))

insert_cycles_example :
    (l' : EventList) × (insert_echo_event 3 (two_events 6000) 2 ≡ some l')
    × ((echo_seq searched : ℕ)
        → All (λ c. ((two_events 6000).node c).echo_seq ≢ echo_seq) (2 ∷ 1 ∷ 0 ∷ [])
        → remove_free_echo_event searched l' echo_seq ≡ none)
insert_cycles_example =
    insert_cycles (two_events 6000) 2 1 (0 ∷ []) 3 (refl, refl) (ground arith, tt)
      (ground arith, tt) (ground arith) (ground arith, tt) (ground arith) (ground arith)
