-- ===== src/Echo/Events/Cycle.antt =====
-- What the insertion of an echo event makes of a list with a later one.
use gogoc_android.Prelude.{
  ℕ, zero, suc, ◌≤◌, ◌<◌, ◌≡◌, ◌≢◌, refl, sym, ap, ◌∙◌, List, [], ◌∷◌, Option, none, some, All,
  length, arith,
}
use gogoc_android.Echo.Events.{
  EchoEvent, EventList, Slot, head, next_of, deref, update, assign, insert_at, insert_echo_event,
  remove_at, remove_free_echo_event,
}
use gogoc_android.Echo.Events.Leads.{slot_after, Leads, update_other, update_same, Leads-update}
use gogoc_android.Echo.Events.Insertion.{
  IsEarlier, insert_at-passes, insert_at-before, deref-slot_after, enough_rounds,
}

update-echo_seq :
    (node : ℕ → EchoEvent) (c b : ℕ) (r : Option ℕ)
    → (update node c r b).echo_seq ≡ (node b).echo_seq
update-echo_seq node c b r = ground arith

-- no search for another event ends once it is on a cycle of two
cycle_endless :
    (l : EventList) (a b echo_seq : ℕ)
    → (l.node a).next ≡ some b
    → (l.node b).next ≡ some a
    → (l.node a).echo_seq ≢ echo_seq
    → (l.node b).echo_seq ≢ echo_seq
    → (searched : ℕ)
    → (remove_at searched l (next_of a) echo_seq ≡ none)
      × (remove_at searched l (next_of b) echo_seq ≡ none)
unfolding remove_at deref
cycle_endless l a b echo_seq h k p q zero = (refl, refl)
cycle_endless l a b echo_seq h k p q (suc searched) =
    let ih = cycle_endless l a b echo_seq h k p q searched in
    (ground (arith, h, q, ih.1), ground (arith, k, p, ih.0))

-- nor does one that leads there
search_endless :
    (events : List ℕ) (l : EventList) (s : Slot) (b echo_seq : ℕ)
    → Leads l.node (deref l s) events (some b)
    → All (λ c. (l.node c).echo_seq ≢ echo_seq) events
    → (l.node b).echo_seq ≢ echo_seq
    → ((searched : ℕ) → remove_at searched l (next_of b) echo_seq ≡ none)
    → (searched : ℕ) → remove_at searched l s echo_seq ≡ none
unfolding remove_at deref
search_endless events l s b echo_seq h k q e zero = refl
search_endless [] l s b echo_seq h k q e (suc searched) = ground (arith, h, q, e searched)
search_endless (c ∷ events) l s b echo_seq h k q e (suc searched) =
    ground (arith, h.0, k.0, search_endless events l (next_of c) b echo_seq h.1 k.1 q e searched)

-- the list with `a` put beside `b`
abbrev cycled : EventList → ℕ → ℕ → EventList
cycled l a b = assign (assign l (next_of a) (some b)) (next_of b) (some a)

cycled-echo_seq :
    (l : EventList) (a b c : ℕ) → ((cycled l a b).node c).echo_seq ≡ (l.node c).echo_seq
unfolding assign
cycled-echo_seq l a b c =
    update-echo_seq (update l.node a (some b)) b c (some a) ∙ update-echo_seq l.node a c (some b)

cycled-others :
    (l : EventList) (a b echo_seq : ℕ) (events : List ℕ)
    → All (λ c. (l.node c).echo_seq ≢ echo_seq) events
    → All (λ c. ((cycled l a b).node c).echo_seq ≢ echo_seq) events
cycled-others l a b echo_seq [] h = tt
cycled-others l a b echo_seq (c ∷ events) h =
    (λ e. h.0 (sym (cycled-echo_seq l a b c) ∙ e), cycled-others l a b echo_seq events h.1)

cycled-Leads :
    (l : EventList) (a b : ℕ) (events : List ℕ)
    → Leads l.node l.event_list events (some b)
    → All (λ c. c ≢ a) events
    → All (λ c. c ≢ b) events
    → Leads (cycled l a b).node (cycled l a b).event_list events (some b)
unfolding assign
cycled-Leads l a b events h na nb =
    Leads-update events (update l.node a (some b)) b l.event_list (some b) (some a) nb
      (Leads-update events l.node a l.event_list (some b) (some b) na h)

cycled-next :
    (l : EventList) (a b : ℕ)
    → a ≢ b
    → (((cycled l a b).node a).next ≡ some b) × (((cycled l a b).node b).next ≡ some a)
unfolding assign
cycled-next l a b h = (
  ap (λ n. n.next) (update_other (update l.node a (some b)) b a (some a) h)
      ∙ update_same l.node a (some b),
  update_same (update l.node a (some b)) b (some a),
)

-- An event that is due no later than one of the list, and later than all before that, makes a cycle of
-- the two: every search for a sequence number that neither they nor the events before them have goes on
-- for ever.
pub insert_cycles :
    (l : EventList) (a b : ℕ) (events : List ℕ) (rounds : ℕ)
    → Leads l.node l.event_list events (some b)
    → All (λ c. c ≢ a) events
    → All (λ c. c ≢ b) events
    → a ≢ b
    → All (IsEarlier l a) events
    → (l.node a).tv_timeout ≤ (l.node b).tv_timeout
    → length events < rounds
    → (l' : EventList) × (insert_echo_event rounds l a ≡ some l')
      × ((echo_seq searched : ℕ)
          → All (λ c. (l.node c).echo_seq ≢ echo_seq) (a ∷ b ∷ events)
          → remove_free_echo_event searched l' echo_seq ≡ none)
unfolding deref
insert_cycles l a b events rounds h na nb ab e t r =
    let (m, k) = enough_rounds events rounds r in
    (
      cycled l a b,
      ap (λ x. insert_at x l head a) k
          ∙ (insert_at-passes events (suc m) l head a (some b) h e
              ∙ insert_at-before m l (slot_after head events) a b
                  (deref-slot_after events l head (some b) h) t),
      λ echo_seq searched o.
          let others = cycled-others l a b echo_seq (a ∷ b ∷ events) o in
          let (next_a, next_b) = cycled-next l a b ab in
          search_endless events (cycled l a b) head b echo_seq (cycled-Leads l a b events h na nb)
            others.1.1 others.1.0
            (λ x. (cycle_endless (cycled l a b) a b echo_seq next_a next_b others.0 others.1.0 x).1)
            searched,
    )
