-- ===== src/Echo/Events/Insertion.antt =====
-- The loop of `_insert_echo_event` up to the place where it inserts.
use gogoc_android.Prelude.{
  ℕ, suc, ◌+◌, ◌-◌, ◌≤◌, ◌<◌, ◌≡◌, refl, List, [], ◌∷◌, Option, none, some, All, length, arith,
}
use gogoc_android.Echo.Events.{EventList, Slot, next_of, deref, assign, is_later, insert_at}
use gogoc_android.Echo.Events.Leads.{slot_after, Leads}

-- due before the event to insert
abbrev pub IsEarlier : EventList → ℕ → ℕ → Type 0
IsEarlier l a b = (l.node b).tv_timeout < (l.node a).tv_timeout

-- a round for each event, and more
abbrev pub rounds_for : List ℕ → ℕ → ℕ
rounds_for [] rounds = rounds
rounds_for (b ∷ events) rounds = suc (rounds_for events rounds)

pub rounds_for-length :
    (events : List ℕ) (rounds : ℕ) → rounds_for events rounds ≡ length events + rounds
rounds_for-length [] rounds = ground arith
rounds_for-length (b ∷ events) rounds = ground (arith, rounds_for-length events rounds)

-- the loop passes all that is due earlier
pub insert_at-passes :
    (events : List ℕ) (rounds : ℕ) (l : EventList) (s : Slot) (a : ℕ) (q : Option ℕ)
    → Leads l.node (deref l s) events q
    → All (IsEarlier l a) events
    → insert_at (rounds_for events rounds) l s a ≡ insert_at rounds l (slot_after s events) a
unfolding insert_at deref is_later
insert_at-passes [] rounds l s a q h e = refl
insert_at-passes (b ∷ events) rounds l s a q h e =
    let ih = insert_at-passes events rounds l (next_of b) a q h.1 e.1 in
    ground (arith, h.0, e.0, ih)

pub insert_at-end :
    (rounds : ℕ) (l : EventList) (s : Slot) (a : ℕ)
    → deref l s ≡ none
    → insert_at (suc rounds) l s a ≡ some (assign (assign l s (some a)) (next_of a) none)
unfolding insert_at
insert_at-end rounds l s a h = ground (arith, h)

pub insert_at-before :
    (rounds : ℕ) (l : EventList) (s : Slot) (a b : ℕ)
    → deref l s ≡ some b
    → (l.node a).tv_timeout ≤ (l.node b).tv_timeout
    → insert_at (suc rounds) l s a
      ≡ some (assign (assign l (next_of a) (some b)) (next_of b) (some a))
unfolding insert_at is_later
insert_at-before rounds l s a b h e = ground (arith, h, e)

pub deref-slot_after :
    (events : List ℕ) (l : EventList) (s : Slot) (q : Option ℕ)
    → Leads l.node (deref l s) events q
    → deref l (slot_after s events) ≡ q
unfolding deref
deref-slot_after [] l s q h = h
deref-slot_after (b ∷ events) l s q h = deref-slot_after events l (next_of b) q h.1

pub enough_rounds :
    (events : List ℕ) (rounds : ℕ)
    → length events < rounds
    → (m : ℕ) × (rounds ≡ rounds_for events (suc m))
enough_rounds events rounds h = (
  rounds - (length events + 1),
  ground (arith, h, rounds_for-length events (suc (rounds - (length events + 1)))),
)
