-- ===== src/Echo/Events/Laws.antt =====
-- What the insertion of an echo event makes of a list of earlier ones.
use gogoc_android.Prelude.{
  ℕ, suc, ◌<◌, ◌≡◌, ◌≢◌, refl, sym, ap, ◌∙◌, List, [], ◌∷◌, ◌++◌, none, some, All, length,
}
use mathlib.Core.Path.{subst}
use gogoc_android.Echo.Events.{
  EventList, Slot, head, next_of, deref, update, assign, insert_at, insert_echo_event,
}
use gogoc_android.Echo.Events.Leads.{
  SameFields, assign-SameFields, slot_after, Leads, AllDistinct, update_same, Leads-update, last_of,
  slot_after-last_of, Leads-last_of, Leads-snoc,
}
use gogoc_android.Echo.Events.Insertion.{
  IsEarlier, insert_at-passes, insert_at-end, deref-slot_after, enough_rounds,
}

-- the list with `a` put into the slot
abbrev appended : EventList → ℕ → Slot → EventList
appended l a s = assign (assign l s (some a)) (next_of a) none

abbrev LeadsAppended : EventList → ℕ → List ℕ → Slot → Type 0
LeadsAppended l a events s =
    Leads (appended l a s).node (appended l a s).event_list (events ++ (a ∷ [])) none

appended-Leads :
    (l : EventList) (a : ℕ) (events : List ℕ)
    → Leads l.node l.event_list events none
    → AllDistinct events
    → All (λ b. b ≢ a) events
    → LeadsAppended l a events (slot_after head events)
unfolding assign
appended-Leads l a [] h d n = (refl, update_same l.node a none)
appended-Leads l a (b ∷ events) h d n =
    let node = update l.node (last_of b events) (some a) in
    subst (LeadsAppended l a (b ∷ events)) (sym (slot_after-last_of b events)) (
      Leads-snoc (b ∷ events) (update node a none) a l.event_list
        (Leads-update (b ∷ events) node a l.event_list (some a) none n
          (Leads-last_of b events l.node l.event_list none (some a) d h))
        (update_same node a none))

-- In a list that ends and has no event twice: an event that is due later than all of it, and is not in
-- it, comes last in the list; every event keeps its number and time.
pub insert_last :
    (l : EventList) (a : ℕ) (events : List ℕ) (rounds : ℕ)
    → Leads l.node l.event_list events none
    → AllDistinct events
    → All (λ b. b ≢ a) events
    → All (IsEarlier l a) events
    → length events < rounds
    → (l' : EventList) × (insert_echo_event rounds l a ≡ some l')
      × Leads l'.node l'.event_list (events ++ (a ∷ [])) none
      × ((b : ℕ) → SameFields (l.node b) (l'.node b))
unfolding deref
insert_last l a events rounds h d n e r =
    let (m, k) = enough_rounds events rounds r in
    (
      appended l a (slot_after head events),
      ap (λ x. insert_at x l head a) k
          ∙ (insert_at-passes events (suc m) l head a none h e
              ∙ insert_at-end m l (slot_after head events) a
                  (deref-slot_after events l head none h)),
      appended-Leads l a events h d n,
      λ b.
          let put = assign l (slot_after head events) (some a) in
          let (seq1, due1) = assign-SameFields l (slot_after head events) (some a) b in
          let (seq2, due2) = assign-SameFields put (next_of a) none b in (seq2 ∙ seq1, due2 ∙ due1),
    )
