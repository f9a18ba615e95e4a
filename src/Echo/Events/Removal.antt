-- ===== src/Echo/Events/Removal.antt =====
-- What `_remove_free_echo_event` makes of the list.
use gogoc_android.Prelude.{
  false, ℕ, suc, ◌<◌, ◌≡◌, ◌≢◌, refl, sym, ap, ◌∙◌, true, List, [], ◌∷◌, ◌++◌, Option, none, some,
  All, length, arith,
}
use mathlib.Core.Path.{subst}
use gogoc_android.Echo.Events.{
  EchoEvent, EventList, Slot, head, next_of, deref, update, assign, remove_at,
  remove_free_echo_event,
}
use gogoc_android.Echo.Events.Leads.{
  SameFields, assign-SameFields, slot_after, Leads, AllDistinct, Leads-update, last_of, last_of-All,
  slot_after-last_of, Leads-last_of,
}
use gogoc_android.Echo.Events.Insertion.{deref-slot_after, rounds_for, enough_rounds}

-- not the event searched
abbrev pub IsOther : EventList → ℕ → ℕ → Type 0
IsOther l echo_seq c = (l.node c).echo_seq ≢ echo_seq

remove_at-passes :
    (events : List ℕ) (rounds : ℕ) (l : EventList) (s : Slot) (echo_seq : ℕ) (q : Option ℕ)
    → Leads l.node (deref l s) events q
    → All (IsOther l echo_seq) events
    → remove_at (rounds_for events rounds) l s echo_seq
      ≡ remove_at rounds l (slot_after s events) echo_seq
unfolding remove_at deref
remove_at-passes [] rounds l s echo_seq q h e = refl
remove_at-passes (b ∷ events) rounds l s echo_seq q h e =
    ground (arith, h.0, e.0, remove_at-passes events rounds l (next_of b) echo_seq q h.1 e.1)

remove_at-finds :
    (rounds : ℕ) (l : EventList) (s : Slot) (echo_seq b : ℕ)
    → deref l s ≡ some b
    → (l.node b).echo_seq ≡ echo_seq
    → remove_at (suc rounds) l s echo_seq ≡ some (true, assign l s (l.node b).next)
unfolding remove_at
remove_at-finds rounds l s echo_seq b h e = ground (arith, h, e)

remove_at-ends :
    (rounds : ℕ) (l : EventList) (s : Slot) (echo_seq : ℕ)
    → deref l s ≡ none
    → remove_at (suc rounds) l s echo_seq ≡ some (false, l)
unfolding remove_at
remove_at-ends rounds l s echo_seq h = ground (arith, h)

Leads-++ :
    (events further : List ℕ) (node : ℕ → EchoEvent) (p q r : Option ℕ)
    → Leads node p events q
    → Leads node q further r
    → Leads node p (events ++ further) r
Leads-++ [] further node p q r h k = subst (λ x. Leads node x further r) (sym h) k
Leads-++ (b ∷ events) further node p q r h k =
    (h.0, Leads-++ events further node (node b).next q r h.1 k)

-- the list after the removal at a slot
abbrev LeadsRemoved : EventList → Option ℕ → List ℕ → Slot → Type 0
LeadsRemoved l q events s = Leads (assign l s q).node (assign l s q).event_list events none

removed-Leads :
    (l : EventList) (b : ℕ) (before after : List ℕ)
    → Leads l.node l.event_list before (some b)
    → Leads l.node (l.node b).next after none
    → AllDistinct before
    → All (λ c. All (λ d. d ≢ c) after) before
    → LeadsRemoved l (l.node b).next (before ++ after) (slot_after head before)
unfolding assign
removed-Leads l b [] after h k d n = k
removed-Leads l b (c ∷ before) after h k d n =
    let q = (l.node b).next in
    subst (LeadsRemoved l q (c ∷ before ++ after)) (sym (slot_after-last_of c before)) (
      Leads-++ (c ∷ before) after (update l.node (last_of c before) q) l.event_list q none
        (Leads-last_of c before l.node l.event_list (some b) q d h)
        (Leads-update after l.node (last_of c before) q none q
          (last_of-All (λ x. All (λ y. y ≢ x) after) c before n) k))

-- In a list that ends and has no event twice before the one searched, nor one of those after it: the
-- first event with a sequence number is found and taken out of the list; the others stay in their
-- order, and every event keeps its number and time.
pub remove_found :
    (l : EventList) (b : ℕ) (before after : List ℕ) (rounds : ℕ)
    → Leads l.node l.event_list before (some b)
    → Leads l.node (l.node b).next after none
    → AllDistinct before
    → All (λ c. All (λ d. d ≢ c) after) before
    → All (IsOther l (l.node b).echo_seq) before
    → length before < rounds
    → (l' : EventList) × (remove_free_echo_event rounds l (l.node b).echo_seq ≡ some (true, l'))
      × Leads l'.node l'.event_list (before ++ after) none
      × ((c : ℕ) → SameFields (l.node c) (l'.node c))
unfolding deref
remove_found l b before after rounds h k d n o r =
    let (m, e) = enough_rounds before rounds r in
    let echo_seq = (l.node b).echo_seq in
    (
      assign l (slot_after head before) (l.node b).next,
      ap (λ x. remove_at x l head echo_seq) e
          ∙ (remove_at-passes before (suc m) l head echo_seq (some b) h o
              ∙ remove_at-finds m l (slot_after head before) echo_seq b
                  (deref-slot_after before l head (some b) h) refl),
      removed-Leads l b before after h k d n,
      assign-SameFields l (slot_after head before) (l.node b).next,
    )

-- In a list that ends and has no event with the number: the search ends, and changes nothing.
pub remove_absent :
    (l : EventList) (echo_seq : ℕ) (events : List ℕ) (rounds : ℕ)
    → Leads l.node l.event_list events none
    → All (IsOther l echo_seq) events
    → length events < rounds
    → remove_free_echo_event rounds l echo_seq ≡ some (false, l)
unfolding deref
remove_absent l echo_seq events rounds h o r =
    let (m, e) = enough_rounds events rounds r in
    ap (λ x. remove_at x l head echo_seq) e
    ∙ (remove_at-passes events (suc m) l head echo_seq none h o
        ∙ remove_at-ends m l (slot_after head events) echo_seq
            (deref-slot_after events l head none h))
