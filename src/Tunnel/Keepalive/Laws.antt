-- ===== src/Tunnel/Keepalive/Laws.antt =====
-- What the status of the keepalive says of its thread.
use gogoc_android.Prelude.{◌≡◌, ◌⊎◌, inl, inr, refl, true, none, some, arith}
use gogoc_android.Tunnel.Keepalive.{
  IeeRet, stat_ongoing, KaEngine, thread_status, ka_mark_ongoing, ka_thread_ends, Running, Step,
  marks, ends, Steps, stay, go, created,
}

-- What holds of the status as the two threads go on.
abbrev pub IsConsistent : Running → Type 0
IsConsistent s =
    (s.marked ≡ true → s.ended ≡ none → s.engine.ka_status ≡ stat_ongoing)
    × ((r : IeeRet)
        → s.ended ≡ some r
        → (s.engine.ka_status ≡ thread_status r)
          ⊎ ((s.marked ≡ true) × (s.engine.ka_status ≡ stat_ongoing)))

Step-IsConsistent : {s t : Running} → Step s t → IsConsistent s → IsConsistent t
Step-IsConsistent marks (h, k) = (λ m e. refl, λ r e. inr (refl, refl))
Step-IsConsistent (ends r) (h, k) =
    (λ m e. absurd (ground (arith, e)), λ r' e. inl (ground (arith, e)))

Steps-IsConsistent : {s t : Running} → Steps s t → IsConsistent s → IsConsistent t
Steps-IsConsistent stay h = h
Steps-IsConsistent (go step steps) h = Steps-IsConsistent steps (Step-IsConsistent step h)

-- Once the thread has ended and `KA_start` has returned, the status is the one of the thread's result,
-- or ONGOING; which of the two depends on which thread came first, and both happen: if the thread
-- ends before `KA_start` sets the status, its result is lost.
pub ka_result_or_lost :
    (e : KaEngine) (r : IeeRet)
    → ((s : Running)
        → Steps (created e) s
        → s.ended ≡ some r
        → (s.engine.ka_status ≡ thread_status r) ⊎ (s.engine.ka_status ≡ stat_ongoing))
      × Steps
          (created e)
          (record { engine = ka_thread_ends r (ka_mark_ongoing e); marked = true; ended = some r })
      × Steps
          (created e)
          (record { engine = ka_mark_ongoing (ka_thread_ends r e); marked = true; ended = some r })
ka_result_or_lost e r = (
  λ s steps h.
      let (_, k) =
        Steps-IsConsistent steps
          (λ m _. absurd (ground (arith, m)), λ r' h'. absurd (ground (arith, h'))) in
      ground (arith, k r h),
  go marks (go (ends r) stay),
  go (ends r) (go marks stay),
)
