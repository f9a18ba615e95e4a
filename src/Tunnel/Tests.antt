-- ===== src/Tunnel/Tests.antt =====
-- Keepalives and tunnel loops at concrete inputs.
use gogoc_android.Prelude.{◌≡◌, ◌⊎◌, inl, inr, refl, true, false, [], ◌∷◌, ◌++◌, some, List, arith}
use gogoc_android.Status.{GogocStatus}
use gogoc_android.Echo.{iee_general_echo_timeout}
use gogoc_android.Tunnel.Keepalive.{
  KaEngine, KaStatus, stat_ongoing, stat_invalid, stat_fin_timeout, thread_status, ka_mark_ongoing,
  ka_thread_ends, Running, Steps, created,
}
use gogoc_android.Tunnel.Keepalive.Laws.{ka_result_or_lost}
use gogoc_android.Tunnel.Loop.{LoopConfig, Round, Call, calls_ka_destroy, perform_tunnel_loop}
use gogoc_android.Tunnel.Loop.Laws.{Stops, Gives, tunnel_loop_ends}

abbrev engine : KaEngine
engine = record { thread = true; ka_status = stat_invalid; has_echo_engine = true }

ka_result_or_lost_example :
    ((s : Running)
      → Steps (created engine) s
      → s.ended ≡ some iee_general_echo_timeout
      → (s.engine.ka_status ≡ thread_status iee_general_echo_timeout)
        ⊎ (s.engine.ka_status ≡ stat_ongoing))
    × Steps (created engine) (record {
      engine = ka_thread_ends iee_general_echo_timeout (ka_mark_ongoing engine);
      marked = true;
      ended = some iee_general_echo_timeout;
    })
    × Steps (created engine) (record {
      engine = ka_mark_ongoing (ka_thread_ends iee_general_echo_timeout engine);
      marked = true;
      ended = some iee_general_echo_timeout;
    })
ka_result_or_lost_example = ka_result_or_lost engine iee_general_echo_timeout

abbrev half_minute : LoopConfig
half_minute = record { ka_interval = 30; tun_lifetime = 3600 }

abbrev round_at : KaStatus → Round
round_at s = record { stop = false; ka_status = s; now = 1200 }

tunnel_loop_ends_example :
    (status : GogocStatus) × (calls : List Call) × (perform_tunnel_loop half_minute 1000 true true
        ((round_at stat_ongoing ∷ []) ++ (round_at stat_fin_timeout ∷ []))
      ≡ some (status, calls ++ (calls_ka_destroy ∷ [])))
    × Gives half_minute 1000 (round_at stat_fin_timeout) status.1
    × Stops (round_at stat_fin_timeout) calls
tunnel_loop_ends_example =
    tunnel_loop_ends half_minute 1000 (round_at stat_ongoing ∷ []) (round_at stat_fin_timeout) []
      (ground arith) ((refl, inl refl, inr (ground arith)), tt)
      (λ q.
        let (_, a, _) = q in
        elim a [ inl b ↦ absurd (ground (arith, b)) | inr b ↦ absurd (ground (arith, b)) ])
