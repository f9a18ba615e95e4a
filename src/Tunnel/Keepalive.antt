-- ===== src/Tunnel/Keepalive.antt =====
-- net_ka.c: the keepalive engine around the ICMP echo engine, whose results it is given. The engine is
-- shared by the thread that runs it and the one that watches it.
pub mod Laws
use gogoc_android.Echo.{
  IeeRet, iee_success, iee_invalid_parms, iee_resource_starvation, iee_connectivity_assessed,
  iee_general_echo_timeout, iee_general_echo_error,
}
use gogoc_android.Prelude.{ℕ, Bool, true, false, Option, none, some, ◌&&◌, if◌then◌else◌}

-- `ka_status_t`
pub data KaStatus : Type 0 where
  stat_invalid stat_ongoing stat_fin_success stat_fin_timeout stat_fin_error : KaStatus

-- `KA_ENGINE_PARMS`; `thread` is whether the keepalive thread was created, and `has_echo_engine`
-- whether `p_echo_engine` is set
pub record KaEngine : Type 0 where
  pub thread : Bool
  pub ka_status : KaStatus
  pub has_echo_engine : Bool

abbrev pub is_iee_success : IeeRet → Bool
is_iee_success iee_success = true
is_iee_success _ = false

-- `*pp_engine`: NULL, an engine, or an engine that has been freed
pub data EnginePointer : Type 0 where
  null freed : EnginePointer
  points_to : KaEngine → EnginePointer

-- `KA_init` on what `*pp_engine` holds: the result, and `*pp_engine` after it. A failure of `IEE_init`
-- frees the engine through a local copy of the pointer.
unfoldable pub ka_init : Bool → IeeRet → EnginePointer → Bool × EnginePointer
ka_init memory iee_ret freed = (false, freed)
ka_init memory iee_ret (points_to engine) = (false, points_to engine)
ka_init memory iee_ret null =
    if memory
    then (if is_iee_success iee_ret
        then (
          true,
          points_to (record { thread = false; ka_status = stat_invalid; has_echo_engine = true }),
        )
        else (false, freed))
    else (false, null)

-- the end of the thread: `_ka_start_thread` on what `IEE_process` returned
unfoldable pub thread_status : IeeRet → KaStatus
thread_status iee_success = stat_fin_success
thread_status iee_general_echo_timeout = stat_fin_timeout
thread_status _ = stat_fin_error

-- `KA_start` up to the creation of the thread
unfoldable pub ka_create_thread : Bool → Option KaEngine → Bool × Option KaEngine
ka_create_thread created none = (false, none)
ka_create_thread created (some engine) =
    if created then (true, some (record engine { thread = true })) else (false, some engine)

-- the rest of `KA_start`
abbrev pub ka_mark_ongoing : KaEngine → KaEngine
ka_mark_ongoing engine = record engine { ka_status = stat_ongoing }

-- the end of the thread
abbrev pub ka_thread_ends : IeeRet → KaEngine → KaEngine
ka_thread_ends iee_ret engine = record engine { ka_status = thread_status iee_ret }

-- `KA_qry_status`
unfoldable pub ka_qry_status : Option KaEngine → KaStatus
ka_qry_status none = stat_invalid
ka_qry_status (some engine) = engine.ka_status

-- `KA_stop`: whether the echo engine could be stopped and the thread joined
unfoldable pub ka_stop : Bool → Bool → Option KaEngine → Bool
ka_stop stopped joined none = false
ka_stop stopped joined (some engine) = engine.has_echo_engine && (stopped && joined)

-- `KA_destroy`
unfoldable pub ka_destroy : Bool → Option KaEngine → Bool × Option KaEngine
ka_destroy destroyed none = (false, none)
ka_destroy destroyed (some engine) =
    if engine.has_echo_engine && destroyed then (true, none) else (false, some engine)

-- Where the two threads stand after the creation of the keepalive thread: whether `KA_start` has set
-- the status, and whether the thread has ended, with which result.
pub record Running : Type 0 where
  pub engine : KaEngine
  pub marked : Bool
  pub ended : Option IeeRet

-- one step of either
pub data Step : Running → Running → Type 0 where
  marks :
      {e : KaEngine} {r : Option IeeRet}
      → Step
          (record { engine = e; marked = false; ended = r })
          (record { engine = ka_mark_ongoing e; marked = true; ended = r })
  ends :
      {e : KaEngine} {m : Bool} (r : IeeRet)
      → Step
          (record { engine = e; marked = m; ended = none })
          (record { engine = ka_thread_ends r e; marked = m; ended = some r })

pub data Steps : Running → Running → Type 0 where
  stay : {s : Running} → Steps s s
  go : {s t u : Running} → Step s t → Steps t u → Steps s u

-- just after `pal_thread_create`
abbrev pub created : KaEngine → Running
created engine = record { engine = engine; marked = false; ended = none }
