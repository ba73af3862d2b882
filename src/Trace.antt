-- ===== src/Trace.antt =====
-- Event recording of src/trace.c, and the two ways in which the other files use it: writing an event
-- of the current step, and raising a failure.
use chibios_smash.Base.{ℕ, ◌+◌, ℤ, true, false, some, leb, if◌then◌else◌, update}
use chibios_smash.Types.{max_trace, EventType, Event, Trace, Failure, Engine}

unfoldable pub trace_init : Trace → Trace
trace_init t = record t { count = 0; schedule_len = 0; truncated = false }

unfoldable pub trace_log : Trace → ℕ → EventType → ℤ → ℤ → ℤ → Trace
trace_log t step type tid res arg =
    if leb max_trace t.count
    then record t { truncated = true }
    else record t { events = update t.events t.count event; count = t.count + 1 }
  where
    event : Event
    event = record { step = step; type = type; tid = tid; resource_id = res; arg = arg }

-- `smash_trace_log(&engine->trace, engine->step_counter, type, tid, res, arg)`
abbrev pub log : Engine → EventType → ℤ → ℤ → ℤ → Engine
log e type tid res arg = record e { trace = trace_log e.trace e.step_counter type tid res arg }

-- `engine->failed = true;` with the text of the failure
abbrev pub fail : Engine → Failure → Engine
fail e f = record e { fail_msg = some f }
