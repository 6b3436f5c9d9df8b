-- ===== src/Proc/Scheduler.antt =====
-- kernel/src/proc/scheduler.rs: the round-robin scheduler, with the counter of thread.rs. A call
-- that switches contexts returns the threads it switches between; `none` for the whole result is
-- the panic of `expect`.
pub mod Rotation
pub mod Valid
mod Tests
use hyperion_os.Base.{ℕ, List, [], ◌∷◌, ◌++◌, map, Option, none, some, Bool, true, false}
use hyperion_os.Base.Ord.{Name}
use hyperion_os.Proc.Process.{Processes, kernel_pid}
use hyperion_os.Proc.Thread.{Tid, Thread, ThreadState, boot_thread}
use hyperion_os.Proc.Thread

pub record Sched : Type 0 where
  pub current : Option Thread
  pub ready : List Thread
  pub need_resched : Bool
  pub next_tid : Tid

pub new : Sched
new = record { current = none; ready = []; need_resched = false; next_tid = 1 }

pub init : Processes → Sched → Option Sched
init ps s = elim (kernel_pid ps) [
  | none ↦ none
  | some pid ↦
      let (t, next) = boot_thread pid s.next_tid in
      some (record s { current = some t; next_tid = next })
]

pub spawn : Name → Processes → Sched → Option (Tid × Sched)
spawn name ps s = elim (kernel_pid ps) [
  | none ↦ none
  | some pid ↦
      let (t, next) = Thread.new name pid s.next_tid in
      some (t.tid, record s { ready = s.ready ++ t ∷ []; next_tid = next })
]

pub on_tick : Sched → Sched
on_tick s = record s { need_resched = true }

abbrev pub with_state : ThreadState → Thread → Thread
with_state st t = record t { state = st }

-- The ready thread `next` runs in the place of the current one, which goes to the back.
pub switch_to : Option Thread → Thread → List Thread → Sched → Option (Option (Tid × Tid) × Sched)
switch_to none next rest s = none
switch_to (some current) next rest s = some (
  some (current.tid, next.tid),
  record s {
    current = some (with_state ThreadState.running next);
    ready = rest ++ with_state ThreadState.ready current ∷ [];
    need_resched = false;
  },
)

unfoldable pub yield_from : List Thread → Sched → Option (Option (Tid × Tid) × Sched)
yield_from [] s = some (none, record s { need_resched = false })
yield_from (next ∷ rest) s = switch_to s.current next rest s

unfoldable pub yield_now : Sched → Option (Option (Tid × Tid) × Sched)
yield_now s = yield_from s.ready s

-- A round of the loop of `run`; `arch::idle` changes no state.
pub run_round : Sched → Option (Option (Tid × Tid) × Sched)
run_round s = elim s.ready [ [] ↦ some (none, s) | t ∷ ts ↦ yield_now s ]

-- The current thread is marked as exited and dropped by the assignment of the next; the result is
-- the thread that runs next.
unfoldable pub exit_from : List Thread → Sched → Option (Tid × Sched)
exit_from [] s = none
exit_from (next ∷ rest) s =
    some (next.tid, record s { current = some (with_state ThreadState.running next); ready = rest })

unfoldable pub mark_exited : Sched → Sched
mark_exited s = record s {
  current = elim s.current [ none ↦ none | some t ↦ some (with_state ThreadState.exited t) ];
}

unfoldable pub exit_current : Sched → Option (Tid × Sched)
exit_current s = exit_from (mark_exited s).ready (mark_exited s)

abbrev pub info : Thread → Tid × Name × ThreadState
info t = (t.tid, t.name, t.state)

pub snapshot : Sched → List (Tid × Name × ThreadState)
snapshot s = elim s.current [ none ↦ map info s.ready | some c ↦ info c ∷ map info s.ready ]
