-- ===== src/Syscall/Tests.antt =====
-- kernel/src/syscall/mod.rs: calls of a kernel with a console.
use hyperion_os.Base.{◌≡◌, refl, [], ◌∷◌, none, true, false, ◌^◌, ◌-◌}
use hyperion_os.Proc.Scheduler.{yield_now, yield_from, exit_current, exit_from, mark_exited}
use hyperion_os.Syscall.{
  Kernel, Timer, Outcome, dispatch, run_call, try_from, sys_putchar, sys_getchar, sys_uptime,
  sys_yield, sys_exit,
}

abbrev kernel : Kernel
kernel = record {
  sched = record { current = none; ready = []; need_resched = true; next_tid = 1 };
  has_console = true;
  output = [];
  input = 65 ∷ [];
}

abbrev timer : Timer
timer = record { freq = 100; count = 250 }

printed :
    dispatch 2 (321 ∷ []) timer kernel ≡ Outcome.returns 0 (record kernel { output = 65 ∷ [] })
unfolding dispatch run_call try_from sys_putchar
printed = refl

typed : dispatch 3 [] timer kernel ≡ Outcome.returns 65 (record kernel { input = [] })
unfolding dispatch run_call try_from sys_getchar
typed = refl

up : dispatch 4 [] timer kernel ≡ Outcome.returns 2500 kernel
unfolding dispatch run_call try_from sys_uptime
up = refl

unknown : dispatch 7 [] timer kernel ≡ Outcome.returns (2 ^ 64 - 1) kernel
unfolding dispatch run_call try_from
unknown = refl

yielded :
    dispatch 0 [] timer kernel
    ≡ Outcome.returns 0 (record kernel { sched = record kernel.sched { need_resched = false } })
unfolding dispatch run_call try_from sys_yield yield_now yield_from
yielded = refl

last_exit : dispatch 1 [] timer kernel ≡ Outcome.panics
unfolding dispatch run_call try_from sys_exit exit_current exit_from mark_exited
last_exit = refl
