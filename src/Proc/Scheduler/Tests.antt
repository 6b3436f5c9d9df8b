-- ===== src/Proc/Scheduler/Tests.antt =====
-- kernel/src/proc/scheduler.rs: the theorems at three threads.
use hyperion_os.Base.{none}
use hyperion_os.Proc.Process
use hyperion_os.Proc.Thread.{boot_thread, alloc_tid}
use hyperion_os.Proc.Scheduler.{on_tick, run_round}
use hyperion_os.Base.{◌≡◌, refl, some, [], ◌∷◌, ◌++◌, true, arith, length}
use hyperion_os.Base.Ord.{nat_ord}
use hyperion_os.Base.BTreeMap
use hyperion_os.Proc.Process.{Processes, kernel_pid, init, boot, new_kernel, alloc_pid}
use hyperion_os.Proc.Thread.{Tid, Thread, ThreadState}
use hyperion_os.Proc.Scheduler.{Sched, spawn, yield_now, exit_current, snapshot}
use hyperion_os.Proc.Scheduler.Rotation.{tids, yields, yields_turn, yields_round}
use hyperion_os.Proc.Scheduler.Valid.{
  IsValid, Unused, Stays, spawn-IsValid, yield_now-IsValid, exit_current-IsValid,
}

abbrev thread : Tid → ThreadState → Thread
thread tid state = record { tid = tid; name = []; state = state; pid = 1 }

abbrev three : Sched
three = record {
  current = some (thread 1 ThreadState.running);
  ready = thread 2 ThreadState.ready ∷ thread 3 ThreadState.ready ∷ [];
  need_resched = true;
  next_tid = 4;
}

three-IsValid : IsValid three
three-IsValid = record {
  running = thread 1 ThreadState.running;
  current = refl;
  is_running = refl;
  older = omega arith;
  queued = (refl, omega arith, (refl, omega arith, tt));
  unused = ((λ e. absurd (omega (arith, e))), ((λ e. absurd (omega (arith, e))), tt));
  unique = (((λ e. absurd (omega (arith, e))), tt), (tt, tt));
}

abbrev processes : Processes
processes = init boot

has_kernel : kernel_pid processes ≡ some 1
unfolding kernel_pid init boot new_kernel alloc_pid BTreeMap.insert
has_kernel = refl

spawn-IsValid_example :
    (p : Sched) × (t : Thread) × (spawn [] processes three ≡ some (4, p))
    × (p.ready ≡ three.ready ++ t ∷ [])
    × (t.tid ≡ 4)
    × Unused 4 three.ready
    × IsValid p
spawn-IsValid_example = spawn-IsValid [] processes 1 three has_kernel (omega arith) three-IsValid

yield_now-IsValid_example : Stays (yield_now three)
yield_now-IsValid_example = yield_now-IsValid three three-IsValid

exit_current-IsValid_example :
    (p : Sched) × (exit_current three ≡ some (2, p))
    × (p.ready ≡ thread 3 ThreadState.ready ∷ [])
    × Unused three-IsValid.running.tid three.ready
    × IsValid p
exit_current-IsValid_example =
    exit_current-IsValid three (thread 2 ThreadState.ready) (thread 3 ThreadState.ready ∷ [])
      three-IsValid refl

order : tids three ≡ (1 ∷ 2 ∷ []) ++ 3 ∷ []
unfolding tids snapshot
order = refl

yields_turn_example :
    (p : Sched) × (d : Thread) × (yields 2 three ≡ some p)
    × (p.current ≡ some d)
    × (d.tid ≡ 3)
    × (tids p ≡ 3 ∷ 1 ∷ 2 ∷ [])
yields_turn_example = yields_turn three (thread 1 ThreadState.running) (1 ∷ 2 ∷ []) 3 [] refl order

yields_round_example :
    (p : Sched) × (d : Thread) × (yields (length (tids three)) three ≡ some p)
    × (p.current ≡ some d)
    × (tids p ≡ tids three)
yields_round_example = yields_round three (thread 1 ThreadState.running) refl

ticked : (on_tick three).need_resched ≡ true
unfolding on_tick
ticked = refl

idle_round : run_round (record three { ready = [] }) ≡ some (none, record three { ready = [] })
unfolding run_round
idle_round = refl

booted : (boot_thread 1 1).0.tid ≡ 1
unfolding boot_thread alloc_tid
booted = refl

listed : length (Process.list processes) ≡ 1
unfolding Process.list init boot new_kernel alloc_pid BTreeMap.insert
listed = refl
