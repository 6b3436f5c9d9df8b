-- ===== src/Syscall.antt =====
-- libos-api/src/syscall.rs and kernel/src/syscall/mod.rs: the numbers of the system calls and their
-- dispatch. A call works on the scheduler and on the console, whose bytes are two lists; the timer of
-- the machine is an argument.
mod Tests
use hyperion_os.Base.{
  ℕ, ◌-◌, ◌*◌, ◌/◌, ◌%◌, ◌^◌, ◌≡◌, List, [], ◌∷◌, ◌++◌, Option, none, some, Bool, true, false, ◌==◌,
  ltb, if◌then◌else◌, get_or, min, arith,
}
use hyperion_os.Proc.Thread.{Tid}
use hyperion_os.Proc.Scheduler.{Sched, yield_now, exit_current}

pub data SyscallNr : Type 0 where
  yield exit put_char get_char uptime reboot shutdown : SyscallNr

-- `nr as u64`.
pub number : SyscallNr → ℕ
number yield = 0
number exit = 1
number put_char = 2
number get_char = 3
number uptime = 4
number reboot = 5
number shutdown = 6

pub try_from : ℕ → Option SyscallNr
try_from v =
    if v == 0
    then some yield
    else if v == 1
    then some exit
    else if v == 2
    then some put_char
    else if v == 3
    then some get_char
    else if v == 4
    then some uptime
    else if v == 5
    then some reboot
    else if v == 6
    then some shutdown
    else none

pub record Kernel : Type 0 where
  pub sched : Sched
  pub has_console : Bool
  pub output : List ℕ
  pub input : List ℕ

pub record Timer : Type 0 where
  pub freq : ℕ
  pub count : ℕ

-- How a call ends: it returns an `i64`, as its 64 bits; the thread is gone; the machine is reset or
-- off; the call still waits for a byte; or it panics.
pub data Outcome : Type 0 where
  returns : ℕ → Kernel → Outcome
  leaves : Kernel → Outcome
  resets : Outcome
  powers_off : Outcome
  waits : Outcome
  panics : Outcome

pub sys_yield : Kernel → Outcome
sys_yield k = elim (yield_now k.sched) [
  | none ↦ panics
  | some r ↦ returns 0 (record k { sched = r.1 })
]

pub sys_exit : Kernel → Outcome
sys_exit k = elim (exit_current k.sched) [
  | none ↦ panics
  | some r ↦ leaves (record k { sched = r.1 })
]

pub sys_putchar : ℕ → Kernel → Outcome
sys_putchar b k = returns 0 (if k.has_console then record k { output = k.output ++ b ∷ [] } else k)

pub sys_getchar : Kernel → Outcome
sys_getchar k =
    if k.has_console
    then elim k.input [ [] ↦ waits | b ∷ rest ↦ returns b (record k { input = rest }) ]
    else waits

pub sys_uptime : Timer → Kernel → Outcome
sys_uptime t k =
    if t.freq == 0 then returns 0 k else returns (min (t.count * 1000) (2 ^ 64 - 1) / t.freq) k

-- -1 is the error of an unknown number.
pub run_call : Option SyscallNr → List ℕ → Timer → Kernel → Outcome
run_call (some yield) args t k = sys_yield k
run_call (some exit) args t k = sys_exit k
run_call (some put_char) args t k = sys_putchar (get_or args 0 0 % 256) k
run_call (some get_char) args t k = sys_getchar k
run_call (some uptime) args t k = sys_uptime t k
run_call (some reboot) args t k = resets
run_call (some shutdown) args t k = powers_off
run_call none args t k = returns (2 ^ 64 - 1) k

pub dispatch : ℕ → List ℕ → Timer → Kernel → Outcome
dispatch nr args t k = run_call (try_from nr) args t k

-- The numbers below 7 are those of the calls, each of its own, and the others are no call's.
pub try_from-number :
    (v : ℕ)
    → elim (try_from v) [ none ↦ none | some n ↦ some (number n) ]
      ≡ (if ltb v 7 then some v else none)
unfolding try_from number
try_from-number v = ground arith
