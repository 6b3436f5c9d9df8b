-- ===== src/Proc/Thread.antt =====
-- kernel/src/proc/thread.rs: threads. A thread's saved registers and its stack belong to the context
-- switch, which is assembly, and are left out.
use hyperion_os.Base.{ℕ, ◌+◌, ◌%◌, ◌^◌, [], ◌∷◌}
use hyperion_os.Base.Ord.{Name}
use hyperion_os.Proc.Process.{Pid}

abbrev pub Tid : Type 0
Tid = ℕ

pub data ThreadState : Type 0 where
  ready : ThreadState
  running : ThreadState
  blocked : ThreadState
  exited : ThreadState

pub record Thread : Type 0 where
  pub tid : Tid
  pub name : Name
  pub state : ThreadState
  pub pid : Pid

-- `NEXT_TID.fetch_add(1)`: the identifier, and the counter afterwards.
unfoldable pub alloc_tid : Tid → Tid × Tid
alloc_tid next_tid = (next_tid, (next_tid + 1) % 2 ^ 64)

-- `Thread::new`, with the counter.
unfoldable pub new : Name → Pid → Tid → Thread × Tid
new name pid next_tid =
    let (tid, next) = alloc_tid next_tid in
    (record { tid = tid; name = name; state = ThreadState.ready; pid = pid }, next)

-- The bytes of "boot".
abbrev pub boot_name : Name
boot_name = 98 ∷ 111 ∷ 111 ∷ 116 ∷ []

unfoldable pub boot_thread : Pid → Tid → Thread × Tid
boot_thread pid next_tid =
    let (tid, next) = alloc_tid next_tid in
    (record { tid = tid; name = boot_name; state = ThreadState.running; pid = pid }, next)
