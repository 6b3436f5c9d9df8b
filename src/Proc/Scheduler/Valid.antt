-- ===== src/Proc/Scheduler/Valid.antt =====
-- kernel/src/proc/scheduler.rs: the states of the threads, and that no identifier is given twice.
use hyperion_os.Base.{
  ◌+◌, ◌^◌, ◌<◌, ◌≡◌, refl, sym, ap, subst, List, [], ◌∷◌, ◌++◌, Option, none, some, arith, ◌≢◌,
}
use hyperion_os.Base.Ord.{Name}
use hyperion_os.Proc.Process.{Processes, Pid, kernel_pid}
use hyperion_os.Proc.Thread.{Tid, Thread, ThreadState, boot_thread, alloc_tid}
use hyperion_os.Proc.Thread
use hyperion_os.Proc.Scheduler.{
  Sched, spawn, with_state, switch_to, yield_from, yield_now, mark_exited, exit_from, exit_current,
}

-- Every thread of the queue is ready, and its identifier is older than the counter.
abbrev pub Queued : Tid → List Thread → Type 0
Queued next [] = Unit {0}
Queued next (t ∷ ts) = (t.state ≡ ThreadState.ready) × (t.tid < next) × Queued next ts

abbrev pub Unused : Tid → List Thread → Type 0
Unused x [] = Unit {0}
Unused x (t ∷ ts) = (x ≢ t.tid) × Unused x ts

abbrev pub Unique : List Thread → Type 0
Unique [] = Unit {0}
Unique (t ∷ ts) = Unused t.tid ts × Unique ts

-- A thread runs, the others are ready, and their identifiers differ.
pub record IsValid (s : Sched) : Type 0 where
  pub running : Thread
  pub current : s.current ≡ some running
  pub is_running : running.state ≡ ThreadState.running
  pub older : running.tid < s.next_tid
  pub queued : Queued s.next_tid s.ready
  pub unused : Unused running.tid s.ready
  pub unique : Unique s.ready

Queued-append :
    (next : Tid) (ts : List Thread) (t : Thread)
    → Queued next ts
    → t.state ≡ ThreadState.ready
    → t.tid < next
    → Queued next (ts ++ t ∷ [])
Queued-append next [] t q s l = (s, l, tt)
Queued-append next (u ∷ ts) t q s l = (q.0, q.1, Queued-append next ts t q.2 s l)

Queued-next : (next : Tid) (ts : List Thread) → Queued next ts → Queued (next + 1) ts
Queued-next next [] q = tt
Queued-next next (u ∷ ts) q = (q.0, omega (arith, q.1), Queued-next next ts q.2)

Unused-append :
    (x : Tid) (ts : List Thread) (t : Thread) → Unused x ts → x ≢ t.tid → Unused x (ts ++ t ∷ [])
Unused-append x [] t u n = (n, tt)
Unused-append x (v ∷ ts) t u n = (u.0, Unused-append x ts t u.1 n)

Unique-append :
    (ts : List Thread) (t : Thread) → Unique ts → Unused t.tid ts → Unique (ts ++ t ∷ [])
Unique-append [] t q u = (tt, tt)
Unique-append (v ∷ ts) t q u =
    (Unused-append v.tid ts t q.0 (λ e. u.0 (sym e)), Unique-append ts t q.1 u.1)

Queued-Unused : (next : Tid) (ts : List Thread) → Queued next ts → Unused next ts
Queued-Unused next [] q = tt
Queued-Unused next (t ∷ ts) q = ((λ e. absurd (omega (arith, q.1, e))), Queued-Unused next ts q.2)

-- With a kernel process, and the counter plus one below 2^64, `spawn` on a valid scheduler succeeds with
-- the counter's value, which no thread has, as the identifier; the thread is last in the queue, and
-- the scheduler stays valid.
pub spawn-IsValid :
    (name : Name) (ps : Processes) (pid : Pid) (s : Sched)
    → kernel_pid ps ≡ some pid
    → s.next_tid + 1 < 2 ^ 64
    → IsValid s
    → ((p : Sched) × (t : Thread) × (spawn name ps s ≡ some (s.next_tid, p))
        × (p.ready ≡ s.ready ++ t ∷ [])
        × (t.tid ≡ s.next_tid)
        × Unused s.next_tid s.ready
        × IsValid p)
unfolding spawn Thread.new alloc_tid
spawn-IsValid name ps pid s k b v = (
  record s { ready = s.ready ++ t ∷ []; next_tid = s.next_tid + 1 },
  t,
  rw (spawn, k)
      (ap (λ n. some (s.next_tid, record s { ready = s.ready ++ t ∷ []; next_tid = n }))
        (omega (arith, b))),
  refl,
  refl,
  Queued-Unused s.next_tid s.ready v.queued,
  record {
    running = v.running;
    current = v.current;
    is_running = v.is_running;
    older = omega (arith, v.older);
    queued =
        Queued-append (s.next_tid + 1) s.ready t (Queued-next s.next_tid s.ready v.queued) refl
          (omega arith);
    unused =
        Unused-append v.running.tid s.ready t v.unused (λ e. absurd (omega (arith, v.older, e)));
    unique = Unique-append s.ready t v.unique (Queued-Unused s.next_tid s.ready v.queued);
  },
)
  where
    t : Thread
    t = record { tid = s.next_tid; name = name; state = ThreadState.ready; pid = pid }

-- What a valid state becomes.
abbrev pub Stays : Option (Option (Tid × Tid) × Sched) → Type 0
Stays r = (a : Option (Tid × Tid)) × (p : Sched) × (r ≡ some (a, p)) × IsValid p

yield_from-IsValid :
    (s : Sched) (ready : List Thread) → s.ready ≡ ready → IsValid s → Stays (yield_from ready s)
unfolding yield_from switch_to
yield_from-IsValid s [] e v = (
  none,
  _,
  refl,
  record {
    running = v.running;
    current = v.current;
    is_running = v.is_running;
    older = v.older;
    queued = v.queued;
    unused = v.unused;
    unique = v.unique;
  },
)
yield_from-IsValid s (next ∷ rest) e v =
    subst (λ c. Stays (switch_to c next rest s)) (sym v.current)
      (
        _,
        _,
        refl,
        record {
          running = with_state ThreadState.running next;
          current = refl;
          is_running = refl;
          older = q.1;
          queued = Queued-append s.next_tid rest _ q.2 refl v.older;
          unused = Unused-append next.tid rest _ u.0 (λ h. n.0 (sym h));
          unique = Unique-append rest _ u.1 n.1;
        },
      )
  where
    q : Queued s.next_tid (next ∷ rest)
    q = subst (Queued s.next_tid) e v.queued

    u : Unique (next ∷ rest)
    u = subst Unique e v.unique

    n : Unused v.running.tid (next ∷ rest)
    n = subst (Unused v.running.tid) e v.unused

-- A valid scheduler yields without a panic, and stays valid: exactly the running thread is marked as
-- running, and no identifier occurs twice.
pub yield_now-IsValid : (s : Sched) → IsValid s → Stays (yield_now s)
unfolding yield_now
yield_now-IsValid s v = yield_from-IsValid s s.ready refl v

-- In a valid scheduler with a ready thread, the exit of the running thread runs the first of the queue,
-- and the scheduler stays valid, without the thread that has exited.
pub exit_current-IsValid :
    (s : Sched) (t : Thread) (ts : List Thread)
    → (v : IsValid s) → s.ready ≡ t ∷ ts
    → ((p : Sched) × (exit_current s ≡ some (t.tid, p))
        × (p.ready ≡ ts)
        × Unused v.running.tid (t ∷ ts)
        × IsValid p)
unfolding exit_current exit_from mark_exited
exit_current-IsValid s t ts v e = (
  record s { current = some (with_state ThreadState.running t); ready = ts },
  rw e refl,
  refl,
  subst (Unused v.running.tid) e v.unused,
  record {
    running = with_state ThreadState.running t;
    current = refl;
    is_running = refl;
    older = q.1;
    queued = q.2;
    unused = u.0;
    unique = u.1;
  },
)
  where
    q : Queued s.next_tid (t ∷ ts)
    q = subst (Queued s.next_tid) e v.queued

    u : Unique (t ∷ ts)
    u = subst Unique e v.unique
