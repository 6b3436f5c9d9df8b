-- ===== src/Proc/Scheduler/Rotation.antt =====
-- kernel/src/proc/scheduler.rs: the order in which the threads run.
use hyperion_os.Base.{
  ℕ, zero, suc, ◌≡◌, refl, sym, ap, ◌∙◌, List, [], ◌∷◌, ◌++◌, map, Option, none, some, false,
  length,
}
use mathlib.Core.List.{append-nil, append_assoc}
use hyperion_os.Proc.Thread.{Tid, Thread, ThreadState}
use hyperion_os.Proc.Scheduler.{Sched, with_state, switch_to, yield_from, yield_now, snapshot, info}

-- The threads' identifiers, the running one first, in the order of the snapshot.
unfoldable pub tids : Sched → List Tid
tids s = map (λ e. e.0) (snapshot s)

-- One turn: the first goes to the back.
abbrev pub rotate {ℓ} : {A : Type ℓ} → List A → List A
rotate [] = []
rotate (x ∷ xs) = xs ++ x ∷ []

abbrev pub rotate_by {ℓ} : {A : Type ℓ} → ℕ → List A → List A
rotate_by zero xs = xs
rotate_by (suc n) xs = rotate_by n (rotate xs)

abbrev first : List Tid → Tid
first [] = 0
first (t ∷ ts) = t

-- Calls of `yield_now`, one after the other; `none` is a panic.
pub yields : ℕ → Sched → Option Sched
yields zero s = some s
yields (suc n) s = elim (yield_now s) [ none ↦ none | some r ↦ yields n r.1 ]

tids-append :
    (xs : List Thread) (t : Thread) (st : ThreadState)
    → map (λ (e : Tid × List ℕ × ThreadState). e.0) (map info (xs ++ with_state st t ∷ []))
      ≡ map (λ (e : Tid × List ℕ × ThreadState). e.0) (map info xs) ++ t.tid ∷ []
tids-append [] t st = refl
tids-append (x ∷ xs) t st = ap (◌∷◌ x.tid) (tids-append xs t st)

-- The current thread, in a state where there is one.
Turned : List Tid → Option (Option (Tid × Tid) × Sched) → Type 0
Turned ts r =
    (sw : Option (Tid × Tid)) × (p : Sched) × (d : Thread) × (r ≡ some (sw, p))
    × (p.current ≡ some d)
    × (tids p ≡ ts)

yield_from_lem :
    (s : Sched) (c : Thread) (ready : List Thread)
    → s.current ≡ some c
    → s.ready ≡ ready
    → Turned (rotate (tids s)) (yield_from ready s)
unfolding Turned yield_from switch_to tids snapshot
yield_from_lem s c [] e h = (none, record s { need_resched = false }, c, refl, e, rw (e, h) refl)
yield_from_lem s c (next ∷ rest) e h =
    rw (e, h) (_, _, _, refl, refl, ap (◌∷◌ next.tid) (tids-append rest c ThreadState.ready))

yield_now_lem :
    (s : Sched) (c : Thread) → s.current ≡ some c → Turned (rotate (tids s)) (yield_now s)
unfolding yield_now
yield_now_lem s c e = yield_from_lem s c s.ready e refl

-- After some yields a thread runs, and the threads stand as `ts`.
Yielded : List Tid → Option Sched → Type 0
Yielded ts r = (p : Sched) × (d : Thread) × (r ≡ some p) × (p.current ≡ some d) × (tids p ≡ ts)

yields_next :
    (n : ℕ) (s : Sched)
    → ((p : Sched) (d : Thread) → p.current ≡ some d → Yielded (rotate_by n (tids p)) (yields n p))
    → Turned (rotate (tids s)) (yield_now s)
    → Yielded (rotate_by (suc n) (tids s)) (yields (suc n) s)
unfolding yields Turned Yielded
yields_next n s rest (sw, p, d, y, r, t) = go (rest p d r)
  where
    go :
        Yielded (rotate_by n (tids p)) (yields n p)
        → Yielded (rotate_by (suc n) (tids s)) (yields (suc n) s)
    go (p', d', y', r', t') = (
      p',
      d',
      ap (λ o. elim o [ none ↦ none | some r ↦ yields n r.1 ]) y ∙ y',
      r',
      t' ∙ ap (rotate_by n) t,
    )

yields-Yielded :
    (n : ℕ) (s : Sched) (c : Thread)
    → s.current ≡ some c
    → Yielded (rotate_by n (tids s)) (yields n s)
unfolding yields Yielded
yields-Yielded zero s c e = (s, c, refl, e, refl)
yields-Yielded (suc n) s c e = yields_next n s (yields-Yielded n) (yield_now_lem s c e)

rotate_by-append {ℓ} : {A : Type ℓ} (xs ys : List A) → rotate_by (length xs) (xs ++ ys) ≡ ys ++ xs
rotate_by-append [] ys = sym (append-nil ys)
rotate_by-append (x ∷ xs) ys =
    ap (rotate_by (length xs)) (append_assoc xs ys (x ∷ []))
    ∙ rotate_by-append xs (ys ++ x ∷ [])
    ∙ append_assoc ys (x ∷ []) xs

tids-current : (s : Sched) (c : Thread) → s.current ≡ some c → first (tids s) ≡ c.tid
unfolding tids snapshot
tids-current s c e = rw e refl

-- When a thread runs, as many calls of `yield_now` as there are threads before the thread `t`, the
-- running one and then the queue, do not panic and leave `t` running; the threads that were before it
-- are then behind the others, in their order.
pub yields_turn :
    (s : Sched) (c : Thread) (before : List Tid) (t : Tid) (after : List Tid)
    → s.current ≡ some c
    → tids s ≡ before ++ t ∷ after
    → ((p : Sched) × (d : Thread) × (yields (length before) s ≡ some p)
        × (p.current ≡ some d)
        × (d.tid ≡ t)
        × (tids p ≡ t ∷ after ++ before))
unfolding Yielded
yields_turn s c before t after e h = go (yields-Yielded (length before) s c e)
  where
    turned : rotate_by (length before) (tids s) ≡ t ∷ after ++ before
    turned = ap (rotate_by (length before)) h ∙ rotate_by-append before (t ∷ after)

    go :
        Yielded (rotate_by (length before) (tids s)) (yields (length before) s)
        → ((p : Sched) × (d : Thread) × (yields (length before) s ≡ some p)
            × (p.current ≡ some d)
            × (d.tid ≡ t)
            × (tids p ≡ t ∷ after ++ before))
    go (p, d, y, r, k) = (p, d, y, r, sym (tids-current p d r) ∙ ap first (k ∙ turned), k ∙ turned)

-- When a thread runs, as many calls of `yield_now` as there are threads do not panic, and the threads
-- then stand as before the first: each of them has run once.
pub yields_round :
    (s : Sched) (c : Thread)
    → s.current ≡ some c
    → ((p : Sched) × (d : Thread) × (yields (length (tids s)) s ≡ some p)
        × (p.current ≡ some d)
        × (tids p ≡ tids s))
unfolding Yielded
yields_round s c e = go (yields-Yielded (length (tids s)) s c e)
  where
    go :
        Yielded (rotate_by (length (tids s)) (tids s)) (yields (length (tids s)) s)
        → ((p : Sched) × (d : Thread) × (yields (length (tids s)) s ≡ some p)
            × (p.current ≡ some d)
            × (tids p ≡ tids s))
    go (p, d, y, r, k) = (
      p,
      d,
      y,
      r,
      k
          ∙ ap (rotate_by (length (tids s))) (sym (append-nil (tids s)))
          ∙ rotate_by-append (tids s) [],
    )
