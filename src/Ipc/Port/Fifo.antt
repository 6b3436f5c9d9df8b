-- ===== src/Ipc/Port/Fifo.antt =====
-- kernel/src/ipc/port.rs: any row of operations on a port, against a bounded first-in first-out
-- queue.
use hyperion_os.Base.{
  ℕ, ◌≤◌, ◌≡◌, refl, sym, ap, ◌∙◌, List, [], ◌∷◌, ◌++◌, true, min, length, take, drop, replicate,
  length-append, take-append, take-min, length-take, length-drop, arith,
}
use hyperion_os.Base.Result.{Result, ok, err}
use hyperion_os.Ipc.Port.{
  Port, Message, PortError, port_capacity, msg_payload, try_send, recv_from, try_recv, close,
  pending, with_payload, new_message,
}
use mathlib.Core.List.{append_assoc, append-nil}

-- The calls of the threads that share a port, in the order in which they take its lock.
pub data Call : Type 0 where
  sends : Message → Call
  receives closes : Call

-- The messages that a row of calls got in, those that it got out, and the port after it.
pub record Log : Type 0 where
  pub accepted : List Message
  pub delivered : List Message
  pub port : Port

abbrev pub sent : Message → Result PortError (Unit {0}) → List Message → List Message
sent m (ok _) ms = m ∷ ms
sent m (err _) ms = ms

abbrev pub got : Result PortError Message → List Message → List Message
got (ok m) ms = m ∷ ms
got (err _) ms = ms

pub run : List Call → Port → Log
run [] p = record { accepted = []; delivered = []; port = p }
run (sends m ∷ calls) p =
    let log = run calls (try_send m p).1 in
    record log { accepted = sent m (try_send m p).0 log.accepted }
run (receives ∷ calls) p =
    let log = run calls (try_recv p).1 in
    record log { delivered = got (try_recv p).0 log.delivered }
run (closes ∷ calls) p = run calls (close p)

try_send-queue :
    (m : Message) (p : Port) (later : List Message)
    → (try_send m p).1.queue ++ later ≡ p.queue ++ sent m (try_send m p).0 later
unfolding try_send
try_send-queue m p later = ground (arith, append_assoc p.queue (m ∷ []) later)

recv_from-queue :
    (q : List Message) (p : Port) → p.queue ≡ q → q ≡ got (recv_from q p).0 (recv_from q p).1.queue
unfolding recv_from
recv_from-queue [] p h = ground arith
recv_from-queue (m ∷ rest) p h = refl

try_recv-queue : (p : Port) → p.queue ≡ got (try_recv p).0 (try_recv p).1.queue
unfolding try_recv
try_recv-queue p = recv_from-queue p.queue p refl

got-append :
    (r : Result PortError Message) (xs ys : List Message) → got r xs ++ ys ≡ got r (xs ++ ys)
got-append (ok m) xs ys = refl
got-append (err e) xs ys = refl

try_send-bounded :
    (m : Message) (p : Port)
    → length p.queue ≤ port_capacity
    → length (try_send m p).1.queue ≤ port_capacity
unfolding try_send
try_send-bounded m p h = ground (arith, length-append p.queue (m ∷ []))

length-got : (r : Result PortError Message) (ms : List Message) → length ms ≤ length (got r ms)
length-got (ok m) ms = omega arith
length-got (err e) ms = omega arith

try_recv-closed : (p : Port) → (try_recv p).1.is_closed ≡ p.is_closed
unfolding try_recv recv_from
try_recv-closed p = go p.queue
  where
    go : (q : List Message) → (recv_from q p).1.is_closed ≡ p.is_closed
    go [] = ground arith
    go (m ∷ q) = refl

-- Whatever the threads do, the messages waiting at the start followed by those accepted since are
-- the messages delivered followed by those still waiting, in that order: none is lost, doubled or
-- overtaken.
pub run-fifo :
    (calls : List Call) (p : Port)
    → p.queue ++ (run calls p).accepted ≡ (run calls p).delivered ++ (run calls p).port.queue
unfolding run close
run-fifo [] p = append-nil p.queue
run-fifo (sends m ∷ calls) p = sym (try_send-queue m p _) ∙ run-fifo calls (try_send m p).1
run-fifo (receives ∷ calls) p =
    ap (λ q. q ++ (run calls (try_recv p).1).accepted) (try_recv-queue p)
    ∙ got-append (try_recv p).0 (try_recv p).1.queue _
    ∙ ap (got (try_recv p).0) (run-fifo calls (try_recv p).1)
    ∙ sym (got-append (try_recv p).0 _ _)
run-fifo (closes ∷ calls) p = run-fifo calls (close p)

-- Whatever the threads do, a queue that holds at most 32 messages never holds more.
pub run_bounded :
    (calls : List Call) (p : Port)
    → pending p ≤ port_capacity
    → pending (run calls p).port ≤ port_capacity
unfolding run pending close
run_bounded [] p h = h
run_bounded (sends m ∷ calls) p h = run_bounded calls (try_send m p).1 (try_send-bounded m p h)
run_bounded (receives ∷ calls) p h =
    run_bounded calls (try_recv p).1
      (omega (arith, ap length (try_recv-queue p), length-got (try_recv p).0 (try_recv p).1.queue))
run_bounded (closes ∷ calls) p h = run_bounded calls (close p) h

-- A closed port stays closed and accepts no message.
pub run_closed :
    (calls : List Call) (p : Port)
    → p.is_closed ≡ true
    → ((run calls p).port.is_closed ≡ true) × ((run calls p).accepted ≡ [])
unfolding run try_send close
run_closed [] p h = (h, refl)
run_closed (sends m ∷ calls) p h = ground (arith, run_closed calls p h)
run_closed (receives ∷ calls) p h =
    ground (arith, run_closed calls (try_recv p).1, try_recv-closed p)
run_closed (closes ∷ calls) p h = run_closed calls (close p) refl

-- A message with a payload carries the first 64 bytes, at most, and their number.
pub with_payload_lem :
    (tag : ℕ) (bytes : List ℕ)
    → (take (with_payload tag bytes).payload_len (with_payload tag bytes).payload
        ≡ take msg_payload bytes)
      × (length (with_payload tag bytes).payload ≡ msg_payload)
      × ((with_payload tag bytes).payload_len ≡ min (length bytes) msg_payload)
unfolding with_payload new_message
with_payload_lem tag bytes = (
  take-append n (take n bytes) _ (omega (arith, length-take n bytes)) ∙ take-min msg_payload bytes,
  omega (
    arith,
    length-append (take n bytes) (drop n zeros),
    length-take n bytes,
    length-drop n zeros,
  ),
  refl,
)
  where
    n : ℕ
    n = min (length bytes) msg_payload

    zeros : List ℕ
    zeros = replicate msg_payload 0
