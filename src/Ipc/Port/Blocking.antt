-- ===== src/Ipc/Port/Blocking.antt =====
-- kernel/src/ipc/port.rs: the calls that yield the processor, `recv` and `send`.
use hyperion_os.Base.{◌≤◌, ◌≡◌, ◌∙◌, List, [], ◌∷◌, ◌++◌, Option, some, true, false, length, arith}
use hyperion_os.Base.Result.{Result, ok, err}
use hyperion_os.Ipc.Port.{
  Port, Message, PortError, full, closed, port_capacity, try_send, recv_from, try_recv, recv, send,
}

-- A receiver polls `p`, finds it open and empty, yields, and so on for each entry of the list; it
-- is `q` that it polls next.
pub data Waits (q : Port) : Port → List (Port → Port) → Type 0 where
  now : Waits q q []
  later :
      {p : Port} {other : Port → Port} {others : List (Port → Port)}
      → p.queue ≡ []
      → p.is_closed ≡ false
      → Waits q (other p) others
      → Waits q p (other ∷ others)

-- What `recv` answers at a port that is ready.
abbrev pub answer : Port → Option (Result PortError Message) × Port
answer q = (some (try_recv q).0, (try_recv q).1)

recv_step :
    (p : Port) (other : Port → Port) (others : List (Port → Port))
    → p.queue ≡ []
    → p.is_closed ≡ false
    → recv (other ∷ others) p ≡ recv others (other p)
unfolding recv try_recv recv_from
recv_step p other others e c = ground arith

recv_ready :
    (q : Port) (more : List (Port → Port)) (m : Message) (rest : List Message)
    → q.queue ≡ m ∷ rest
    → recv more q ≡ (some (ok m), record q { queue = rest })
unfolding recv try_recv recv_from
recv_ready q [] m rest e = ground arith
recv_ready q (other ∷ more) m rest e = ground arith

recv_shut :
    (q : Port) (more : List (Port → Port))
    → q.queue ≡ []
    → q.is_closed ≡ true
    → recv more q ≡ (some (err closed), q)
unfolding recv try_recv recv_from
recv_shut q [] e c = ground arith
recv_shut q (other ∷ more) e c = ground arith

-- A receiver that has waited at an empty, open port returns the first message of the port as soon
-- as a poll finds one, whatever happens afterwards, and takes that message off the queue.
pub recv_delivers :
    {q p : Port} {others : List (Port → Port)} (more : List (Port → Port)) (m : Message)
    (rest : List Message)
    → Waits q p others
    → q.queue ≡ m ∷ rest
    → recv (others ++ more) p ≡ (some (ok m), record q { queue = rest })
recv_delivers more m rest now e = recv_ready _ more m rest e
recv_delivers more m rest (later n o w) e = recv_step _ _ _ n o ∙ recv_delivers more m rest w e

-- A receiver that has waited returns `Closed` as soon as a poll finds the port closed and empty.
pub recv_closed :
    {q p : Port} {others : List (Port → Port)} (more : List (Port → Port))
    → Waits q p others
    → q.queue ≡ []
    → q.is_closed ≡ true
    → recv (others ++ more) p ≡ (some (err closed), q)
recv_closed more now e c = recv_shut _ more e c
recv_closed more (later n o w) e c = recv_step _ _ _ n o ∙ recv_closed more w e c

-- At a full port `send` gives up after one yield: the message is not queued, whatever room the
-- other threads made during the yield.
pub send_full :
    (other : Port → Port) (m : Message) (p : Port)
    → p.is_closed ≡ false
    → port_capacity ≤ length p.queue
    → send other m p ≡ (err full, other p)
unfolding send try_send
send_full other m p c h = ground arith
