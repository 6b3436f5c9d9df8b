-- ===== src/Ipc/Port.antt =====
-- kernel/src/ipc/port.rs, messages and ports: a bounded queue of fixed-size messages. An operation
-- takes the port as it stands under its lock and returns it with the result. What the other
-- threads do to a port while a blocked call yields is an argument of `recv` and `send`.
pub mod Fifo
pub mod Blocking
mod Tests
use hyperion_os.Base.{
  ℕ, zero, suc, ◌+◌, List, [], ◌∷◌, ◌++◌, Option, none, some, Bool, true, false, leb, min,
  if◌then◌else◌, length, take, drop, replicate,
}
use hyperion_os.Base.Ord.{Name}
use hyperion_os.Base.Result.{Result, ok, err}

abbrev pub port_capacity : ℕ
port_capacity = 32

abbrev pub msg_payload : ℕ
msg_payload = 64

pub data PortError : Type 0 where
  full empty closed : PortError

pub record Message : Type 0 where
  pub tag : ℕ
  pub words : List ℕ
  pub payload : List ℕ
  pub payload_len : ℕ

pub new_message : ℕ → Message
new_message tag = record {
  tag = tag;
  words = replicate 8 0;
  payload = replicate msg_payload 0;
  payload_len = 0;
}

-- `payload[..n].copy_from_slice(&bytes[..n])` keeps the bytes from `n` on.
pub with_payload : ℕ → List ℕ → Message
with_payload tag bytes =
    let m = new_message tag in
    let n = min (length bytes) msg_payload in
    record m { payload = take n bytes ++ drop n m.payload; payload_len = n }

pub record Port : Type 0 where
  pub id : ℕ
  pub name : Name
  pub queue : List Message
  pub is_closed : Bool

pub try_send : Message → Port → Result PortError (Unit {0}) × Port
try_send msg p =
    if p.is_closed
    then (err closed, p)
    else if leb port_capacity (length p.queue)
    then (err full, p)
    else (ok tt, record p { queue = p.queue ++ msg ∷ [] })

-- What `try_recv` does with the result of `pop_front`.
pub recv_from : List Message → Port → Result PortError Message × Port
recv_from (m ∷ rest) p = (ok m, record p { queue = rest })
recv_from [] p = if p.is_closed then (err closed, p) else (err empty, p)

pub try_recv : Port → Result PortError Message × Port
try_recv p = recv_from p.queue p

pub close : Port → Port
close p = record p { is_closed = true }

pub pending : Port → ℕ
pending p = length p.queue

-- The loop of `recv`: `others` lists what the other threads make of the port at each `yield_now`,
-- and `none` means that the call still waits when the list ends.
pub recv : List (Port → Port) → Port → Option (Result PortError Message) × Port
recv [] p = elim (try_recv p).0 [
  | ok m ↦ (some (ok m), (try_recv p).1)
  | err e ↦ elim e [
    | empty ↦ (none, (try_recv p).1)
    | full ↦ (some (err full), (try_recv p).1)
    | closed ↦ (some (err closed), (try_recv p).1)
  ]
]
recv (other ∷ others) p = elim (try_recv p).0 [
  | ok m ↦ (some (ok m), (try_recv p).1)
  | err e ↦ elim e [
    | empty ↦ recv others (other (try_recv p).1)
    | full ↦ (some (err full), (try_recv p).1)
    | closed ↦ (some (err closed), (try_recv p).1)
  ]
]

-- `other` is what the other threads make of the port during the one `yield_now` of `send`.
pub send : (Port → Port) → Message → Port → Result PortError (Unit {0}) × Port
send other msg p = elim (try_send msg p).0 [
  | ok _ ↦ (ok tt, (try_send msg p).1)
  | err e ↦ elim e [
    | full ↦ (err full, other (try_send msg p).1)
    | empty ↦ (err empty, (try_send msg p).1)
    | closed ↦ (err closed, (try_send msg p).1)
  ]
]
