-- ===== src/Ipc/Port/Tests.antt =====
-- kernel/src/ipc/port.rs: the theorems at a port with messages.
use hyperion_os.Base.{
  ◌≡◌, ◌≤◌, refl, some, List, [], ◌∷◌, ◌++◌, true, false, arith, replicate, length, take,
}
use hyperion_os.Base.Result.{ok, err}
use hyperion_os.Ipc.Port.{
  Message, Port, PortError, with_payload, pending, port_capacity, msg_payload, recv, send,
}
use hyperion_os.Ipc.Port.Fifo.{Call, run, run-fifo, run_bounded, run_closed, with_payload_lem}
use hyperion_os.Ipc.Port.Blocking.{Waits, recv_delivers, recv_closed, send_full}

abbrev message : Message
message = record { tag = 5; words = []; payload = []; payload_len = 0 }

abbrev one : Port
one = record { id = 1; name = []; queue = message ∷ []; is_closed = false }

abbrev empty_port : Port
empty_port = record one { queue = [] }

abbrev shut : Port
shut = record one { queue = []; is_closed = true }

abbrev full_port : Port
full_port = record one { queue = replicate port_capacity message }

abbrev calls : List Call
calls = Call.sends message ∷ Call.receives ∷ Call.closes ∷ Call.sends message ∷ []

run-fifo_example :
    one.queue ++ (run calls one).accepted ≡ (run calls one).delivered ++ (run calls one).port.queue
run-fifo_example = run-fifo calls one

one-pending : pending one ≤ port_capacity
unfolding pending
one-pending = omega arith

run_bounded_example : pending (run calls one).port ≤ port_capacity
run_bounded_example = run_bounded calls one one-pending

run_closed_example : ((run calls shut).port.is_closed ≡ true) × ((run calls shut).accepted ≡ [])
run_closed_example = run_closed calls shut refl

with_payload_lem_example :
    (take (with_payload 1 (7 ∷ 8 ∷ [])).payload_len (with_payload 1 (7 ∷ 8 ∷ [])).payload
      ≡ 7 ∷ 8 ∷ [])
    × (length (with_payload 1 (7 ∷ 8 ∷ [])).payload ≡ msg_payload)
    × ((with_payload 1 (7 ∷ 8 ∷ [])).payload_len ≡ 2)
with_payload_lem_example = with_payload_lem 1 (7 ∷ 8 ∷ [])

-- The sender fills the port at the second yield.
abbrev arrives : List (Port → Port)
arrives = (λ p. p) ∷ (λ p. one) ∷ []

waits : Waits one empty_port arrives
waits = Waits.later refl refl (Waits.later refl refl Waits.now)

recv_delivers_example : recv (arrives ++ []) empty_port ≡ (some (ok message), empty_port)
recv_delivers_example = recv_delivers [] message [] waits refl

Waits-shut : Waits shut empty_port ((λ p. shut) ∷ [])
Waits-shut = Waits.later refl refl Waits.now

recv_closed_example :
    recv (((λ p. shut) ∷ []) ++ []) empty_port ≡ (some (err PortError.closed), shut)
recv_closed_example = recv_closed [] Waits-shut refl refl

send_full_example : send (λ p. empty_port) message full_port ≡ (err PortError.full, empty_port)
send_full_example = send_full (λ p. empty_port) message full_port refl (omega arith)
