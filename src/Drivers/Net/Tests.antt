-- ===== src/Drivers/Net/Tests.antt =====
-- kernel/src/drivers/net/mod.rs: the theorems at an echo request of 42 bytes, and at the same frame with
-- a header length that goes past its end.
use mathlib.Core.Option
use hyperion_os.Base.{
  Bool, some, ltb, ◌&&◌, ℕ, ◌≡◌, ◌<◌, ◌+◌, refl, List, [], ◌∷◌, true, arith, set, length,
}
use hyperion_os.Drivers.Net.{
  Reply, be16, header_len, reply_to, try_reply_echo, csum16, sum_words, fold, send_reply, reply_udp,
  put_slice, slice, swap_addresses, put_checksum, swap_ports,
}
use hyperion_os.Drivers.Net.Checksum.{weighed, Checks, csum16_lem}
use hyperion_os.Drivers.Net.Header.{ihl}
use hyperion_os.Drivers.Net.Echo.{is_udp, try_reply_echo_short}

abbrev mac : List ℕ
mac = 2 ∷ 0 ∷ 0 ∷ 0 ∷ 0 ∷ 1 ∷ []

abbrev request : List ℕ
request =
    1 ∷ 2 ∷ 3 ∷ 4 ∷ 5 ∷ 6 ∷ 11 ∷ 12 ∷ 13 ∷ 14 ∷ 15 ∷ 16 ∷ 8 ∷ 0 ∷ 69 ∷ 0 ∷ 0 ∷ 28 ∷ 0 ∷ 0 ∷ 0 ∷ 0
    ∷ 64 ∷ 17 ∷ 0 ∷ 0 ∷ 10 ∷ 0 ∷ 0 ∷ 1 ∷ 10 ∷ 0 ∷ 0 ∷ 2 ∷ 4 ∷ 210 ∷ 0 ∷ 7 ∷ 0 ∷ 8 ∷ 0 ∷ 0 ∷ []

abbrev long_header : List ℕ
long_header = set request 14 79

-- Whether all of the bytes are bytes.
abbrev are_bytes : List ℕ → Bool
are_bytes [] = true
are_bytes (b ∷ bs) = ltb b 256 && are_bytes bs

long_udp : is_udp long_header ≡ true
long_udp = refl

too_short : length long_header < 14 + ihl long_header + 4
too_short = omega arith

try_reply_echo_short_example : try_reply_echo mac long_header ≡ Reply.panics
try_reply_echo_short_example = try_reply_echo_short mac long_header long_udp too_short

csum16_lem_example :
    Checks (weighed true (69 ∷ 0 ∷ 0 ∷ 28 ∷ 64 ∷ [])) (csum16 (69 ∷ 0 ∷ 0 ∷ 28 ∷ 64 ∷ []))
csum16_lem_example =
    csum16_lem (69 ∷ 0 ∷ 0 ∷ 28 ∷ 64 ∷ [])
      (omega arith, (omega arith, (omega arith, (omega arith, (omega arith, tt))))) (omega arith)

-- The reply goes back to the sender, from the echo port to the sender's.
answer : Option.map (slice 34 4) (reply_to mac request) ≡ some (0 ∷ 7 ∷ 4 ∷ 210 ∷ [])
unfolding reply_to slice swap_ports put_checksum swap_addresses put_slice header_len be16 csum16
    sum_words fold
answer = refl

-- And it is sent.
answered : try_reply_echo mac request ≡ send_reply (reply_to mac request)
unfolding try_reply_echo reply_udp header_len be16
answered = refl
