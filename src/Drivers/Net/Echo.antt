-- ===== src/Drivers/Net/Echo.antt =====
-- kernel/src/drivers/net/mod.rs: which frames are answered, with what reply, and which make the call
-- panic.
use hyperion_os.Base.{
  ℕ, ◌+◌, ◌*◌, ◌<◌, ◌≡◌, ap, List, Bool, true, false, ◌==◌, leb, ◌&&◌, length, get_or, arith,
}
use hyperion_os.Base.Bits.{bit_and-ones}
use hyperion_os.Drivers.Net.{Reply, be16, header_len, reply_udp, try_reply_echo}
use hyperion_os.Drivers.Net.Header.{ihl, Replied}

-- The frame is long enough to be looked at, and is an IPv4 packet with UDP in it.
abbrev pub is_udp : List ℕ → Bool
is_udp frame =
    leb 42 (length frame)
    && (get_or frame 12 0 * 256 + get_or frame 13 0 == 2048)
    && leb 20 (ihl frame)
    && (get_or frame 23 0 == 17)

-- The port of the UDP header is that of the echo service.
abbrev pub is_echo : List ℕ → Bool
is_echo frame = get_or frame (14 + ihl frame + 2) 0 * 256 + get_or frame (14 + ihl frame + 3) 0 == 7

-- What a call makes of a frame, by whether it is an echo request.
abbrev pub Answered : List ℕ → List ℕ → Bool → Reply → Type 0
Answered mac frame true o = (r : List ℕ) × (o ≡ Reply.sent r) × Replied mac frame r
Answered mac frame false o = o ≡ Reply.dropped

header_len-ihl : (frame : List ℕ) → header_len frame ≡ ihl frame
unfolding header_len
header_len-ihl frame = ap (λ x. x * 4) (bit_and-ones 4 (get_or frame 14 0))

-- A UDP frame whose IP header, by its length field, ends less than four bytes before the end of the
-- frame makes the call panic.
pub try_reply_echo_short :
    (mac frame : List ℕ)
    → is_udp frame ≡ true
    → length frame < 14 + ihl frame + 4
    → try_reply_echo mac frame ≡ Reply.panics
unfolding try_reply_echo reply_udp be16
try_reply_echo_short mac frame u h =
    rw (try_reply_echo, header_len-ihl frame) (ground (arith, u, h))
