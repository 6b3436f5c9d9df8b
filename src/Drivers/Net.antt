-- ===== src/Drivers/Net.antt =====
-- kernel/src/drivers/net/mod.rs: the reply to an echo packet. A frame is the list of its bytes; what
-- is sent to the device is the result.
pub mod Checksum
pub mod Sums
pub mod Frames
pub mod Header
pub mod Echo
mod Tests
use mathlib.Core.Option
use hyperion_os.Base.{
  ℕ, zero, suc, ◌+◌, ◌-◌, ◌*◌, ◌/◌, ◌%◌, ◌^◌, List, [], ◌∷◌, ◌++◌, Option, none, some, Bool, true,
  false, not, ◌==◌, ltb, ◌||◌, if◌then◌else◌, length, get_or, set, take, drop, bit_and,
}

-- `u16::from_be_bytes` of the bytes at `off`.
pub be16 : List ℕ → ℕ → ℕ
be16 bytes off = get_or bytes off 0 * 256 + get_or bytes (off + 1) 0

-- The sum of the first loop of `csum16`, with the last byte of an odd number. No `u32` overflows on a
-- header of at most 60 bytes.
pub sum_words : List ℕ → ℕ
sum_words [] = 0
sum_words (a ∷ []) = a * 256
sum_words (a ∷ b ∷ bytes) = a * 256 + b + sum_words bytes

-- `while sum >> 16 != 0`, on fuel.
pub fold : ℕ → ℕ → Option ℕ
fold zero sum = none
fold (suc fuel) sum =
    let rest = fold fuel (sum % 65536 + sum / 65536) in
    if not (sum / 65536 == 0) then rest else some sum

-- A `u32` is folded in at most four rounds; `none` means that the fuel ran out.
pub csum16 : List ℕ → Option ℕ
csum16 bytes = Option.map (λ sum. 2 ^ 16 - 1 - sum) (fold 4 (sum_words bytes))

-- `frame[off..off + len].copy_from_slice(bytes)`.
pub put_slice : ℕ → List ℕ → List ℕ → List ℕ
put_slice off bytes frame = take off frame ++ bytes ++ drop (off + length bytes) frame

pub slice : ℕ → ℕ → List ℕ → List ℕ
slice off len frame = take len (drop off frame)

-- What a call makes of a frame; an index out of range panics, and a checksum whose loop does not end
-- would be `loops`.
pub data Reply : Type 0 where
  dropped : Reply
  panics : Reply
  loops : Reply
  sent : List ℕ → Reply

-- `ihl`, from the first byte of the IP header.
pub header_len : List ℕ → ℕ
header_len frame = bit_and (get_or frame 14 0) 15 * 4

-- The addresses swapped: the Ethernet source becomes the destination and `mac` the source; the IP
-- source and destination change places, and the checksum is cleared.
pub swap_addresses : List ℕ → List ℕ → List ℕ
swap_addresses mac frame =
    set
      (set
        (put_slice 30 (slice 26 4 frame)
          (put_slice 26 (slice 30 4 frame) (put_slice 6 mac (put_slice 0 (slice 6 6 frame) frame))))
        24 0)
      25 0

pub put_checksum : ℕ → List ℕ → Option (List ℕ)
put_checksum ihl frame =
    Option.map (λ csum. set (set frame 24 (csum / 256)) 25 (csum % 256))
      (csum16 (slice 14 ihl frame))

-- The ports swapped and the UDP checksum cleared; `frame` is the one received.
pub swap_ports : ℕ → List ℕ → List ℕ → List ℕ
swap_ports udp_off frame reply =
    set
      (set
        (set
          (set (set (set reply udp_off 0) (udp_off + 1) 7) (udp_off + 2) (be16 frame udp_off / 256))
          (udp_off + 3) (be16 frame udp_off % 256))
        (udp_off + 6) 0)
      (udp_off + 7) 0

-- The frame that is sent back for an echo request.
pub reply_to : List ℕ → List ℕ → Option (List ℕ)
reply_to mac frame =
    let ihl = header_len frame in
    Option.map (swap_ports (14 + ihl) frame) (put_checksum ihl (swap_addresses mac frame))

pub send_reply : Option (List ℕ) → Reply
send_reply none = Reply.loops
send_reply (some frame) = Reply.sent frame

-- The checks on the UDP header at `udp_off`, whose fields are read at their indices.
pub reply_udp : List ℕ → ℕ → List ℕ → Reply
reply_udp mac udp_off frame =
    if ltb (length frame) (udp_off + 4)
    then Reply.panics
    else if not (be16 frame (udp_off + 2) == 7)
    then Reply.dropped
    else if ltb (length frame) (udp_off + 8)
    then Reply.panics
    else send_reply (reply_to mac frame)

pub try_reply_echo : List ℕ → List ℕ → Reply
try_reply_echo mac frame =
    if ltb (length frame) (14 + 20 + 8)
    then Reply.dropped
    else if not (be16 frame 12 == 2048)
    then Reply.dropped
    else if ltb (header_len frame) 20 || not (get_or frame 23 0 == 17)
    then Reply.dropped
    else reply_udp mac (14 + header_len frame) frame
