-- ===== src/Drivers/Net/Header.antt =====
-- kernel/src/drivers/net/mod.rs: the reply to a frame, byte by byte, and the sum of its header.
use mathlib.Core.Option
use hyperion_os.Base.{
  ℕ, ◌+◌, ◌-◌, ◌*◌, ◌/◌, ◌%◌, ◌<◌, ◌≤◌, ◌≡◌, ◌≢◌, ap, subst, ◌∙◌, List, some, true, ◌==◌, ◌||◌,
  if◌then◌else◌, length, get_or, set, length-set, arith,
}
use hyperion_os.Drivers.Net.{slice, csum16, swap_addresses, put_checksum, swap_ports}
use hyperion_os.Drivers.Net.Checksum.{AreBytes, Checks, csum16_lem}
use hyperion_os.Drivers.Net.Sums.{sum_at, weighed-sum_at, sum_at-checksum}
use hyperion_os.Drivers.Net.Frames.{
  get_or-bytes, AreBytes-get_or, get_or-set, get_or-slice, length-slice, addressed,
  length-swap_addresses, swap_addresses_lem, swap_ports_lem,
}

-- The length of the IP header, from the low half of its first byte.
abbrev pub ihl : List ℕ → ℕ
ihl frame = get_or frame 14 0 % 16 * 4

-- The byte `i` of the reply, the checksum of the IP header left out: the addresses are swapped, the
-- source port is that of the service and the destination port the sender's, and the checksum of the
-- datagram is 0.
abbrev pub reply_byte : List ℕ → List ℕ → ℕ → ℕ → ℕ
reply_byte mac frame u i =
    if i == u
    then 0
    else if i == u + 1
    then 7
    else if i == u + 2
    then get_or frame u 0
    else if i == u + 3
    then get_or frame (u + 1) 0
    else if (i == u + 6) || (i == u + 7)
    then 0
    else addressed mac frame i

-- The reply to a frame: as long, with the bytes that it should have, and an IP header whose sum is a
-- multiple of 2^16 - 1, as a receiver tests.
abbrev pub Replied : List ℕ → List ℕ → List ℕ → Type 0
Replied mac frame r =
    (length r ≡ length frame)
    × ((i : ℕ) → i ≢ 24 → i ≢ 25 → get_or r i 0 ≡ reply_byte mac frame (14 + ihl frame) i)
    × (sum_at true (λ i. get_or r i 0) 14 (ihl frame) % 65535 ≡ 0)

module _ (mac frame : List ℕ) (m : length mac ≡ 6) (mb : AreBytes mac) (b : AreBytes frame)
    (h : 42 ≤ length frame) where
  swapped-bytes : (i : ℕ) → get_or (swap_addresses mac frame) i 0 < 256
  swapped-bytes i = ground (
    arith,
    swap_addresses_lem mac frame m h i,
    get_or-bytes frame i b,
    get_or-bytes frame (6 + i) b,
    get_or-bytes frame (30 + (i - 26)) b,
    get_or-bytes frame (26 + (i - 30)) b,
    get_or-bytes mac (i - 6) mb,
  )

  -- The checksum of the header with the addresses swapped.
  header-Checks :
      (n : ℕ)
      → n ≤ 60
      → 14 + n ≤ length frame
      → Checks
          (sum_at true (λ i. get_or (swap_addresses mac frame) i 0) 14 n)
          (csum16 (slice 14 n (swap_addresses mac frame)))
  header-Checks n l k =
      subst (λ x. Checks x (csum16 (slice 14 n s)))
        (weighed-sum_at true (λ i. get_or s i 0) 14 (slice 14 n s)
            (λ i a. get_or-slice 14 n i s ∙ ground (arith, a, size))
          ∙ ap (sum_at true (λ i. get_or s i 0) 14) size)
        (csum16_lem (slice 14 n s)
          (AreBytes-get_or (slice 14 n s)
            (λ i. ground (arith, get_or-slice 14 n i s, swapped-bytes (14 + i))))
          (omega (arith, size, l)))
    where
      s : List ℕ
      s = swap_addresses mac frame

      size : length (slice 14 n s) ≡ n
      size = length-slice 14 n s (omega (arith, k, length-swap_addresses mac frame m h))

  -- The frame with the checksum `c` in its place.
  abbrev summed : ℕ → List ℕ
  summed c = set (set (swap_addresses mac frame) 24 (c / 256)) 25 (c % 256)

  length-summed : (c : ℕ) → length (summed c) ≡ length frame
  length-summed c =
      length-set (set (swap_addresses mac frame) 24 (c / 256)) 25 (c % 256)
      ∙ length-set (swap_addresses mac frame) 24 (c / 256)
      ∙ length-swap_addresses mac frame m h

  get_or-summed :
      (c i : ℕ)
      → get_or (summed c) i 0
        ≡ (if i == 24 then c / 256 else if i == 25 then c % 256 else addressed mac frame i)
  get_or-summed c i = ground (
    arith,
    get_or-set (set (swap_addresses mac frame) 24 (c / 256)) 25 (c % 256) i (
        omega (
          arith,
          h,
          length-set (swap_addresses mac frame) 24 (c / 256),
          length-swap_addresses mac frame m h,
        )),
    get_or-set (swap_addresses mac frame) 24 (c / 256) i
        (omega (arith, h, length-swap_addresses mac frame m h)),
    swap_addresses_lem mac frame m h i,
  )

  module _ (n : ℕ) (l : 20 ≤ n) (k : 14 + n + 8 ≤ length frame) where
    reply_at :
        (c i : ℕ)
        → (length (swap_ports (14 + n) frame (summed c)) ≡ length frame)
          × (i ≢ 24
              → i ≢ 25
              → get_or (swap_ports (14 + n) frame (summed c)) i 0 ≡ reply_byte mac frame (14 + n) i)
          × (i < 14 + n → get_or (swap_ports (14 + n) frame (summed c)) i 0 ≡ get_or (summed c) i 0)
    reply_at c i = (
      (swap_ports_lem (14 + n) frame (summed c) i b (length-summed c) k).0,
      (λ p q. ground (
        arith,
        p,
        q,
        (swap_ports_lem (14 + n) frame (summed c) i b (length-summed c) k).1,
        get_or-summed c i,
      )),
      (λ a.
          ground (arith, a, (swap_ports_lem (14 + n) frame (summed c) i b (length-summed c) k).1)),
    )

    header_sum :
        (c : ℕ)
        → sum_at true (λ i. get_or (swap_ports (14 + n) frame (summed c)) i 0) 14 n
          ≡ sum_at true (λ i. get_or (swap_addresses mac frame) i 0) 14 n + c
    header_sum c =
        subst
          (λ t.
            sum_at true (λ i. get_or (swap_ports (14 + n) frame (summed c)) i 0) 14 t
            ≡ sum_at true (λ i. get_or (swap_addresses mac frame) i 0) 14 t + c)
          rest
          (sum_at-checksum (λ i. get_or (swap_addresses mac frame) i 0)
            (λ i. get_or (swap_ports (14 + n) frame (summed c)) i 0) c (n - 12)
            (swap_addresses_lem mac frame m h 24) (swap_addresses_lem mac frame m h 25)
            ((reply_at c 24).2 (omega (arith, l)) ∙ get_or-summed c 24)
            ((reply_at c 25).2 (omega (arith, l)) ∙ get_or-summed c 25)
            (λ i p q a.
              (reply_at c i).2 (omega (arith, l, a))
              ∙ ground (arith, p, q, get_or-summed c i, swap_addresses_lem mac frame m h i)))
      where
        rest : 12 + (n - 12) ≡ n
        rest = omega (arith, l)

    pub made :
        n ≡ ihl frame
        → ((r : List ℕ) × (Option.map
                (swap_ports (14 + n) frame)
                (put_checksum n (swap_addresses mac frame))
              ≡ some r)
            × Replied mac frame r)
    unfolding put_checksum
    made e = from (header-Checks n (omega (arith, e)) (omega (arith, k)))
      where
        from :
            Checks
              (sum_at true (λ i. get_or (swap_addresses mac frame) i 0) 14 n)
              (csum16 (slice 14 n (swap_addresses mac frame)))
            → ((r : List ℕ) × (Option.map
                    (swap_ports (14 + n) frame)
                    (put_checksum n (swap_addresses mac frame))
                  ≡ some r)
                × Replied mac frame r)
        from (c, s, w, d) = (
          swap_ports (14 + n) frame (summed c),
          ap (λ o. Option.map (swap_ports (14 + n) frame) (Option.map (λ csum. summed csum) o)) s,
          (
            (reply_at c 0).0,
            (λ i p q. (reply_at c i).1 p q ∙ ap (λ t. reply_byte mac frame (14 + t) i) e),
            subst
                (λ t.
                  sum_at true (λ i. get_or (swap_ports (14 + n) frame (summed c)) i 0) 14 t % 65535
                  ≡ 0)
                e (ap (λ x. x % 65535) (header_sum c) ∙ d),
          ),
        )
