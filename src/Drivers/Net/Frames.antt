-- ===== src/Drivers/Net/Frames.antt =====
-- kernel/src/drivers/net/mod.rs: the bytes of the reply, one by one.
use hyperion_os.Base.{
  ◌||◌, ℕ, zero, suc, ◌+◌, ◌-◌, ◌/◌, ◌%◌, ◌<◌, ◌≤◌, ◌≡◌, refl, ap, ◌∙◌, List, [], ◌∷◌, ◌++◌, ◌==◌,
  ltb, leb, ◌&&◌, if◌then◌else◌, length, get_or, set, take, drop, arith, length-set, length-append,
  length-take, length-drop,
}
use hyperion_os.Base.Bytes.{get_or-splice, get_or-take, get_or-drop}
use hyperion_os.Drivers.Net.{be16, put_slice, slice, swap_addresses, swap_ports}
use hyperion_os.Drivers.Net.Checksum.{AreBytes}

pub get_or-bytes : (xs : List ℕ) (i : ℕ) → AreBytes xs → get_or xs i 0 < 256
get_or-bytes [] i b = omega arith
get_or-bytes (x ∷ xs) zero b = b.0
get_or-bytes (x ∷ xs) (suc i) b = get_or-bytes xs i b.1

pub AreBytes-get_or : (xs : List ℕ) → ((i : ℕ) → get_or xs i 0 < 256) → AreBytes xs
AreBytes-get_or [] f = tt
AreBytes-get_or (x ∷ xs) f = (f 0, AreBytes-get_or xs (λ i. f (suc i)))

pub get_or-set :
    (xs : List ℕ) (k v i : ℕ)
    → k < length xs
    → get_or (set xs k v) i 0 ≡ (if i == k then v else get_or xs i 0)
get_or-set [] k v i h = absurd (omega arith)
get_or-set (x ∷ xs) zero v zero h = refl
get_or-set (x ∷ xs) zero v (suc i) h = ground arith
get_or-set (x ∷ xs) (suc k) v zero h = ground arith
get_or-set (x ∷ xs) (suc k) v (suc i) h = ground (arith, get_or-set xs k v i (omega arith))

pub length-slice :
    (off len : ℕ) (xs : List ℕ) → off + len ≤ length xs → length (slice off len xs) ≡ len
unfolding slice
length-slice off len xs h = omega (arith, h, length-take len (drop off xs), length-drop off xs)

pub get_or-slice :
    (off len i : ℕ) (xs : List ℕ)
    → get_or (slice off len xs) i 0 ≡ (if ltb i len then get_or xs (off + i) 0 else 0)
unfolding slice
get_or-slice off len i xs =
    get_or-take len i (drop off xs) ∙ ap (λ k. if ltb i len then k else 0) (get_or-drop off i xs)

get_or-put_slice :
    (off n i : ℕ) (bytes xs : List ℕ)
    → length bytes ≡ n
    → off + n ≤ length xs
    → get_or (put_slice off bytes xs) i 0
      ≡ (if leb off i && ltb i (off + n) then get_or bytes (i - off) 0 else get_or xs i 0)
unfolding put_slice
get_or-put_slice off n i bytes xs e h =
    get_or-splice off i bytes xs (omega (arith, e, h))
    ∙ ap (λ m. if leb off i && ltb i (off + m) then get_or bytes (i - off) 0 else get_or xs i 0) e

length-put_slice :
    (off n : ℕ) (bytes xs : List ℕ)
    → length bytes ≡ n
    → off + n ≤ length xs
    → length (put_slice off bytes xs) ≡ length xs
unfolding put_slice
length-put_slice off n bytes xs e h =
    length-append (take off xs ++ bytes) (drop (off + length bytes) xs)
    ∙ omega (
      arith,
      e,
      h,
      length-append (take off xs) bytes,
      length-take off xs,
      length-drop (off + length bytes) xs,
    )

-- The byte `i` of a frame to which the addresses of `frame` are swapped: the Ethernet source and `mac`,
-- and the two IP addresses. The checksum is left out.
abbrev pub addressed : List ℕ → List ℕ → ℕ → ℕ
addressed mac frame i =
    if ltb i 6
    then get_or frame (6 + i) 0
    else if ltb i 12
    then get_or mac (i - 6) 0
    else if leb 26 i && ltb i 30
    then get_or frame (30 + (i - 26)) 0
    else if leb 30 i && ltb i 34
    then get_or frame (26 + (i - 30)) 0
    else get_or frame i 0

module _ (mac frame : List ℕ) (m : length mac ≡ 6) (h : 42 ≤ length frame) where
  -- The frame after each of the four copies.
  abbrev copied1 : List ℕ
  copied1 = put_slice 0 (slice 6 6 frame) frame

  abbrev copied2 : List ℕ
  copied2 = put_slice 6 mac copied1

  abbrev copied3 : List ℕ
  copied3 = put_slice 26 (slice 30 4 frame) copied2

  abbrev copied4 : List ℕ
  copied4 = put_slice 30 (slice 26 4 frame) copied3

  len1 : length copied1 ≡ length frame
  len1 = length-put_slice 0 6 _ frame (length-slice 6 6 frame (omega (arith, h))) (omega (arith, h))

  len2 : length copied2 ≡ length frame
  len2 = length-put_slice 6 6 mac copied1 m (omega (arith, h, len1)) ∙ len1

  len3 : length copied3 ≡ length frame
  len3 =
      length-put_slice 26 4 _ copied2 (length-slice 30 4 frame (omega (arith, h)))
        (omega (arith, h, len2))
      ∙ len2

  len4 : length copied4 ≡ length frame
  len4 =
      length-put_slice 30 4 _ copied3 (length-slice 26 4 frame (omega (arith, h)))
        (omega (arith, h, len3))
      ∙ len3

  pub length-swap_addresses : length (swap_addresses mac frame) ≡ length frame
  unfolding swap_addresses
  length-swap_addresses = length-set (set copied4 24 0) 25 0 ∙ length-set copied4 24 0 ∙ len4

  ethernet :
      (i : ℕ)
      → get_or copied2 i 0 ≡ (
          if ltb i 6
          then get_or frame (6 + i) 0
          else if ltb i 12
          then get_or mac (i - 6) 0
          else get_or frame i 0)
  ethernet i = ground (
    arith,
    get_or-put_slice 6 6 i mac copied1 m (omega (arith, h, len1)),
    get_or-put_slice 0 6 i (slice 6 6 frame) frame (length-slice 6 6 frame (omega (arith, h)))
        (omega (arith, h)),
    get_or-slice 6 6 i frame,
  )

  ip :
      (i : ℕ)
      → get_or copied4 i 0 ≡ (
          if leb 26 i && ltb i 30
          then get_or frame (30 + (i - 26)) 0
          else if leb 30 i && ltb i 34
          then get_or frame (26 + (i - 30)) 0
          else get_or copied2 i 0)
  ip i = ground (
    arith,
    get_or-put_slice 30 4 i (slice 26 4 frame) copied3 (length-slice 26 4 frame (omega (arith, h)))
        (omega (arith, h, len3)),
    get_or-put_slice 26 4 i (slice 30 4 frame) copied2 (length-slice 30 4 frame (omega (arith, h)))
        (omega (arith, h, len2)),
    get_or-slice 26 4 (i - 30) frame,
    get_or-slice 30 4 (i - 26) frame,
  )

  pub swap_addresses_lem :
      (i : ℕ)
      → get_or (swap_addresses mac frame) i 0
        ≡ (if i == 24 then 0 else if i == 25 then 0 else addressed mac frame i)
  unfolding swap_addresses
  swap_addresses_lem i = ground (
    arith,
    get_or-set (set copied4 24 0) 25 0 i (omega (arith, h, len4, length-set copied4 24 0)),
    get_or-set copied4 24 0 i (omega (arith, h, len4)),
    ip i,
    ethernet i,
  )

-- The bytes of the reply, from a frame `reply` whose addresses and checksum are done.
pub swap_ports_lem :
    (u : ℕ) (frame reply : List ℕ) (i : ℕ)
    → AreBytes frame
    → length reply ≡ length frame
    → u + 8 ≤ length frame
    → (length (swap_ports u frame reply) ≡ length frame)
      × (get_or (swap_ports u frame reply) i 0 ≡ (
          if i == u
          then 0
          else if i == u + 1
          then 7
          else if i == u + 2
          then get_or frame u 0
          else if i == u + 3
          then get_or frame (u + 1) 0
          else if (i == u + 6) || (i == u + 7)
          then 0
          else get_or reply i 0))
unfolding swap_ports be16
swap_ports_lem u frame reply i b e h = (
  ground (
    arith,
    e,
    length-set r5 (u + 7) 0,
    length-set r4 (u + 6) 0,
    length-set r3 (u + 3) y,
    length-set r2 (u + 2) x,
    length-set r1 (u + 1) 7,
    length-set reply u 0,
  ),
  ground (
    arith,
    get_or-set r5 (u + 7) 0 i (omega (arith, e, h, l5)),
    get_or-set r4 (u + 6) 0 i (omega (arith, e, h, l4)),
    get_or-set r3 (u + 3) y i (omega (arith, e, h, l3)),
    get_or-set r2 (u + 2) x i (omega (arith, e, h, l2)),
    get_or-set r1 (u + 1) 7 i (omega (arith, e, h, l1)),
    get_or-set reply u 0 i (omega (arith, e, h)),
    high,
    low,
  ),
)
  where
    x : ℕ
    x = be16 frame u / 256

    y : ℕ
    y = be16 frame u % 256

    r1 : List ℕ
    r1 = set reply u 0

    r2 : List ℕ
    r2 = set r1 (u + 1) 7

    r3 : List ℕ
    r3 = set r2 (u + 2) x

    r4 : List ℕ
    r4 = set r3 (u + 3) y

    r5 : List ℕ
    r5 = set r4 (u + 6) 0

    l1 : length r1 ≡ length reply
    l1 = length-set reply u 0

    l2 : length r2 ≡ length reply
    l2 = length-set r1 (u + 1) 7 ∙ l1

    l3 : length r3 ≡ length reply
    l3 = length-set r2 (u + 2) x ∙ l2

    l4 : length r4 ≡ length reply
    l4 = length-set r3 (u + 3) y ∙ l3

    l5 : length r5 ≡ length reply
    l5 = length-set r4 (u + 6) 0 ∙ l4

    high : x ≡ get_or frame u 0
    high = omega (arith, get_or-bytes frame (u + 1) b)

    low : y ≡ get_or frame (u + 1) 0
    low = omega (arith, get_or-bytes frame (u + 1) b)
