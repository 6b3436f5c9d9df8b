-- ===== src/Display/Monitor/Registered.antt =====
-- kernel/src/display/mod.rs: monitors under the identifiers that they get.
use hyperion_os.Base.{
  ℕ, zero, suc, ◌%◌, ◌^◌, ◌<◌, ◌≡◌, refl, ap, ◌∙◌, List, [], ◌∷◌, ◌++◌, some, length, get_elem?,
  arith,
}
use hyperion_os.Display.Monitor.{Monitor, set_id, register_monitor, get, count}

get_elem?-last : (v : List Monitor) (m : Monitor) → get_elem? (v ++ m ∷ []) (length v) ≡ some m
get_elem?-last [] m = refl
get_elem?-last (x ∷ v) m = get_elem?-last v m

get_elem?-append :
    (v w : List Monitor) (i : ℕ) → i < length v → get_elem? (v ++ w) i ≡ get_elem? v i
get_elem?-append [] w i h = absurd (omega arith)
get_elem?-append (x ∷ v) w zero h = refl
get_elem?-append (x ∷ v) w (suc i) h = get_elem?-append v w i (omega arith)

-- With fewer than 2^32 monitors, the one that is registered gets an identifier under which it is found,
-- with that identifier in it, and those before it are found under theirs as before.
pub get-register_monitor :
    (m : Monitor) (v : List Monitor) (i : ℕ)
    → count v < 2 ^ 32
    → (get (register_monitor m v).0 (register_monitor m v).1
        ≡ some (set_id (register_monitor m v).0 m))
      × (i < count v → get i (register_monitor m v).1 ≡ get i v)
unfolding register_monitor get count
get-register_monitor m v i h = (
  ap (λ k. get_elem? (v ++ set_id (length v % 2 ^ 32) m ∷ []) k) {y = length v} (omega (arith, h))
      ∙ get_elem?-last v (set_id (length v % 2 ^ 32) m),
  λ k. get_elem?-append v (set_id (length v % 2 ^ 32) m ∷ []) i k,
)
