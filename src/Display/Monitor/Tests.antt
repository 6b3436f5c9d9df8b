-- ===== src/Display/Monitor/Tests.antt =====
-- kernel/src/display/mod.rs: the theorem at a second monitor, and the monitor without a device.
use hyperion_os.Base.{◌<◌, ◌≡◌, refl, [], ◌∷◌, none, some, arith, replicate}
use hyperion_os.Display.Framebuffer.{Framebuffer, PixelFormat}
use hyperion_os.Base.Text.{codes}
use hyperion_os.Hal.BootInfo
use hyperion_os.Display.Monitor.{
  Monitor, new_physical, new_virtual, set_id, snapshot, register_monitor, get, list, count,
  format_of, from_mmio, init,
}
use hyperion_os.Display.Monitor.Registered.{get-register_monitor}

abbrev small : Framebuffer
small = from_mmio 1 1 4 PixelFormat.bgra8 (1 ∷ 2 ∷ 3 ∷ 4 ∷ [])

abbrev first : Monitor
first = new_physical (codes "fb0") small

few : count (first ∷ []) < 4294967296
unfolding count
few = omega arith

get-register_monitor_example :
    (get (register_monitor first (first ∷ [])).0 (register_monitor first (first ∷ [])).1
      ≡ some (set_id (register_monitor first (first ∷ [])).0 first))
    × (0 < count (first ∷ []) → get 0 (register_monitor first (first ∷ [])).1 ≡ get 0 (first ∷ []))
get-register_monitor_example = get-register_monitor first (first ∷ []) 0 few

bytes : snapshot first ≡ 1 ∷ 2 ∷ 3 ∷ 4 ∷ []
unfolding snapshot new_physical from_mmio
bytes = refl

headless : count (list (init (λ a n. []) none [])) ≡ 1
unfolding count list init register_monitor new_virtual
headless = refl

with_device :
    count (
      init
        (λ a n. replicate n 0)
        (some (record {
          base = 0;
          width = 1;
          height = 1;
          stride_bytes = 4;
          bpp = 32;
          format = BootInfo.PixelFormat.rgba8888;
        }))
        [])
    ≡ 1
unfolding count init register_monitor new_physical from_mmio format_of
with_device = refl

numbered : (set_id 3 first).id ≡ 3
unfolding set_id
numbered = refl
