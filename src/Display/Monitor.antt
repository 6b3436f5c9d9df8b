-- ===== src/Display/Monitor.antt =====
-- kernel/src/display/monitor.rs and kernel/src/display/mod.rs: monitors and their list. `from_mmio`
-- wraps the memory of the device, which is an argument here.
pub mod Registered
mod Tests
use hyperion_os.Base.{
  ℕ, ◌-◌, ◌*◌, ◌%◌, ◌^◌, List, [], ◌∷◌, ◌++◌, Option, none, some, length, get_elem?,
}
use hyperion_os.Base.Ord.{Name}
use hyperion_os.Base.Text.{codes}
use hyperion_os.Hal.BootInfo.{FramebufferInfo}
use hyperion_os.Hal.BootInfo
use hyperion_os.Display.Framebuffer.{Framebuffer, PixelFormat, new}

abbrev pub MonitorId : Type 0
MonitorId = ℕ

pub data MonitorKind : Type 0 where
  physical virtual : MonitorKind

pub record Monitor : Type 0 where
  pub name : Name
  pub kind : MonitorKind
  pub width : ℕ
  pub height : ℕ
  pub fb : Framebuffer
  pub id : MonitorId

pub new_virtual : Name → ℕ → ℕ → Monitor
new_virtual name width height = record {
  name = name;
  kind = MonitorKind.virtual;
  width = width;
  height = height;
  fb = new width height PixelFormat.bgra8;
  id = 2 ^ 32 - 1;
}

pub new_physical : Name → Framebuffer → Monitor
new_physical name fb = record {
  name = name;
  kind = MonitorKind.physical;
  width = fb.width;
  height = fb.height;
  fb = fb;
  id = 2 ^ 32 - 1;
}

pub set_id : MonitorId → Monitor → Monitor
set_id id m = record m { id = id }

pub snapshot : Monitor → List ℕ
snapshot m = m.fb.pixels

pub register_monitor : Monitor → List Monitor → MonitorId × List Monitor
register_monitor m v = let id = length v % 2 ^ 32 in (id, v ++ set_id id m ∷ [])

pub get : MonitorId → List Monitor → Option Monitor
get id v = get_elem? v id

pub list : List Monitor → List Monitor
list v = v

pub count : List Monitor → ℕ
count v = length v

pub format_of : BootInfo.PixelFormat → PixelFormat
format_of BootInfo.PixelFormat.bgra8888 = PixelFormat.bgra8
format_of BootInfo.PixelFormat.rgba8888 = PixelFormat.rgba8

-- The frame buffer over `stride * height` bytes of the device.
pub from_mmio : ℕ → ℕ → ℕ → PixelFormat → List ℕ → Framebuffer
from_mmio width height stride format pixels = record {
  width = width;
  height = height;
  stride = stride;
  format = format;
  pixels = pixels;
}

-- `mapped` are the bytes of the device at an address.
pub init : (ℕ → ℕ → List ℕ) → Option FramebufferInfo → List Monitor → List Monitor
init mapped none v = (register_monitor (new_virtual (codes "monitor0") 1280 720) v).1
init mapped (some fb) v =
    (register_monitor
      (new_physical (codes "fb0") (
        from_mmio fb.width fb.height fb.stride_bytes (format_of fb.format)
          (mapped fb.base (fb.stride_bytes * fb.height))))
      v).1
