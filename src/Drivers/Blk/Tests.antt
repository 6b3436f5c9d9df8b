-- ===== src/Drivers/Blk/Tests.antt =====
-- kernel/src/drivers/virtio/blk.rs: the theorem at a device that reads sector 7.
use hyperion_os.Base.{[], ◌∷◌}
use hyperion_os.Drivers.Virtqueue.{Virtqueue, new}
use hyperion_os.Drivers.Blk.{Buffers, Device}
use hyperion_os.Drivers.Blk.Served.{Served}

abbrev buffers : Buffers
buffers = record { header = 4096; data_buf = 8192; status = 12288 }

-- The device answers at the second poll: descriptor 0, with 513 bytes written.
abbrev disk : Device
disk header bytes q = record {
  rings = (0 ∷ 0 ∷ 1 ∷ 0 ∷ 0 ∷ 0 ∷ 0 ∷ 0 ∷ 1 ∷ 2 ∷ 0 ∷ 0 ∷ []) ∷ [];
  contents = header.sector ∷ [];
  code = 0;
}

abbrev queue : Virtqueue
queue = new 4
