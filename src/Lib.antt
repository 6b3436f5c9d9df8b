-- ===== src/Lib.antt =====
-- Hyperion OS: a model of the kernel's core, with the theorems that make it correct.
--
-- The kernel under kernel/src hands out frames of memory (mm/pmm.rs), keeps the mappings of
-- address spaces over them (mm/vmm.rs), runs threads by turns (proc), passes messages between
-- them through ports that capabilities name (ipc), keeps files in memory (fs), learns of the
-- machine from its firmware (hal), draws on screens (display, ui), and drives virtio devices
-- through rings that it shares with them (drivers/virtio/queue.rs). Each part keeps its state
-- under one lock. Here the state is a record, an operation is a function from the state to
-- its result and the new state, and what happens while the lock is free, such as the calls of
-- other threads, is an argument or a list of calls.
--
-- Which file models which part:
--   Mm.Address: kernel/src/mm/address.rs, the alignments align_down and align_up.
--   Mm.Pmm: kernel/src/mm/pmm.rs. Pmm is the locked state with its two counters; init,
--     alloc_frame, free_frame. The children: Bitmap for the bits, Valid for the invariant,
--     Alloc and Init for what the operations do.
--   Mm.Vmm: kernel/src/mm/vmm.rs. AddressSpace; map, unmap, translate, and the checks of map
--     one by one. The children: Valid for the invariant, Translate for the specification of a
--     translation.
--   Ipc.Caps: kernel/src/ipc/caps.rs, the capability table.
--   Ipc.Port: kernel/src/ipc/port.rs, messages and ports; Fifo is about rows of calls,
--     Blocking about a receiver or a sender that yields. Ipc.Registry is the registry of
--     ports, over a store that stands for the shared references.
--   Drivers.Virtqueue: kernel/src/drivers/virtio/queue.rs. Links describes the free list and
--     the chains as lists of indices, Chains and Free allocate and free, Rings and Used are
--     the available and the used ring.
--   Drivers.Blk: kernel/src/drivers/virtio/blk.rs, the requests of the block device. Filled
--     is about the descriptors of a request, Served about its end; the device is a function
--     from what it is given to what it leaves in memory.
--   Drivers.Transmit: kernel/src/drivers/virtio/net.rs, the sending of a frame over the
--     transmit queue.
--   Drivers.Net: kernel/src/drivers/net/mod.rs, the reply to an echo packet. Checksum is
--     about its checksum, Frames about the bytes of the reply, Sums and Header about the sum
--     of its header, Echo about the frames that are answered.
--   Proc.Process, Proc.Thread, Proc.Scheduler, Proc.PerCpu: the files of those names in
--     kernel/src/proc. Rotation is about the order in which threads run, Valid about their
--     states and identifiers.
--   Fs.Ramfs: kernel/src/fs/inode.rs and kernel/src/fs/ramfs.rs, nodes in a heap; Bytes is
--     about the contents of a file, Entries about those of a directory, Kept about the
--     entries that stay. Fs.Vfs: kernel/src/fs/vfs.rs, paths and open files; Paths, Files,
--     and Created about a file that open creates.
--   Hal.BootInfo: kernel/src/hal/boot_info.rs, the description of the machine. Memory is
--     about the map of the memory banks, Handoff about what the UEFI stub hands over.
--   Hal.Dtb: kernel/src/hal/dtb.rs, the parser of the device tree. Bytes reads the blob,
--     Nodes acts on properties and nodes, Walk goes over the tokens; the children Fuel, Valid
--     and Ends are about its loops and arrays, Tokens and Decode about the bytes of a list of
--     tokens, Parse about a whole blob.
--   Hal.Multiboot: kernel/src/hal/multiboot.rs, the walk over the tags of a Multiboot block.
--     Entries is about the memory map, Ends about its loops.
--   Display.Framebuffer: kernel/src/display/framebuffer.rs, drawing in a pixel buffer; Pixels
--     and Drawing are about its bounds, Painted and Rects about the pixels that a rectangle
--     paints. Display.Monitor: kernel/src/display/monitor.rs and kernel/src/display/mod.rs,
--     the list of monitors. Display.Compositor: kernel/src/display/compositor.rs, layers
--     copied to a monitor; Blit is about its bounds.
--   Ui.Font, Ui.Canvas, Ui.Widgets: the files of those names in kernel/src/ui. Words is their
--     type i32, Clip is about clipped rectangles, Safe about whole widgets.
--   Shell.Line: kernel/src/shell/mod.rs, the reading of a line; Screen is about what the
--     terminal shows. Shell.Files: kernel/src/shell/commands.rs, the commands on files;
--     Failed is about their failures.
--   Syscall: libos-api/src/syscall.rs and kernel/src/syscall/mod.rs, the numbers of the
--     system calls and their dispatch.
--   Base: the names and lemmas that the parts share; Text has the literals and the functions
--     of str; BTreeMap is the ordered map of the standard library as a sorted list, Ord the
--     order of its keys, Result the results with an error.
--
-- Conventions. Machine integers are natural numbers; an addition that can wrap in the release
-- profile is taken modulo 2^16, 2^32 or 2^64, and usize has 64 bits. A panic, where a caller
-- can meet one, is the result none. An index that the code takes as in range reads a default
-- outside.
--
-- Fuel. Virtqueue.free_from has as much fuel as the table has descriptors, since a chain
-- visits each at most once; Vfs.read_loop one round for each byte of the file and one more,
-- since a round reads a byte or is the last; Dtb.Walk.rounds and Dtb.Walk.skip one round for
-- each byte of the structure block and one more, since each round but the last moves the
-- cursor forward; Multiboot.scan one round for each byte of the block and
-- Multiboot.read_entries one for each byte of the tag, and one more; Net.fold four rounds,
-- since each but the last takes a carry off a sum of 32 bits. The other loops are structural:
-- over the frames, the mappings, the descriptors asked for, the components of a path. A
-- spinning call, Port.recv or Virtqueue.wait_used, takes the list of what happens between its
-- polls.
--
-- Not modelled: assembly, device registers and page tables of the machine, the heap of the
-- linked_list_allocator crate, the saved registers of a thread, and logging. Canvas::line,
-- the receiving of frames and the commands of the shell that do not work on files are not
-- modelled either.
pub mod Base
pub mod Mm
pub mod Ipc
pub mod Drivers
pub mod Proc
pub mod Fs
pub mod Hal
pub mod Display
pub mod Ui
pub mod Shell
pub mod Syscall
