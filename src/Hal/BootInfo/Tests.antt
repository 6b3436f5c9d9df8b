-- ===== src/Hal/BootInfo/Tests.antt =====
-- kernel/src/hal/boot_info.rs: the theorems at a hand-off with two banks.
use hyperion_os.Base.{◌≡◌, refl, [], ◌∷◌, none, some, true, ◌++◌, take}
use hyperion_os.Hal.BootInfo.{
  BootInfo, UefiHandoff, MemoryRegion, ConsoleKind, IntcKind, console_kind_of, intc_kind_of,
  framebuffer_of, assemble, to_boot_info, memory_of, push_all, empty, as_slice, largest,
  total_bytes, sum_sizes, qemu_virt_fallback, qemu_q35_fallback, uefi_handoff_magic,
}
use hyperion_os.Hal.BootInfo.Memory.{Largest, largest_lem, sized, push_all_lem, empty-IsValid}
use hyperion_os.Hal.BootInfo.Handoff.{is_some, to_boot_info-known, handoff_memory}

abbrev low : MemoryRegion
low = record { base = 4096; size = 8192 }

abbrev hole : MemoryRegion
hole = record { base = 16384; size = 0 }

abbrev high : MemoryRegion
high = record { base = 65536; size = 1048576 }

abbrev two_banks : UefiHandoff
two_banks = record {
  magic = uefi_handoff_magic;
  version = 1;
  console_kind = 1;
  console_base = 1016;
  console_size = 8;
  console_clock_hz = 0;
  intc_kind = 2;
  intc_primary_base = 0;
  intc_primary_size = 0;
  intc_secondary_base = 0;
  intc_secondary_size = 0;
  timer_freq_hz = 0;
  memory_len = 3;
  memory = low ∷ hole ∷ high ∷ low ∷ [];
  framebuffer_present = 0;
  framebuffer_base = 0;
  framebuffer_size = 0;
  framebuffer_width = 0;
  framebuffer_height = 0;
  framebuffer_stride_bytes = 0;
  framebuffer_bpp = 0;
  framebuffer_format = 9;
  fw_table_addr = 0;
}

abbrev machine : BootInfo
machine = record {
  console = record {
    kind = ConsoleKind.ns16550;
    regs = record { base = 1016; size = 8 };
    clock_hz = 0;
  };
  memory = memory_of two_banks;
  intc = record {
    kind = IntcKind.apic;
    primary = record { base = 0; size = 0 };
    secondary = record { base = 0; size = 0 };
  };
  timer_freq_hz = 0;
  framebuffer = none;
  fw_table_addr = 0;
}

accepted : to_boot_info two_banks ≡ some machine
unfolding to_boot_info assemble console_kind_of intc_kind_of framebuffer_of
accepted = refl

handoff_memory_example : as_slice machine.memory ≡ sized (low ∷ hole ∷ high ∷ [])
handoff_memory_example = handoff_memory two_banks machine accepted

to_boot_info-known_example : is_some (to_boot_info two_banks) ≡ true
to_boot_info-known_example = to_boot_info-known two_banks

largest_lem_example : Largest (as_slice machine.memory) (largest machine.memory)
largest_lem_example = largest_lem machine.memory

push_all_lem_example :
    as_slice (push_all (low ∷ hole ∷ []) empty) ≡ take 8 (as_slice empty ++ sized (low ∷ hole ∷ []))
push_all_lem_example = push_all_lem (low ∷ hole ∷ []) empty empty-IsValid

virt_bytes : total_bytes qemu_virt_fallback.memory ≡ 268435456
unfolding total_bytes sum_sizes as_slice qemu_virt_fallback empty
virt_bytes = refl

q35_bytes : total_bytes qemu_q35_fallback.memory ≡ 134217728
unfolding total_bytes sum_sizes as_slice qemu_q35_fallback empty
q35_bytes = refl
