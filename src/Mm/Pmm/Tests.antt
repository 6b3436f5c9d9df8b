-- ===== src/Mm/Pmm/Tests.antt =====
-- kernel/src/mm/pmm.rs: the allocator's theorems at a bank of eight pages.
use hyperion_os.Mm.Pmm.{free_bytes}
use hyperion_os.Base.{
  ◌≡◌, ◌≤◌, ◌*◌, ◌-◌, refl, some, [], true, if◌then◌else◌, ◌/◌, ◌+◌, ◌&&◌, not, arith,
}
use hyperion_os.Mm.Pmm.{
  Pmm, Bank, init, pool_frames, pool_base, alloc_frame, alloc_from, take_frame, free_frame,
  is_clear, page_size,
}
use hyperion_os.Mm.Pmm.Valid.{IsValid, alloc_frame-IsValid, free_frame-IsValid}
use hyperion_os.Mm.Pmm.Alloc.{Alloc, alloc_frame_lem, owns, free_frame_lem, free_frame-alloc_frame}
use hyperion_os.Mm.Pmm.Init.{init-IsValid}

abbrev blank : Pmm
blank = record {
  bitmap = [];
  base = 0;
  num_frames = 0;
  next_hint = 0;
  free_frames = 0;
  total_bytes = 0;
}

abbrev bank : Bank
bank = record { base = 8192; size = 32768 }

abbrev fresh : Pmm
fresh = init (some bank) 12288 blank

fresh-IsValid : IsValid fresh
fresh-IsValid = (init-IsValid bank 12288 blank (omega arith)).0

first_frame : (alloc_frame fresh).0 ≡ some 12288
unfolding alloc_frame alloc_from take_frame is_clear init pool_frames pool_base
first_frame = refl

init-IsValid_example :
    IsValid fresh
    × (fresh.free_frames ≡ fresh.num_frames)
    × (12288 ≤ fresh.base)
    × (fresh.num_frames * page_size ≤ 40960 - fresh.base)
init-IsValid_example = init-IsValid bank 12288 blank (omega arith)

alloc_frame_lem_example : Alloc fresh (alloc_frame fresh)
alloc_frame_lem_example = alloc_frame_lem fresh fresh-IsValid

alloc_frame-IsValid_example : IsValid (alloc_frame fresh).1
alloc_frame-IsValid_example = alloc_frame-IsValid fresh fresh-IsValid

free_frame-IsValid_example : IsValid (free_frame 12288 fresh)
free_frame-IsValid_example = free_frame-IsValid 12288 fresh fresh-IsValid

free_frame-alloc_frame_example :
    (is_clear (free_frame 12288 (alloc_frame fresh).1).bitmap 0 ≡ is_clear fresh.bitmap 0)
    × ((free_frame 12288 (alloc_frame fresh).1).free_frames ≡ fresh.free_frames)
free_frame-alloc_frame_example = free_frame-alloc_frame fresh 12288 0 fresh-IsValid first_frame

free_frame_lem_example :
    (is_clear (free_frame 12288 fresh).bitmap 1
      ≡ (if owns fresh 12288 1 then true else is_clear fresh.bitmap 1))
    × ((free_frame 12288 fresh).free_frames ≡ (
        if owns fresh 12288 ((12288 - fresh.base) / page_size)
          && not (is_clear fresh.bitmap ((12288 - fresh.base) / page_size))
        then fresh.free_frames + 1
        else fresh.free_frames))
    × ((free_frame 12288 fresh).base ≡ fresh.base)
    × ((free_frame 12288 fresh).num_frames ≡ fresh.num_frames)
    × ((free_frame 12288 fresh).next_hint ≡ fresh.next_hint)
free_frame_lem_example = free_frame_lem 12288 fresh 1 fresh-IsValid

fresh_bytes : free_bytes fresh ≡ 28672
unfolding free_bytes init pool_frames pool_base
fresh_bytes = refl
