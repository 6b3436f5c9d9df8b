-- ===== src/Mm/Vmm/Tests.antt =====
-- kernel/src/mm/vmm.rs: the theorems at an address space with one page mapped.
use hyperion_os.Mm.Vmm.{new_unmaterialised}
use hyperion_os.Base.{◌≡◌, refl, some, []}
use hyperion_os.Base.Result.{ok, err}
use hyperion_os.Base.BTreeMap
use hyperion_os.Base.Ord.{nat_ord}
use hyperion_os.Mm.Pmm.{Pmm}
use hyperion_os.Mm.Vmm.{
  AddressSpace, MapError, map, unmap, translate, checks, normalise_len, ensure_page_aligned,
  checked_end, check_overlaps, commit, ensure_root,
}
use hyperion_os.Mm.Vmm.Valid.{IsValid, map-IsValid, unmap-IsValid}
use hyperion_os.Mm.Vmm.Translate.{
  lookup, translate-lookup, translate-map, map_error, translate-unmap, Unmapped,
}

abbrev frames : Pmm
frames = record {
  bitmap = [];
  base = 0;
  num_frames = 0;
  next_hint = 0;
  free_frames = 0;
  total_bytes = 0;
}

abbrev rooted : AddressSpace
rooted = record { root = 4096; mappings = [] }

abbrev mapped : AddressSpace
mapped = (map 8192 16384 5000 rooted frames).1

rooted-IsValid : IsValid rooted
rooted-IsValid = tt

mapped-IsValid : IsValid mapped
mapped-IsValid = map-IsValid rooted frames 8192 16384 5000 rooted-IsValid

mapped_ok : (map 8192 16384 5000 rooted frames).0 ≡ ok tt
unfolding map checks normalise_len ensure_page_aligned checked_end check_overlaps commit ensure_root
mapped_ok = refl

map_unaligned : (map 8193 16384 5000 rooted frames).0 ≡ err MapError.unaligned
unfolding map checks normalise_len ensure_page_aligned checked_end check_overlaps commit ensure_root
map_unaligned = refl

map-IsValid_example : IsValid mapped
map-IsValid_example = map-IsValid rooted frames 8192 16384 5000 rooted-IsValid

unmap-IsValid_example : IsValid (unmap 8192 mapped).1
unmap-IsValid_example = unmap-IsValid 8192 mapped mapped-IsValid

translate-lookup_example : translate mapped 9000 ≡ lookup mapped.mappings 9000
translate-lookup_example = translate-lookup mapped 9000 mapped-IsValid

translate-map_example : translate mapped 9000 ≡ some 17192
translate-map_example = translate-map rooted frames 8192 16384 5000 9000 rooted-IsValid mapped_ok

map_error_example : map 8193 16384 5000 rooted frames ≡ (err MapError.unaligned, rooted, frames)
map_error_example = map_error rooted frames 8193 16384 5000 MapError.unaligned map_unaligned

translate-unmap_example :
    Unmapped mapped 8192 9000 (BTreeMap.get 8192 mapped.mappings) (unmap 8192 mapped)
translate-unmap_example = translate-unmap mapped 8192 9000 mapped-IsValid

unmaterialised_root : new_unmaterialised.root ≡ 0
unfolding new_unmaterialised
unmaterialised_root = refl
