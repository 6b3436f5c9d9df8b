-- ===== src/Mm/Address/Tests.antt =====
-- kernel/src/mm/address.rs: the alignments at one page.
use hyperion_os.Base.{◌≡◌, arith}
use hyperion_os.Mm.Address.{align_down, align_up, align_lem}

align_lem_example : (align_down 5000 4096 ≡ 4096) × (align_up 5000 4096 ≡ 8192)
align_lem_example = align_lem 12 5000 (omega arith) (omega arith)
