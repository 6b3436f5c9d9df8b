-- ===== src/Hal/Dtb/Tests.antt =====
-- kernel/src/hal/dtb.rs: the theorems at a tree with one bank of memory, and runs of the parser.
use hyperion_os.Base.{
  arith, ℕ, ◌+◌, ◌≡◌, refl, List, [], ◌∷◌, ◌++◌, some, Bool, true, false, leb, if◌then◌else◌,
  length, take,
}
use hyperion_os.Base.Text.{codes}
use hyperion_os.Hal.BootInfo.{BootInfo, MemoryRegion, as_slice, push, empty, qemu_virt_fallback}
use hyperion_os.Hal.Dtb.Bytes.{be32, be64, be_word, from_be, until_nul, cstr, read_cells}
use hyperion_os.Hal.Dtb.Nodes.{
  default_ctx, no_props, handle_prop, set_reg, parent_cells, act_on_node, add_memory, is_fallback,
  path_matches_node, last_matches, uart_kind_for,
}
use hyperion_os.Hal.Dtb.Walk.{
  blocks, cut_blocks, fdt_magic, Walk, walk, round, open_ctx, open_props, leave, act,
  parse_or_fallback,
}
use hyperion_os.Hal.Dtb.Ends.{Goes, round-Goes, walk_ends}
use hyperion_os.Hal.Dtb.Tokens.{Token, begin, end, property, no_op, be_bytes, encode, run}
use hyperion_os.Hal.Dtb.Decode.{walk-encode}
use hyperion_os.Hal.Dtb.Parse.{Ends, IsBytes-take, parse_or_fallback-Ends}
use hyperion_os.Hal.Dtb.Fuel.{IsBytes}

-- Text of 7-bit bytes.
abbrev is_ascii : List ℕ → Bool
is_ascii [] = true
is_ascii (b ∷ bs) = if leb 128 b then false else is_ascii bs

abbrev strings : List ℕ
strings = codes "reg" ++ (0 ∷ [])

-- A node of memory with a 64-bit base and a 32-bit size.
abbrev bank : ℕ → ℕ → List Token → List Token
bank base size ts =
    begin (codes "memory@0")
    ∷ property 0 (be_bytes 0 ++ (be_bytes base ++ be_bytes size))
    ∷ end
    ∷ ts

abbrev tree : List Token
tree = begin [] ∷ no_op ∷ bank 2147483648 4096 (end ∷ [])

abbrev info : BootInfo
info = record qemu_virt_fallback { fw_table_addr = 4096 }

abbrev start : Walk
start = record { cursor = 0; ctx = default_ctx; props = no_props; info = info }

round-Goes_example : Goes (length (encode tree)) 0 (round is_ascii (encode tree) strings start)
unfolding default_ctx no_props
round-Goes_example =
    round-Goes is_ascii (encode tree) (omega arith) (ground arith) strings start
      (omega arith, refl, refl, refl, refl, refl, refl, refl)

walk_ends_example : (b : BootInfo) × (walk is_ascii (encode tree) strings info ≡ some b)
walk_ends_example = walk_ends is_ascii (encode tree) (omega arith) (ground arith) strings info

walk-encode_example :
    walk is_ascii (encode tree) strings info
    ≡ some (run is_ascii strings tree (default_ctx, no_props) info)
walk-encode_example = walk-encode is_ascii strings tree info (omega arith) (ground arith)

-- The banks of the description that the tokens give.
abbrev banks : List Token → List MemoryRegion
banks ts = as_slice (run is_ascii strings ts (default_ctx, no_props) info).memory

one_bank : banks tree ≡ record { base = 2147483648; size = 4096 } ∷ []
unfolding run act act_on_node open_ctx open_props leave handle_prop set_reg parent_cells read_cells
    be32 be64 be_word from_be cstr until_nul default_ctx no_props add_memory is_fallback as_slice
    push empty qemu_virt_fallback uart_kind_for
one_bank = refl

-- A first bank that is the one of the fallback is taken for it, and is lost behind the second.
first_bank_lost :
    banks (begin [] ∷ bank 1073741824 268435456 (bank 2147483648 4096 (end ∷ [])))
    ≡ record { base = 2147483648; size = 4096 } ∷ []
unfolding run act act_on_node open_ctx open_props leave handle_prop set_reg parent_cells read_cells
    be32 be64 be_word from_be cstr until_nul default_ctx no_props add_memory is_fallback as_slice
    push empty qemu_virt_fallback uart_kind_for
first_bank_lost = refl

alias_unmatched : path_matches_node (codes "serial0:115200n8") (codes "pl011@9000000") ≡ false
unfolding path_matches_node last_matches
alias_unmatched = refl

path_matched : path_matches_node (codes "/pl011@9000000") (codes "pl011@9000000") ≡ true
unfolding path_matches_node last_matches
path_matched = refl

abbrev blob : List ℕ
blob =
    be_bytes fdt_magic
    ++ be_bytes (44 + length (encode tree))
    ++ be_bytes 40
    ++ be_bytes (40 + length (encode tree))
    ++ be_bytes 0
    ++ be_bytes 17
    ++ be_bytes 16
    ++ be_bytes 0
    ++ be_bytes 4
    ++ be_bytes (length (encode tree))
    ++ encode tree
    ++ strings

blob-IsBytes : IsBytes blob
blob-IsBytes = ground arith

parse_or_fallback-Ends_example : Ends (parse_or_fallback is_ascii (λ a n. take n blob) 4096)
parse_or_fallback-Ends_example =
    parse_or_fallback-Ends is_ascii (λ a n. take n blob) 4096
      (λ a n. IsBytes-take n blob blob-IsBytes)

blob_walked : blocks (take 108 blob) 108 ≡ some (encode tree, strings)
unfolding blocks cut_blocks be32 be_word from_be
blob_walked = refl
