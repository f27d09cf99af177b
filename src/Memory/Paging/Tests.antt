-- ===== src/Memory/Paging/Tests.antt =====
-- paging.rs at concrete inputs.
use moon_os.Common.{ℕ, ◌+◌, ◌*◌, ◌%◌, bit_and, ◌≡◌, refl, Option, none, some, if◌then◌else◌}
use moon_os.Memory.Paging.Supply.{map_in-returns}
use moon_os.Memory.Paging.Unmap.{translate_in-unmap_in, unmap_in-IsSpace}
use moon_os.Memory.Pmm.{alloc_frame, alloc, is_free, mark}
use moon_os.Memory.Paging.Small.{machine_or, small, small-IsSpace, small-Supplies}
use moon_os.Memory.Paging.Spaces.{IsSpace, map_in-IsSpace, same_page, translate_in-map_in}
use moon_os.Memory.Paging.{
  Machine, map_in, new_space, translate_in, next_table, page_table, take_frame, unmap_in, addr_mask,
  follow, read_cr3, fresh_table, table_entry, leaf_entry, zero_frame, write_entry, invalidate,
}
use moon_os.Memory.Paging.Fresh.{Opens, new_space_lem}

mapped : Machine
mapped = machine_or small (map_in 4096 0x400000 0x2000 7 small)

mapped_lem : map_in 4096 0x400000 0x2000 7 small ≡ some mapped
unfolding mapped map_in next_table follow fresh_table take_frame alloc_frame alloc is_free mark
mapped_lem = refl

translate_mapped : translate_in 4096 0x400123 mapped ≡ some 0x2123
unfolding mapped translate_in page_table map_in next_table follow fresh_table table_entry take_frame
    alloc_frame alloc is_free mark leaf_entry zero_frame write_entry invalidate
translate_mapped = refl

map_in-IsSpace_example : IsSpace mapped 4096
map_in-IsSpace_example = map_in-IsSpace small mapped 4096 0x400000 0x2000 7 small-IsSpace mapped_lem

translate_in-map_in_example : translate_in 4096 0x400123 mapped ≡ (
    if same_page 0x400123 0x400000
    then some (bit_and 0x2000 addr_mask + 0x400123 % 4096)
    else translate_in 4096 0x400123 small)
translate_in-map_in_example =
    translate_in-map_in small mapped 4096 0x400000 0x2000 7 small-IsSpace mapped_lem refl 0x400123

unmap_in-IsSpace_example : IsSpace (unmap_in 4096 0x400000 mapped) 4096
unmap_in-IsSpace_example =
    unmap_in-IsSpace mapped 4096 0x400000
      (map_in-IsSpace small mapped 4096 0x400000 0x2000 7 small-IsSpace mapped_lem)

translate_in-unmap_in_example :
    translate_in 4096 0x400123 (unmap_in 4096 0x400000 mapped)
    ≡ (if same_page 0x400123 0x400000 then none else translate_in 4096 0x400123 mapped)
translate_in-unmap_in_example =
    translate_in-unmap_in mapped 4096 0x400000
      (map_in-IsSpace small mapped 4096 0x400000 0x2000 7 small-IsSpace mapped_lem) 0x400123

pair_or : ℕ × Machine → Option (ℕ × Machine) → ℕ × Machine
pair_or s none = s
pair_or s (some t) = t

opened : Machine
unfolding pair_or
opened = (pair_or (0, small) (new_space small)).1

opened_lem : new_space small ≡ some (3 * 4096, opened)
unfolding opened new_space take_frame alloc_frame alloc is_free mark read_cr3 zero_frame
opened_lem = refl

new_space_lem_example : Opens small (read_cr3 small) (3 * 4096) opened
unfolding read_cr3
new_space_lem_example = new_space_lem small opened (3 * 4096) small-IsSpace opened_lem

map_in-returns_example : (s' : Machine) × (map_in 4096 0x400000 0x2000 7 small ≡ some s')
map_in-returns_example = map_in-returns 4096 0x400000 0x2000 7 small small-Supplies
