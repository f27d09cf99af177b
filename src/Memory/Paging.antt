-- ===== src/Memory/Paging.antt =====
-- kernel/src/memory/paging.rs, the four-level page tables. The model of physical memory has a view by
-- table, address of a frame and index of an entry, and a view by byte; every table starts at the
-- address of a frame. A result `none` is a panic: no frame is left, or pmm.rs panics.
pub mod Entries
pub mod Tree
pub mod Next
pub mod Walk
pub mod Spaces
pub mod Unmap
pub mod Supply
pub mod Fresh
pub mod Small
mod Tests
use moon_os.Common.{
  ℕ, zero, suc, ◌+◌, ◌-◌, ◌*◌, ◌/◌, ◌%◌, ◌^◌, bit_and, bit_or, ◌&&◌, Option, none, some, List, [],
  ◌∷◌, ltb, leb, ◌==◌, if◌then◌else◌, ◌>>=◌,
}
use moon_os.Memory.Pmm.{BitmapAllocator, alloc_frame}

pub record Machine : Type 0 where
  pub frames : Option BitmapAllocator
  pub tables : ℕ → ℕ → ℕ
  pub bytes : ℕ → ℕ
  pub cr3 : ℕ
  pub flushed : List ℕ

abbrev pub flag_present : ℕ
flag_present = 1

abbrev flag_writable : ℕ
flag_writable = 2

abbrev pub flag_user : ℕ
flag_user = 4

-- `0x000f_ffff_ffff_f000`.
abbrev pub addr_mask : ℕ
addr_mask = (2 ^ 40 - 1) * 2 ^ 12

abbrev higher_half_start : ℕ
higher_half_start = 256

unfoldable pub read_cr3 : Machine → ℕ
read_cr3 s = bit_and s.cr3 addr_mask

switch_to : ℕ → Machine → Machine
unfolding read_cr3
switch_to pml4 s = if read_cr3 s == pml4 then s else record s { cr3 = pml4 }

-- `core::ptr::write(table.add(index), value)`.
pub write_entry : ℕ → ℕ → ℕ → Machine → Machine
write_entry t i value s = record s {
  tables = λ u j. if u == t && j == i then value else s.tables u j;
}

-- `write_bytes(frame, 0, 4096)`, in both views.
unfoldable pub zero_frame : ℕ → Machine → Machine
zero_frame f s = record s {
  tables = λ u j. if u == f then 0 else s.tables u j;
  bytes = λ p. if leb f p && ltb p (f + 4096) then 0 else s.bytes p;
}

-- `alloc_frame().expect(..)`.
unfoldable pub take_frame : Machine → Option (ℕ × Machine)
unfolding alloc_frame
take_frame s = do
  (found, frames) ← alloc_frame s.frames
  frame ← found
  some (frame, record s { frames = frames })

abbrev pub page_indices : ℕ → List ℕ
page_indices virt =
    (virt / 2 ^ 39 % 512)
    ∷ (virt / 2 ^ 30 % 512)
    ∷ (virt / 2 ^ 21 % 512)
    ∷ (virt / 2 ^ 12 % 512)
    ∷ []

-- The address in a present entry.
unfoldable pub follow : (ℕ → ℕ → ℕ) → ℕ → ℕ → Option ℕ
follow tables t i =
    if bit_and (tables t i) flag_present == 0 then none else some (bit_and (tables t i) addr_mask)

pub table_entry : ℕ → ℕ → ℕ
table_entry frame extra = bit_or (bit_or (bit_or frame flag_present) flag_writable) extra

unfoldable pub fresh_table : ℕ → ℕ → ℕ → Machine → Option (ℕ × Machine)
unfolding table_entry write_entry zero_frame take_frame
fresh_table t i extra s = do
  (frame, s1) ← take_frame s
  some (frame, write_entry t i (table_entry frame extra) (zero_frame frame s1))

unfoldable pub next_table : ℕ → ℕ → ℕ → Machine → Option (ℕ × Machine)
unfolding follow fresh_table
next_table t i extra s = elim (follow s.tables t i) [
  | some u ↦ some (u, s)
  | none ↦ fresh_table t i extra s
]

pub invalidate : ℕ → ℕ → Machine → Machine
unfolding read_cr3
invalidate root virt s = if root == read_cr3 s then record s { flushed = virt ∷ s.flushed } else s

pub leaf_entry : ℕ → ℕ → ℕ
leaf_entry phys flags = bit_or (bit_or (bit_and phys addr_mask) flags) flag_present

unfoldable pub map_in : ℕ → ℕ → ℕ → ℕ → Machine → Option Machine
unfolding invalidate leaf_entry write_entry
map_in root virt phys flags s = do
  let extra = bit_and flags flag_user
  (pdpt, s1) ← next_table root (virt / 2 ^ 39 % 512) extra s
  (pd, s2) ← next_table pdpt (virt / 2 ^ 30 % 512) extra s1
  (pt, s3) ← next_table pd (virt / 2 ^ 21 % 512) extra s2
  some (invalidate root virt (write_entry pt (virt / 2 ^ 12 % 512) (leaf_entry phys flags) s3))

-- The page table of a page, which `unmap_in` and `translate_in` walk to.
unfoldable pub page_table : (ℕ → ℕ → ℕ) → ℕ → ℕ → Option ℕ
unfolding follow
page_table tables root virt = do
  pdpt ← follow tables root (virt / 2 ^ 39 % 512)
  pd ← follow tables pdpt (virt / 2 ^ 30 % 512)
  follow tables pd (virt / 2 ^ 21 % 512)

pub unmap_in : ℕ → ℕ → Machine → Machine
unfolding page_table invalidate write_entry
unmap_in root virt s = elim (page_table s.tables root virt) [
  | none ↦ s
  | some pt ↦ invalidate root virt (write_entry pt (virt / 2 ^ 12 % 512) 0 s)
]

unfoldable pub translate_in : ℕ → ℕ → Machine → Option ℕ
unfolding page_table follow
translate_in root virt s = do
  pt ← page_table s.tables root virt
  frame ← follow s.tables pt (virt / 2 ^ 12 % 512)
  some (frame + virt % 4096)

map_page : ℕ → ℕ → ℕ → Machine → Option Machine
unfolding map_in read_cr3
map_page virt phys flags s = map_in (read_cr3 s) virt phys flags s

unmap_page : ℕ → Machine → Machine
unfolding unmap_in read_cr3
unmap_page virt s = unmap_in (read_cr3 s) virt s

translate : ℕ → Machine → Option ℕ
unfolding translate_in read_cr3
translate virt s = translate_in (read_cr3 s) virt s

-- The loop of `AddressSpace::new`, with the rounds that are left.
pub copy_entries : ℕ → ℕ → ℕ → ℕ → Machine → Machine
unfolding write_entry
copy_entries zero i boot root s = s
copy_entries (suc n) i boot root s =
    copy_entries n (i + 1) boot root (write_entry root i (s.tables boot i) s)

-- `AddressSpace::new`: the space's PML4.
pub new_space : Machine → Option (ℕ × Machine)
new_space s = do
  (root, s1) ← take_frame s
  let s2 = zero_frame root s1
  some (root, copy_entries (512 - higher_half_start) higher_half_start (read_cr3 s2) root s2)
