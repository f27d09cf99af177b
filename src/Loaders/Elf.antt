-- ===== src/Loaders/Elf.antt =====
-- kernel/src/elf.rs, the loader of static ELF64 programs. Addresses are u64 and wrap.
pub mod Segments
pub mod Copies
pub mod Checks
mod Tests
use moon_os.Common.{
  ℕ, zero, suc, ◌+◌, ◌-◌, ◌*◌, ◌/◌, ◌%◌, ◌^◌, min, bit_and, Bool, true, false, ◌&&◌, not, Option,
  none, some, [], ◌∷◌, ltb, leb, ◌==◌, if◌then◌else◌, length, get_or, take, slice,
}
use moon_os.Memory.Pmm.{div_ceil}
use moon_os.Memory.Paging.{translate_in, zero_frame, map_in}
use moon_os.Common.Bytes.{Bytes, bytes_eq}
use moon_os.Loaders.Outcome.{
  Outcome, done, failed, panicked, Load, ◌>>=◌, ◌>>◌, return, require, ok_or, or_panic,
  map_or_panic, alloc_frame_or, word, add64, page_base, write_bytes,
}
use moon_os.Loaders.Outcome.{
  LoadError, not_elf, not_64_bit, not_little_endian, not_exec, not_x86_64, header_out_of_bounds,
  segment_out_of_memory, page_vanished,
}

abbrev pub elf_magic : Bytes
elf_magic = 0x7F ∷ b'E' ∷ b'L' ∷ b'F' ∷ []

-- The rounds of the mapping loop: a frame for each page, zeroed and mapped.
unfoldable pub map_pages : ℕ → ℕ → ℕ → ℕ → LoadError → Load (Unit {0})
unfolding map_or_panic alloc_frame_or zero_frame map_in
map_pages zero root page flags e = return tt
map_pages (suc n) root page flags e = do
  frame ← alloc_frame_or e
  λ s. map_or_panic (map_in root page frame flags (zero_frame frame s))
  map_pages n root (page + 4096) flags e

-- `page_flags`.
pub segment_flags : Bool → ℕ
segment_flags writable = if writable then 7 else 5

-- `end_page`.
pub end_page : ℕ → ℕ → ℕ
end_page vaddr memsz = div_ceil (add64 vaddr memsz) 4096 * 4096 % 2 ^ 64

-- `&data[from..to]` panics out of range.
pub part : Bytes → ℕ → ℕ → Option Bytes
part content from to =
    if leb from to && leb to (length content) then some (slice from to content) else none

-- The copying loop, a page at a time, with the rounds that are left.
pub copy_pages : ℕ → ℕ → Bytes → ℕ → ℕ → ℕ → ℕ → Load (Unit {0})
unfolding part write_bytes translate_in
copy_pages zero root content offset vaddr filesz copied s = done tt s
copy_pages (suc fuel) root content offset vaddr filesz copied s = elim (ltb copied filesz) [
  | false ↦ done tt s
  | true ↦
      let va = add64 vaddr copied in
      let page_off = va - page_base va in
      let chunk = min (4096 - page_off) (filesz - copied) in
      (do
        phys ← ok_or (translate_in root (page_base va) s) page_vanished
        src ← or_panic (part content (add64 offset copied) (add64 (add64 offset copied) chunk))
        λ s1. done tt (write_bytes (phys + page_off) src s1)
        copy_pages fuel root content offset vaddr filesz (copied + chunk))
        s
]

pub load_segment : ℕ → Bytes → ℕ → ℕ → ℕ → ℕ → ℕ → Load (Unit {0})
unfolding map_pages segment_flags end_page copy_pages
load_segment root content offset vaddr filesz memsz flags = if memsz == 0 then return tt else (do
  map_pages ((end_page vaddr memsz - page_base vaddr) / 4096) root (page_base vaddr)
      (segment_flags (not (bit_and flags 2 == 0))) segment_out_of_memory
  copy_pages filesz root content offset vaddr filesz 0)

-- The loop over the program headers, with the rounds that are left.
pub load_headers : ℕ → ℕ → ℕ → ℕ → ℕ → Bytes → Load (Unit {0})
unfolding load_segment
load_headers zero i phoff phentsize root content = return tt
load_headers (suc n) i phoff phentsize root content = do
  let ph_off = add64 phoff (i * phentsize)
  require (leb (add64 ph_off 56) (length content)) header_out_of_bounds
  p_type ← or_panic (word 4 content ph_off)
  if p_type == 1
      then (do
        p_flags ← or_panic (word 4 content (ph_off + 4))
        p_offset ← or_panic (word 8 content (ph_off + 8))
        p_vaddr ← or_panic (word 8 content (ph_off + 16))
        p_filesz ← or_panic (word 8 content (ph_off + 32))
        p_memsz ← or_panic (word 8 content (ph_off + 40))
        load_segment root content p_offset p_vaddr p_filesz p_memsz p_flags)
      else return tt
  load_headers n (i + 1) phoff phentsize root content

-- `load`: the entry point.
pub load : ℕ → Bytes → Load ℕ
load root content = do
  require (leb 64 (length content) && bytes_eq (take 4 content) elf_magic) not_elf
  require (get_or content 4 0 == 2) not_64_bit
  require (get_or content 5 0 == 1) not_little_endian
  e_type ← or_panic (word 2 content 16)
  e_machine ← or_panic (word 2 content 18)
  e_entry ← or_panic (word 8 content 24)
  e_phoff ← or_panic (word 8 content 32)
  e_phentsize ← or_panic (word 2 content 54)
  e_phnum ← or_panic (word 2 content 56)
  require (e_type == 2) not_exec
  require (e_machine == 62) not_x86_64
  load_headers e_phnum 0 e_phoff e_phentsize root content
  return e_entry
