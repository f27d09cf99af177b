-- ===== src/Loaders/Pe.antt =====
-- kernel/src/pe.rs, the loader of PE32+ programs. Addresses are u64 and wrap. The machine code of the
-- thunks is what the assembler makes of two templates, and is a parameter: 64 bytes for each.
use moon_os.Common.{
  ℕ, zero, suc, ◌+◌, ◌-◌, ◌*◌, ◌/◌, ◌%◌, ◌^◌, min, bit_and, true, false, ◌&&◌, Option, none, some,
  List, [], ◌∷◌, map, ltb, leb, ◌==◌, if◌then◌else◌, length, get_or, replicate,
}
use moon_os.Memory.Paging.{Machine, translate_in, map_in}
use moon_os.Common.Bytes.{Bytes, bytes_eq, of_le, le_bytes}
use moon_os.Loaders.Outcome.{
  done, failed, Load, ◌>>=◌, ◌>>◌, return, require, ok_or, or_panic, map_or_panic, alloc_frame_or,
  word, add64, page_base, write_bytes, section_page_vanished, section_out_of_memory, patch_failed,
  section_data_out_of_bounds, out_of_fuel, section_header_out_of_bounds, thunks_out_of_memory,
  bad_dos_signature, unsupported_import, bad_thunk_entry, bad_descriptor, too_many_imports,
  bad_nt_signature, ordinal_import, thunk_page_vanished, not_amd64, bad_dll_name, bad_function_name,
  not_pe32_plus,
}
use moon_os.Loaders.Outcome.{LoadError}
use moon_os.Loaders.Elf.{map_pages, end_page, part}

abbrev thunk_page : ℕ
thunk_page = 0x72000000

abbrev thunk_slot_size : ℕ
thunk_slot_size = 64

pub record Section : Type 0 where
  pub virtual_address : ℕ
  pub virtual_size : ℕ
  pub raw_size : ℕ
  pub raw_ptr : ℕ
  pub characteristics : ℕ

-- The copying loop of `load_section`, a page at a time, with the rounds that are left.
copy_raw : ℕ → ℕ → Bytes → ℕ → ℕ → ℕ → ℕ → Load (Unit {0})
copy_raw zero root content raw_ptr base_va raw_size copied s = done tt s
copy_raw (suc fuel) root content raw_ptr base_va raw_size copied s = elim (ltb copied raw_size) [
  | false ↦ done tt s
  | true ↦
      let va = add64 base_va copied in
      let page_off = va - page_base va in
      let chunk = min (4096 - page_off) (raw_size - copied) in
      (do
        phys ← ok_or (translate_in root (page_base va) s) section_page_vanished
        src ← or_panic (part content (raw_ptr + copied) (raw_ptr + copied + chunk))
        λ s1. done tt (write_bytes (phys + page_off) src s1)
        copy_raw fuel root content raw_ptr base_va raw_size (copied + chunk))
        s
]

load_section : ℕ → Bytes → ℕ → Section → Load (Unit {0})
unfolding copy_raw
load_section root content image_base section =
    let mem_size = if section.virtual_size == 0 then section.raw_size else section.virtual_size in
    let flags = if bit_and section.characteristics 0x80000000 == 0 then 5 else 7 in
    let base_va = add64 image_base section.virtual_address in
    if mem_size == 0 then return tt else (do
      map_pages ((end_page base_va mem_size - page_base base_va) / 4096) root (page_base base_va)
          flags section_out_of_memory
      if section.raw_size == 0 then return tt else (do
        require (leb (section.raw_ptr + section.raw_size) (length content))
            section_data_out_of_bounds
        copy_raw section.raw_size root content section.raw_ptr base_va section.raw_size 0))

load_sections : List Section → ℕ → Bytes → ℕ → Load (Unit {0})
unfolding load_section
load_sections [] root content image_base = return tt
load_sections (section ∷ rest) root content image_base = do
  load_section root content image_base section
  load_sections rest root content image_base

read_va_u8 : ℕ → ℕ → Machine → Option ℕ
read_va_u8 root va s = elim (translate_in root (page_base va) s) [
  | none ↦ none
  | some phys ↦ some (s.bytes (phys + va % 4096))
]

prepend : ℕ → Option Bytes → Option Bytes
prepend b none = none
prepend b (some bs) = some (b ∷ bs)

word_of : Option Bytes → Option ℕ
word_of none = none
word_of (some bs) = some (of_le bs)

-- `n` bytes from `va` on.
read_va : ℕ → ℕ → ℕ → Machine → Option Bytes
unfolding read_va_u8 prepend
read_va zero root va s = some []
read_va (suc n) root va s =
    let rest = read_va n root (add64 va 1) s in
    elim (read_va_u8 root va s) [ none ↦ none | some b ↦ prepend b rest ]

read_va_u32 : ℕ → ℕ → Machine → Option ℕ
unfolding read_va word_of
read_va_u32 root va s = word_of (read_va 4 root va s)

read_va_u64 : ℕ → ℕ → Machine → Option ℕ
unfolding read_va word_of
read_va_u64 root va s = word_of (read_va 8 root va s)

write_va_u8 : ℕ → ℕ → ℕ → Load (Unit {0})
unfolding write_bytes
write_va_u8 root va value s = elim (translate_in root (page_base va) s) [
  | none ↦ failed patch_failed s
  | some phys ↦ done tt (write_bytes (phys + va % 4096) (value ∷ []) s)
]

-- `write_va_u64`, with the bytes that are left.
write_va : Bytes → ℕ → ℕ → Load (Unit {0})
unfolding write_va_u8
write_va [] root va = return tt
write_va (b ∷ bs) root va = do write_va_u8 root va b; write_va bs root (add64 va 1)

write_va_u64 : ℕ → ℕ → ℕ → Load (Unit {0})
unfolding write_va
write_va_u64 root va value = write_va (le_bytes 8 value) root va

-- The loop of `read_va_cstr`, with the rounds that are left. Each byte is pushed as a `char`.
read_va_cstr : ℕ → ℕ → ℕ → Machine → Option Bytes
unfolding read_va_u8 prepend
read_va_cstr zero root va s = none
read_va_cstr (suc n) root va s =
    let rest = read_va_cstr n root (add64 va 1) s in
    elim (read_va_u8 root va s) [
      | none ↦ none
      | some b ↦ if b == 0 then some [] else prepend b rest
    ]

to_ascii_uppercase : Bytes → Bytes
to_ascii_uppercase = map (λ b. if leb b'a' b && leb b b'z' then b - 32 else b)

-- The templates' machine code: `exitprocess_thunk` and `writeconsolea_thunk`.
pub record Thunks : Type 0 where
  pub exitprocess : Bytes
  pub writeconsolea : Bytes

abbrev kernel32 : Bytes
kernel32 = b'K' ∷ b'E' ∷ b'R' ∷ b'N' ∷ b'E' ∷ b'L' ∷ b'3' ∷ b'2' ∷ b'.' ∷ b'D' ∷ b'L' ∷ b'L' ∷ []

abbrev exit_process : Bytes
exit_process = b'E' ∷ b'x' ∷ b'i' ∷ b't' ∷ b'P' ∷ b'r' ∷ b'o' ∷ b'c' ∷ b'e' ∷ b's' ∷ b's' ∷ []

abbrev write_console_a : Bytes
write_console_a =
    b'W' ∷ b'r' ∷ b'i' ∷ b't' ∷ b'e' ∷ b'C' ∷ b'o' ∷ b'n' ∷ b's' ∷ b'o' ∷ b'l' ∷ b'e' ∷ b'A' ∷ []

thunk_template_for : Thunks → Bytes → Bytes → Option Bytes
thunk_template_for thunks dll name =
    if bytes_eq dll kernel32 && bytes_eq name exit_process
    then some thunks.exitprocess
    else if bytes_eq dll kernel32 && bytes_eq name write_console_a
    then some thunks.writeconsolea
    else none

-- `read(..).ok_or(..)?`, of the memory as it is.
abbrev read_or : {A : Type 0} → (Machine → Option A) → LoadError → Load A
read_or read e s = ok_or (read s) e s

-- An imported function: its slot is filled, and the import's address is patched.
import_thunk : Thunks → ℕ → Bytes → ℕ → ℕ → Bytes → Load (Unit {0})
unfolding thunk_template_for write_va_u64 write_bytes
import_thunk thunks root dll_name iat_va next_slot fn_name = do
  template ← ok_or (thunk_template_for thunks dll_name fn_name) unsupported_import
  require (ltb next_slot (4096 / thunk_slot_size)) too_many_imports
  slot_page ← read_or (translate_in root thunk_page) thunk_page_vanished
  λ s. done tt (write_bytes (slot_page + next_slot * thunk_slot_size) template s)
  write_va_u64 root iat_va (thunk_page + next_slot * thunk_slot_size)

-- The loop over the functions of one library, with the rounds that are left: the next slot.
import_functions : ℕ → Thunks → ℕ → ℕ → Bytes → ℕ → ℕ → ℕ → ℕ → Load ℕ
unfolding import_thunk read_va_u64 read_va_cstr
import_functions zero thunks root image_base dll_name ilt first_thunk idx next_slot s = out_of_fuel
import_functions (suc n) thunks root image_base dll_name ilt first_thunk idx next_slot s =
    (do
      entry ← read_or (read_va_u64 root (add64 (add64 image_base ilt) (idx * 8))) bad_thunk_entry
      λ s1. elim (entry == 0) [
        | true ↦ done next_slot s1
        | false ↦
            (do
              require (ltb entry (2 ^ 63)) ordinal_import
              fn_name ←
                  read_or (read_va_cstr 256 root (add64 (add64 image_base entry) 2))
                    bad_function_name
              import_thunk thunks root dll_name (add64 (add64 image_base first_thunk) (idx * 8))
                  next_slot fn_name
              import_functions n thunks root image_base dll_name ilt first_thunk (idx + 1)
                  (next_slot + 1))
              s1
      ])
      s

-- The loop over the import descriptors, on fuel.
import_libraries : ℕ → Thunks → ℕ → ℕ → ℕ → ℕ → Load (Unit {0})
unfolding import_functions read_va_u32 read_va_cstr to_ascii_uppercase
import_libraries zero thunks root image_base desc_va next_slot s = out_of_fuel
import_libraries (suc fuel) thunks root image_base desc_va next_slot s =
    (do
      original ← read_or (read_va_u32 root desc_va) bad_descriptor
      name_rva ← read_or (read_va_u32 root (add64 desc_va 12)) bad_descriptor
      first_thunk ← read_or (read_va_u32 root (add64 desc_va 16)) bad_descriptor
      λ s1. elim (original == 0 && name_rva == 0 && first_thunk == 0) [
        | true ↦ done tt s1
        | false ↦
            (do
              dll_name ← read_or (read_va_cstr 256 root (add64 image_base name_rva)) bad_dll_name
              slot ←
                  import_functions (65 - next_slot) thunks root image_base
                    (to_ascii_uppercase dll_name) (if original == 0 then first_thunk else original)
                    first_thunk 0 next_slot
              import_libraries fuel thunks root image_base (add64 desc_va 20) slot)
              s1
      ])
      s

-- `write_bytes(frame, 0xCC, 4096)`.
fill_frame : ℕ → Machine → Machine
fill_frame frame = write_bytes frame (replicate 4096 0xCC)

resolve_imports : ℕ → Thunks → ℕ → ℕ → ℕ → Load (Unit {0})
unfolding import_libraries fill_frame
resolve_imports fuel thunks root image_base import_dir_rva =
    if import_dir_rva == 0 then return tt else (do
      thunk_frame ← alloc_frame_or thunks_out_of_memory
      λ s. map_or_panic (map_in root thunk_page thunk_frame 5 (fill_frame thunk_frame s))
      import_libraries fuel thunks root image_base (add64 image_base import_dir_rva) 0)

-- The loop over the section headers, with the rounds that are left.
read_sections : ℕ → ℕ → Bytes → Load (List Section)
read_sections zero off content = return []
read_sections (suc n) off content = do
  require (leb (off + 40) (length content)) section_header_out_of_bounds
  virtual_address ← or_panic (word 4 content (off + 12))
  virtual_size ← or_panic (word 4 content (off + 8))
  raw_size ← or_panic (word 4 content (off + 16))
  raw_ptr ← or_panic (word 4 content (off + 20))
  characteristics ← or_panic (word 4 content (off + 36))
  rest ← read_sections n (off + 40) content
  return (
      record {
        virtual_address = virtual_address;
        virtual_size = virtual_size;
        raw_size = raw_size;
        raw_ptr = raw_ptr;
        characteristics = characteristics;
      }
      ∷ rest)

-- The import directory's entry: its address and size.
import_directory : Bytes → ℕ → ℕ → Load (ℕ × ℕ)
import_directory content opt_offset count =
    if ltb 1 count
    then (do
      rva ← or_panic (word 4 content (opt_offset + 120))
      size ← or_panic (word 4 content (opt_offset + 124))
      return (rva, size))
    else return (0, 0)

-- `load`: the entry point.
pub load : ℕ → Thunks → ℕ → Bytes → Load ℕ
unfolding import_directory read_sections load_sections resolve_imports
load fuel thunks root content = do
  require (leb 0x40 (length content) && (get_or content 0 0 + 256 * get_or content 1 0) == 0x5A4D)
      bad_dos_signature
  pe_offset ← or_panic (word 4 content 0x3C)
  require (leb (pe_offset + 24) (length content)) bad_nt_signature
  nt_signature ← or_panic (word 4 content pe_offset)
  require (nt_signature == 0x4550) bad_nt_signature
  let coff = pe_offset + 4
  machine ← or_panic (word 2 content coff)
  require (machine == 0x8664) not_amd64
  number_of_sections ← or_panic (word 2 content (coff + 2))
  size_of_optional_header ← or_panic (word 2 content (coff + 16))
  let opt = coff + 20
  require (leb (opt + 2) (length content)) not_pe32_plus
  magic ← or_panic (word 2 content opt)
  require (magic == 0x20B) not_pe32_plus
  entry_rva ← or_panic (word 4 content (opt + 16))
  image_base ← or_panic (word 8 content (opt + 24))
  number_of_rva_and_sizes ← or_panic (word 4 content (opt + 108))
  (import_rva, import_size) ← import_directory content opt number_of_rva_and_sizes
  sections ← read_sections number_of_sections (opt + size_of_optional_header) content
  load_sections sections root content image_base
  if ltb 0 import_size then resolve_imports fuel thunks root image_base import_rva else return tt
  return (add64 image_base entry_rva)
