-- ===== src/Loaders/Outcome.antt =====
-- What a loader of elf.rs, pe.rs or process.rs gives: a value, an error, or a panic, if the fuel
-- of its loops lasts. An error leaves the memory as far as it was changed.
use moon_os.Common.{
  ℕ, ◌+◌, ◌-◌, ◌*◌, ◌/◌, ◌%◌, ◌^◌, ◌≡◌, refl, Bool, true, false, ◌&&◌, Option, none, some, ltb, leb,
  if◌then◌else◌, length, get_or, slice,
}
use moon_os.Memory.Paging.{Machine}
use moon_os.Memory.Pmm.{BitmapAllocator, alloc_frame}
use moon_os.Common.Bytes.{Bytes, of_le}

-- The `&'static str` errors, one for each text.
pub data LoadError : Type 0 where
  not_elf : LoadError
  not_64_bit : LoadError
  not_little_endian : LoadError
  not_exec : LoadError
  not_x86_64 : LoadError
  header_out_of_bounds : LoadError
  segment_out_of_memory : LoadError
  page_vanished : LoadError
  stack_out_of_memory : LoadError
  bad_dos_signature : LoadError
  bad_nt_signature : LoadError
  not_amd64 : LoadError
  not_pe32_plus : LoadError
  section_header_out_of_bounds : LoadError
  section_out_of_memory : LoadError
  section_data_out_of_bounds : LoadError
  section_page_vanished : LoadError
  thunks_out_of_memory : LoadError
  bad_descriptor : LoadError
  bad_dll_name : LoadError
  bad_thunk_entry : LoadError
  ordinal_import : LoadError
  bad_function_name : LoadError
  unsupported_import : LoadError
  too_many_imports : LoadError
  thunk_page_vanished : LoadError
  patch_failed : LoadError

pub data Outcome (A : Type 0) : Type 0 where
  done : A → Machine → Outcome A
  failed : LoadError → Machine → Outcome A
  panicked : Outcome A
  out_of_fuel : Outcome A

abbrev pub Load : Type 0 → Type 0
Load A = Machine → Outcome A

module _ {A B : Type 0} where
  abbrev pub and_then : Outcome A → (A → Load B) → Outcome B
  and_then (done a s) k = k a s
  and_then (failed e s) k = failed e s
  and_then panicked k = panicked
  and_then out_of_fuel k = out_of_fuel

  infixl 5 ◌>>=◌ ◌>>◌
  abbrev pub ◌>>=◌ : Load A → (A → Load B) → Load B
  m >>= k = λ s. and_then (m s) k

  abbrev pub ◌>>◌ : Load A → Load B → Load B
  m >> n = m >>= λ _. n

  -- Inversion of a successful step.
  pub and_then-done :
      (o : Outcome A) (k : A → Load B) (b : B) (s' : Machine)
      → and_then o k ≡ done b s'
      → (a : A) × (s1 : Machine) × (o ≡ done a s1) × (k a s1 ≡ done b s')
  and_then-done (done a s) k b s' e = (a, s, refl, e)
  and_then-done (failed x s) k b s' e = cc
  and_then-done panicked k b s' e = cc
  and_then-done out_of_fuel k b s' e = cc

abbrev pub return : {A : Type 0} → A → Load A
return = done

abbrev fail : {A : Type 0} → LoadError → Load A
fail = failed

-- An early `return Err(..)`.
abbrev pub require : Bool → LoadError → Load (Unit {0})
require true e = done tt
require false e = failed e

-- `ok_or(..)?`.
abbrev pub ok_or : {A : Type 0} → Option A → LoadError → Load A
ok_or none e = failed e
ok_or (some a) e = done a

-- An operation that panics at `none`.
abbrev pub or_panic : {A : Type 0} → Option A → Load A
or_panic none s = panicked
or_panic (some a) s = done a s

-- `space.map`.
unfoldable pub map_or_panic : Option Machine → Outcome (Unit {0})
map_or_panic none = panicked
map_or_panic (some s) = done tt s

-- `alloc_frame().ok_or(..)?`.
unfoldable pub take_frame_or : LoadError → Option (Option ℕ × Option BitmapAllocator) → Load ℕ
take_frame_or e none s = panicked
take_frame_or e (some (none, frames)) s = failed e (record s { frames = frames })
take_frame_or e (some (some f, frames)) s = done f (record s { frames = frames })

unfoldable pub alloc_frame_or : LoadError → Load ℕ
unfolding take_frame_or
alloc_frame_or e s = take_frame_or e (alloc_frame s.frames) s

-- `u64::from_le_bytes(data[off..off + n].try_into().unwrap())`, and for u32 and u16: a slice out of
-- range panics.
abbrev pub word : ℕ → Bytes → ℕ → Option ℕ
word n content off =
    if leb (off + n) (length content) then some (of_le (slice off (off + n) content)) else none

abbrev pub add64 : ℕ → ℕ → ℕ
add64 a b = (a + b) % 2 ^ 64

-- `va & !(PAGE_SIZE - 1)`.
abbrev pub page_base : ℕ → ℕ
page_base va = va / 4096 * 4096

-- `copy_nonoverlapping`.
unfoldable pub write_bytes : ℕ → Bytes → Machine → Machine
write_bytes at content s = record s {
  bytes =
      λ p. if leb at p && ltb p (at + length content) then get_or content (p - at) 0 else s.bytes p;
}
