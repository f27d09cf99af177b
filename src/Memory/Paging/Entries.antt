-- ===== src/Memory/Paging/Entries.antt =====
-- The entries of page tables of paging.rs: the words that `next_table` and `map_in` write, read back.
use moon_os.Common.{
  ℕ, ◌*◌, ◌/◌, ◌%◌, ◌^◌, ◌<◌, bit_and, bit_or, ◌≡◌, refl, ◌∙◌, Bool, false, not, arith, ◌==◌,
}
use moon_os.Common.Bits.{bit_and_high, bit_and_low, bit_and-bit_or, bit_or_mod, bit_or-zero}
use moon_os.Memory.Paging.{addr_mask, flag_user, flag_present, table_entry, leaf_entry}

-- An address that the entries can hold.
abbrev pub IsFrame : ℕ → Type 0
IsFrame f = (f % 4096 ≡ 0) × (f < 2 ^ 52)

is_present : ℕ → Bool
is_present e = not (bit_and e flag_present == 0)

masked-lt : (a : ℕ) → a / 2 ^ 12 % 2 ^ 40 * 2 ^ 12 < 2 ^ 52
masked-lt a = omega arith

masked-IsFrame : (a : ℕ) → IsFrame (bit_and a addr_mask)
masked-IsFrame a = rw (bit_and_high 12 40 a) (omega arith, omega arith)

masked_frame : (f : ℕ) → IsFrame f → bit_and f addr_mask ≡ f
masked_frame f (aligned, small) = bit_and_high 12 40 f ∙ omega arith

masked_small : (a : ℕ) → a < 4096 → bit_and a addr_mask ≡ 0
masked_small a h = bit_and_high 12 40 a ∙ omega arith

user_bits : (flags : ℕ) → bit_and flags flag_user < 4096
user_bits flags = rw (bit_and_high 2 1 flags) (omega arith)

present_odd : (a : ℕ) → a % 2 ≡ 1 → (bit_and a flag_present == 0) ≡ false
present_odd a h = rw (bit_and_low 1 a ∙ h) refl

-- A table entry is present and holds the table's address.
pub table_entry-present :
    (f flags : ℕ) → (bit_and (table_entry f (bit_and flags flag_user)) flag_present == 0) ≡ false
unfolding table_entry
table_entry-present f flags = present_odd _ (
    omega (
      arith,
      bit_or_mod f 1,
      bit_or_mod (bit_or f 1) 2,
      bit_or_mod (bit_or (bit_or f 1) 2) (bit_and flags 4),
    ))

pub table_entry-address :
    (f flags : ℕ) → IsFrame f → bit_and (table_entry f (bit_and flags flag_user)) addr_mask ≡ f
unfolding table_entry
table_entry-address f flags h =
    rw
      (
        bit_and-bit_or,
        bit_and-bit_or,
        bit_and-bit_or,
        masked_frame f h,
        masked_small _ (user_bits flags),
        masked_small 2 (omega arith),
        masked_small 1 (omega arith),
        bit_or-zero,
        bit_or-zero,
        bit_or-zero,
      )
      refl

pub leaf_entry-present :
    (phys flags : ℕ) → (bit_and (leaf_entry phys flags) flag_present == 0) ≡ false
unfolding leaf_entry
leaf_entry-present phys flags =
    present_odd _ (omega (arith, bit_or_mod (bit_or (bit_and phys addr_mask) flags) 1))

pub leaf_entry-address :
    (phys flags : ℕ)
    → bit_and flags addr_mask ≡ 0
    → bit_and (leaf_entry phys flags) addr_mask ≡ bit_and phys addr_mask
unfolding leaf_entry
leaf_entry-address phys flags h =
    rw
      (
        bit_and-bit_or,
        bit_and-bit_or,
        h,
        masked_small 1 (omega arith),
        bit_or-zero,
        bit_or-zero,
        masked_frame _ (masked-IsFrame phys),
      )
      refl
