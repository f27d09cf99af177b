-- ===== src/Loaders/Elf/Copies.antt =====
-- The copying loop of elf.rs, and `load_segment` as a whole.
use moon_os.Common.{
  ℕ, zero, suc, ◌+◌, ◌-◌, ◌*◌, ◌/◌, ◌%◌, ◌^◌, ◌≤◌, ◌<◌, min, bit_and, ◌≡◌, refl, sym, ap, ◌∙◌,
  subst, ◌≢◌, inl, inr, Bool, true, false, ◌||◌, not, Option, none, some, arith, dec_lt, ltb, ◌==◌,
  ==_iff, ==-ne, Bool-cases,
}
use moon_os.Memory.Paging.Spaces.{IsSpace, same_page, translate_in-of}
use moon_os.Common.Bytes.{Bytes}
use moon_os.Memory.Paging.{Machine, translate_in, addr_mask}
use moon_os.Loaders.Outcome.{
  ◌>>=◌, ◌>>◌, write_bytes, done, page_base, Load, LoadError, Outcome, add64, or_panic, and_then,
  ok_or, page_vanished, and_then-done,
}
use moon_os.Loaders.Elf.Segments.{covers, map_pages_lem}
use moon_os.Loaders.Elf.{copy_pages, load_segment, end_page, segment_flags, part}

-- Copying leaves the tables and the allocator alone.
pub SameTables : Machine → Machine → Type 0
SameTables s s' = (s'.tables ≡ s.tables) × (s'.frames ≡ s.frames)

same_self : (s : Machine) → SameTables s s
unfolding SameTables
same_self s = (refl, refl)

written_same : (at : ℕ) (content : Bytes) (s : Machine) → SameTables s (write_bytes at content s)
unfolding SameTables write_bytes
written_same at content s = (refl, refl)

SameTables-trans : (s s1 s2 : Machine) → SameTables s s1 → SameTables s1 s2 → SameTables s s2
unfolding SameTables
SameTables-trans s s1 s2 (a, b) (c, d) = (c ∙ a, d ∙ b)

done_state :
    {A : Type 0} (a b : A) (s s' : Machine) → ◌≡◌ {A = Outcome A} (done a s) (done b s') → s ≡ s'
done_state a b s s' h = ground arith

ok_or-done :
    (o : Option ℕ) (e : LoadError) (s : Machine) (a : ℕ) (s1 : Machine)
    → ok_or o e s ≡ done a s1
    → s ≡ s1
ok_or-done none e s a s1 h = cc
ok_or-done (some b) e s a s1 h = done_state b a s s1 h

or_panic-done :
    (o : Option Bytes) (s : Machine) (a : Bytes) (s1 : Machine) → or_panic o s ≡ done a s1 → s ≡ s1
or_panic-done none s a s1 h = cc
or_panic-done (some b) s a s1 h = done_state b a s s1 h

-- One round of the copying loop.
copy_round :
    (o : Option ℕ) (src : Option Bytes) (page_off : ℕ) (next : Load (Unit {0})) (s s' : Machine)
    → and_then (ok_or o page_vanished s) (λ phys. or_panic src >>= λ content.
        (λ s1. done tt (write_bytes (phys + page_off) content s1)) >> next)
      ≡ done tt s'
    → (s1 : Machine) × SameTables s s1 × (next s1 ≡ done tt s')
copy_round none src page_off next s s' h = cc
copy_round (some phys) none page_off next s s' h = cc
copy_round (some phys) (some content) page_off next s s' h =
    (write_bytes (phys + page_off) content s, written_same (phys + page_off) content s, h)

copy_pages-SameTables :
    (fuel root : ℕ) (content : Bytes) (offset vaddr filesz copied : ℕ) (s s' : Machine)
    → copy_pages fuel root content offset vaddr filesz copied s ≡ done tt s'
    → SameTables s s'
unfolding copy_pages
copy_pages-SameTables zero root content offset vaddr filesz copied s s' h =
    subst (SameTables s) (done_state tt tt s s' h) (same_self s)
copy_pages-SameTables (suc fuel) root content offset vaddr filesz copied s s' h =
    elim (Bool-cases (ltb copied filesz)) [
      | inl more ↦
          let va = add64 vaddr copied in
          let page_off = va - page_base va in
          let chunk = min (4096 - page_off) (filesz - copied) in
          let (s1, same, rest) =
            copy_round (translate_in root (page_base va) s)
              (part content (add64 offset copied) (add64 (add64 offset copied) chunk)) page_off
              (copy_pages fuel root content offset vaddr filesz (copied + chunk)) s s'
              (rw (more, copy_pages) at h) in
          SameTables-trans s s1 s' same (
            copy_pages-SameTables fuel root content offset vaddr filesz (copied + chunk) s1 s' rest)
      | inr end ↦
          subst (SameTables s) (done_state tt tt s s' (rw (end, copy_pages) at h)) (same_self s)
    ]

or_true : (b : Bool) → (b || true) ≡ true
or_true true = refl
or_true false = refl

covers_range :
    (n page v : ℕ) → page % 4096 ≡ 0 → page ≤ v → v < page + n * 4096 → covers n page v ≡ true
covers_range zero page v aligned low high = absurd (omega arith)
covers_range (suc n) page v aligned low high = elim (dec_lt v (page + 4096)) [
  | yes here ↦
      let same : v / 4096 ≡ page / 4096 = omega arith in
      rw ((==_iff _ _).1 (ap (λ (q : ℕ). q % 2 ^ 36) same)) refl
  | no later ↦
      rw (covers_range n (page + 4096) v (omega arith) (omega arith) (omega arith))
        (or_true (same_page v page))
]

rounds_eq :
    (vaddr memsz : ℕ)
    → vaddr + memsz + 4096 ≤ 2 ^ 64
    → (end_page vaddr memsz - page_base vaddr) / 4096 ≡ (vaddr + memsz + 4095) / 4096 - vaddr / 4096
unfolding end_page
rounds_eq vaddr memsz fits = ground arith

flags_clean : (writable : Bool) → bit_and (segment_flags writable) addr_mask ≡ 0
unfolding segment_flags
flags_clean true = refl
flags_clean false = refl

-- If `load_segment` of at least one byte, ending a page or more before 2^64, returns in a space whose
-- tables are a tree, then every address of the segment translates, and every page outside the
-- segment's pages translates as before.
pub load_segment_lem :
    (root : ℕ) (content : Bytes) (offset vaddr filesz memsz flags : ℕ) (s s' : Machine)
    → IsSpace s root
    → 0 < memsz
    → vaddr + memsz + 4096 ≤ 2 ^ 64
    → load_segment root content offset vaddr filesz memsz flags s ≡ done tt s'
    → ((v : ℕ) → vaddr ≤ v → v < vaddr + memsz → translate_in root v s' ≢ none)
      × ((v : ℕ)
          → covers ((vaddr + memsz + 4095) / 4096 - vaddr / 4096) (page_base vaddr) v ≡ false
          → translate_in root v s' ≡ translate_in root v s)
unfolding load_segment SameTables
load_segment_lem root content offset vaddr filesz memsz flags s s' space some_bytes fits h =
    let body = rw (==-ne memsz 0 (λ (e : memsz ≡ 0). absurd (omega (arith, e)))) at h in
    let (unit, s1, mapped, copied) = and_then-done _ _ _ _ body in
    let (tables, frames) =
      copy_pages-SameTables filesz root content offset vaddr filesz 0 s1 s' copied in
    let same = λ (v : ℕ). translate_in-of s1 s' root v tables in
    let pages =
      map_pages_lem ((end_page vaddr memsz - page_base vaddr) / 4096) root (page_base vaddr) _ _ s
        s1 space (flags_clean (not (bit_and flags 2 == 0))) mapped in
    (
      λ v low high missing.
          pages.inside v
            (rw (rounds_eq vaddr memsz fits) (
              covers_range ((vaddr + memsz + 4095) / 4096 - vaddr / 4096) (page_base vaddr) v
                (omega arith) (omega arith) (omega arith)))
            (sym (same v) ∙ missing),
      λ v away. same v ∙ pages.outside v (rw (rounds_eq vaddr memsz fits) away),
    )
