-- ===== src/Loaders/Elf/Checks.antt =====
-- What `load` of elf.rs checks, and the end of its copying loop.
use moon_os.Common.{
  ℕ, zero, suc, ◌+◌, ◌-◌, ◌≤◌, min, ◌≡◌, refl, ap, ◌∙◌, inl, inr, Bool, true, false, ◌&&◌, Option,
  none, some, arith, ltb, leb, ◌==◌, ltb→lt, ltb-ge, leb→le, ==_iff, Bool-cases, length, get_or,
  take,
}
use moon_os.Common.Bits.{and_left, and_right}
use moon_os.Common.Bytes.{Bytes, bytes_eq_iff, bytes_eq}
use moon_os.Memory.Paging.{Machine, translate_in}
use moon_os.Loaders.Elf.{copy_pages, load, elf_magic, part, load_headers}
use moon_os.Loaders.Outcome.{
  ◌>>=◌, ◌>>◌, Load, Outcome, done, LoadError, and_then-done, require, or_panic, word, add64,
  and_then, ok_or, page_base, page_vanished, write_bytes, not_elf, not_64_bit, not_little_endian,
  not_exec, not_x86_64,
}

after_require :
    (b : Bool) (e : LoadError) (k : Load ℕ) (s : Machine) {a : ℕ} {s' : Machine}
    → and_then (require b e s) (λ (u : Unit {0}). k) ≡ done a s'
    → (b ≡ true) × (k s ≡ done a s')
after_require true e k s h = (refl, h)
after_require false e k s h = cc

after_word :
    (o : Option ℕ) (k : ℕ → Load ℕ) (s : Machine) {a : ℕ} {s' : Machine}
    → and_then (or_panic o s) k ≡ done a s'
    → (x : ℕ) × (o ≡ some x) × (k x s ≡ done a s')
after_word none k s h = cc
after_word (some x) k s h = (x, refl, h)

done_value :
    {A : Type 0} (a b : A) (s s' : Machine) → ◌≡◌ {A = Outcome A} (done a s) (done b s') → a ≡ b
done_value a b s s' h = ground arith

-- If `load` returns an entry point, then the file has 64 bytes or more and starts with the magic
-- number, is 64-bit, little-endian, of type ET_EXEC and for x86_64, and the entry point is the word at
-- offset 24.
pub load-checks :
    (root : ℕ) (content : Bytes) (s s' : Machine) (entry : ℕ)
    → load root content s ≡ done entry s'
    → (64 ≤ length content)
      × (take 4 content ≡ elf_magic)
      × (get_or content 4 0 ≡ 2)
      × (get_or content 5 0 ≡ 1)
      × (word 2 content 16 ≡ some 2)
      × (word 2 content 18 ≡ some 62)
      × (word 8 content 24 ≡ some entry)
unfolding load
load-checks root content s s' entry h =
    let (start, h1) =
      after_require (leb 64 (length content) && bytes_eq (take 4 content) elf_magic) not_elf _ s
        h in
    let (class, h2) = after_require (get_or content 4 0 == 2) not_64_bit _ s h1 in
    let (order, h3) = after_require (get_or content 5 0 == 1) not_little_endian _ s h2 in
    let (e_type, read_type, h4) = after_word (word 2 content 16) _ s h3 in
    let (e_machine, read_machine, h5) = after_word (word 2 content 18) _ s h4 in
    let (e_entry, read_entry, h6) = after_word (word 8 content 24) _ s h5 in
    let (e_phoff, read_phoff, h7) = after_word (word 8 content 32) _ s h6 in
    let (e_size, read_size, h8) = after_word (word 2 content 54) _ s h7 in
    let (e_phnum, read_phnum, h9) = after_word (word 2 content 56) _ s h8 in
    let (is_exec, h10) = after_require (e_type == 2) not_exec _ s h9 in
    let (is_x86, h11) = after_require (e_machine == 62) not_x86_64 _ s h10 in
    let (unit, s1, headers, h12) =
      and_then-done (load_headers e_phnum 0 e_phoff e_size root content s)
        (λ (u : Unit {0}). done e_entry) entry s' h11 in
    (
      leb→le 64 (length content) (and_left _ _ start),
      (bytes_eq_iff (take 4 content) elf_magic).0 (and_right (leb 64 (length content)) _ start),
      (==_iff _ _).0 class,
      (==_iff _ _).0 order,
      read_type ∙ ap (λ (x : ℕ). some x) ((==_iff e_type 2).0 is_exec),
      read_machine ∙ ap (λ (x : ℕ). some x) ((==_iff e_machine 62).0 is_x86),
      read_entry ∙ ap (λ (x : ℕ). some x) (done_value e_entry entry s1 s' h12),
    )

-- One round, with two ways to go on.
round_same :
    (o : Option ℕ) (src : Option Bytes) (page_off : ℕ) (next other : Load (Unit {0})) (s : Machine)
    → ((s1 : Machine) → next s1 ≡ other s1)
    → and_then (ok_or o page_vanished s) (λ phys. or_panic src >>= λ content.
        (λ s1. done tt (write_bytes (phys + page_off) content s1)) >> next)
      ≡ and_then (ok_or o page_vanished s) (λ phys. or_panic src >>= λ content.
          (λ s1. done tt (write_bytes (phys + page_off) content s1)) >> other)
round_same none src page_off next other s h = refl
round_same (some phys) none page_off next other s h = refl
round_same (some phys) (some content) page_off next other s h =
    h (write_bytes (phys + page_off) content s)

-- Any two fuels of at least the bytes that are left give the same result: the copying loop ends by
-- its own test.
pub copy_pages_ends :
    (a b root : ℕ) (content : Bytes) (offset vaddr filesz copied : ℕ) (s : Machine)
    → filesz ≤ copied + a
    → filesz ≤ copied + b
    → copy_pages a root content offset vaddr filesz copied s
      ≡ copy_pages b root content offset vaddr filesz copied s
unfolding copy_pages
copy_pages_ends zero zero root content offset vaddr filesz copied s ha hb = refl
copy_pages_ends zero (suc b) root content offset vaddr filesz copied s ha hb =
    rw (ltb-ge copied filesz (omega arith), copy_pages) refl
copy_pages_ends (suc a) zero root content offset vaddr filesz copied s ha hb =
    rw (ltb-ge copied filesz (omega arith), copy_pages) refl
copy_pages_ends (suc a) (suc b) root content offset vaddr filesz copied s ha hb =
    elim (Bool-cases (ltb copied filesz)) [
      | inl more ↦
          let va = add64 vaddr copied in
          let page_off = va - page_base va in
          let chunk = min (4096 - page_off) (filesz - copied) in
          rw (more, copy_pages)
            (round_same (translate_in root (page_base va) s)
              (part content (add64 offset copied) (add64 (add64 offset copied) chunk)) page_off
              (copy_pages a root content offset vaddr filesz (copied + chunk))
              (copy_pages b root content offset vaddr filesz (copied + chunk)) s
              (λ s1.
                copy_pages_ends a b root content offset vaddr filesz (copied + chunk) s1
                  (omega (arith, ltb→lt copied filesz more))
                  (omega (arith, ltb→lt copied filesz more))))
      | inr end ↦ rw (end, copy_pages) refl
    ]
