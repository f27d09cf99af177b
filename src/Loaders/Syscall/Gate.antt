-- ===== src/Loaders/Syscall/Gate.antt =====
-- What a task reaches through the gate of syscall.rs, and what it gets back.
use moon_os.Common.{
  ℕ, zero, suc, ◌+◌, ◌-◌, ◌^◌, ◌<◌, min, ◌≡◌, refl, ap, ap₂, ◌∙◌, ◌⊎◌, inl, inr, true, false, none,
  some, ◌∷◌, arith, ltb, ◌==◌, if◌then◌else◌, ==_iff, Bool-cases, length, get_elem?,
}
use moon_os.Common.Bytes.{Bytes}
use moon_os.Common.Text.{is_utf8}
use moon_os.Sched.{Scheduler}
use moon_os.Loaders.Syscall.{
  Registers, SerialLine, exited, wrote, not_utf8, unknown, Handled, read_memory, write_line,
  sys_exit, sys_write, handle,
}

length-read_memory : (memory : ℕ → ℕ) (at n : ℕ) → length (read_memory memory at n) ≡ n
unfolding read_memory
length-read_memory memory at zero = refl
length-read_memory memory at (suc n) = ap suc (length-read_memory memory (at + 1) n)

get_elem?-read_memory :
    (memory : ℕ → ℕ) (at n i : ℕ)
    → i < n
    → get_elem? (read_memory memory at n) i ≡ some (memory (at + i))
unfolding read_memory
get_elem?-read_memory memory at zero i h = absurd (omega arith)
get_elem?-read_memory memory at (suc n) zero h = ap (λ (a : ℕ). some (memory a)) (omega arith)
get_elem?-read_memory memory at (suc n) (suc i) h =
    get_elem?-read_memory memory (at + 1) n i (omega arith)
    ∙ ap (λ (a : ℕ). some (memory a)) (omega arith)

read_memory-same :
    (memory memory' : ℕ → ℕ) (at n : ℕ)
    → ((i : ℕ) → i < n → memory (at + i) ≡ memory' (at + i))
    → read_memory memory at n ≡ read_memory memory' at n
unfolding read_memory
read_memory-same memory memory' at zero same = refl
read_memory-same memory memory' at (suc n) same =
    ap₂ (λ (b : ℕ) (bs : Bytes). b ∷ bs)
      (ap memory (omega arith) ∙ same 0 (omega arith) ∙ ap memory' (omega arith))
      (read_memory-same memory memory' (at + 1) n
        (λ i h. ap memory (omega arith) ∙ same (suc i) (omega arith) ∙ ap memory' (omega arith)))

-- How many bytes a line says were written.
abbrev pub line_bytes : SerialLine → ℕ
line_bytes (exited code) = 0
line_bytes (wrote content) = length content
line_bytes (not_utf8 len) = len
line_bytes (unknown n) = 0

-- The bytes are those of the memory from the address on.
abbrev pub AreAt : (ℕ → ℕ) → ℕ → Bytes → Type 0
AreAt memory at content =
    (i : ℕ) → i < length content → get_elem? content i ≡ some (memory (at + i))

-- A text is UTF-8 and what the memory has; the bytes that are printed as a number only are not UTF-8.
abbrev pub IsText : (ℕ → ℕ) → ℕ → SerialLine → Type 0
IsText memory at (wrote content) = (is_utf8 content ≡ true) × AreAt memory at content
IsText memory at (not_utf8 len) =
    (content : Bytes) × (length content ≡ len) × (is_utf8 content ≡ false) × AreAt memory at content
IsText memory at (exited code) = Unit
IsText memory at (unknown n) = Unit

-- How much of a write of `n` bytes is done.
abbrev pub written : ℕ → ℕ
written n = if ltb 4096 n then 4096 else n

-- `rax` after a call.
abbrev pub answer : Registers → ℕ
answer r = if r.rax == 0 then 0 else (if r.rax == 1 then written r.rsi else 2 ^ 64 - 1)

-- What a call gives, whatever it is.
pub record Gated (sched : Scheduler) (memory : ℕ → ℕ) (r : Registers) (h : Handled) : Type 0 where
  pub rax : h.registers.rax ≡ answer r
  pub rdi : h.registers.rdi ≡ r.rdi
  pub rsi : h.registers.rsi ≡ r.rsi
  pub count : line_bytes h.line ≡ (if r.rax == 1 then written r.rsi else 0)
  pub text : IsText memory r.rdi h.line
  pub other_tasks : (r.rax ≡ 0) ⊎ ((h.sched ≡ sched) × (h.next ≡ none))

write_line-count :
    (content : Bytes) (len : ℕ) → length content ≡ len → line_bytes (write_line content len) ≡ len
unfolding write_line
write_line-count content len h = elim (Bool-cases (is_utf8 content)) [
  | inl e ↦ rw e h
  | inr e ↦ rw e refl
]

write_line-IsText :
    (memory : ℕ → ℕ) (at n : ℕ) → IsText memory at (write_line (read_memory memory at n) n)
unfolding write_line
write_line-IsText memory at n = elim (Bool-cases (is_utf8 (read_memory memory at n))) [
  | inl e ↦ rw e (e, there)
  | inr e ↦ rw e (read_memory memory at n, length-read_memory memory at n, e, there)
]
  where
    there : AreAt memory at (read_memory memory at n)
    there i h =
        get_elem?-read_memory memory at n i (omega (arith, h, length-read_memory memory at n))

handle-Gated :
    (sched : Scheduler) (memory : ℕ → ℕ) (r : Registers)
    → Gated sched memory r (handle sched memory r)
unfolding handle sys_exit sys_write
handle-Gated sched memory r = elim (Bool-cases (r.rax == 0)) [
  | inl exits ↦
      rw (exits, handle)
        (record {
          rax = ground arith;
          rdi = refl;
          rsi = refl;
          count = ground arith;
          text = tt;
          other_tasks = inl ((==_iff r.rax 0).0 exits);
        })
  | inr stays ↦ elim (Bool-cases (r.rax == 1)) [
    | inl writes ↦
        rw (stays, writes, handle)
          (record {
            rax = ground arith;
            rdi = refl;
            rsi = refl;
            count =
                write_line-count _ _ (length-read_memory memory r.rdi (min r.rsi 4096))
                ∙ ground arith;
            text = write_line-IsText memory r.rdi (min r.rsi 4096);
            other_tasks = inr (refl, refl);
          })
    | inr unknown_call ↦
        rw (stays, unknown_call, handle)
          (record {
            rax = ground arith;
            rdi = refl;
            rsi = refl;
            count = ground arith;
            text = tt;
            other_tasks = inr (refl, refl);
          })
  ]
]

sys_write-same :
    (sched : Scheduler) (memory memory' : ℕ → ℕ) (r : Registers)
    → ((i : ℕ) → i < r.rsi → i < 4096 → memory (r.rdi + i) ≡ memory' (r.rdi + i))
    → sys_write sched memory r ≡ sys_write sched memory' r
unfolding sys_write
sys_write-same sched memory memory' r same =
    ap
      (λ (content : Bytes). record {
        sched = sched;
        registers = record r { rax = min r.rsi 4096 };
        next = none;
        line = write_line content (min r.rsi 4096);
      })
      (read_memory-same memory memory' r.rdi (min r.rsi 4096)
        (λ i h. same i (omega arith) (omega arith)))

-- Of the caller's memory, a call depends only on the first `rsi` bytes from the address in `rdi` on, and
-- of these on 4096 at most: two memories that agree there give the same result. And whatever the call
-- is, `rdi` and `rsi` stay; `rax` becomes 0 for an exit, for a write the number of bytes written, which
-- is the length that was asked for but 4096 for a longer one, and all ones for an unknown call; the
-- line of a write is of that many bytes, and it is a text just when they are UTF-8, with the bytes of
-- the memory in order; and only the exit call touches the scheduler or leaves for another task.
pub handle-window :
    (sched : Scheduler) (memory memory' : ℕ → ℕ) (r : Registers)
    → ((i : ℕ) → i < r.rsi → i < 4096 → memory (r.rdi + i) ≡ memory' (r.rdi + i))
    → (handle sched memory r ≡ handle sched memory' r)
      × Gated sched memory r (handle sched memory r)
unfolding handle
handle-window sched memory memory' r same = (
  elim (Bool-cases (r.rax == 0)) [
    | inl exits ↦ rw exits refl
    | inr stays ↦ elim (Bool-cases (r.rax == 1)) [
      | inl writes ↦ rw (stays, writes) (sys_write-same sched memory memory' r same)
      | inr unknown_call ↦ rw (stays, unknown_call) refl
    ]
  ],
  handle-Gated sched memory r,
)
