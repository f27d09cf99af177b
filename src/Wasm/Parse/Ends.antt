-- ===== src/Wasm/Parse/Ends.antt =====
-- `parse` of wasm.rs ends on any bytes: each number moves the position on, and each section ends
-- where its length says.
use moon_os.Common.{
  ℕ, zero, suc, ◌+◌, ◌≤◌, ◌<◌, refl, ◌≢◌, inl, inr, true, false, arith, ◌==◌, leb→le, Bool-cases,
  Option-cases, length, get_elem?,
}
use moon_os.Common.Bits.{and_left}
use moon_os.Common.Bytes.{Bytes}
use moon_os.Wasm.Result.{Result, runs_on}
use moon_os.Wasm.Avoids.{
  Avoids, Avoids-ne-runs_on, ok-Avoids, bind-Avoids, ok_or-Avoids, require-Avoids, or_panic-Avoids,
}
use moon_os.Wasm.Leb.Moves.{read_uleb128-moves}
use moon_os.Wasm.Parse.{
  Module, value_types, type_section, function_section, export_section, local_decls, code_section,
  section, sections, parse, no_module,
}

abbrev Ends : {A : Type 0} → Result A → Type 0
Ends r = Avoids true false r

value_types-Ends : (n : ℕ) (content : Bytes) (pos : ℕ) → Ends (value_types n content pos)
unfolding value_types
value_types-Ends zero content pos = ok-Avoids
value_types-Ends (suc n) content pos =
    ok_or-Avoids _ _ _ (λ vt e1. require-Avoids _ _ _ (λ e2. value_types-Ends n content (pos + 1)))

type_section-Ends :
    (n : ℕ) (content : Bytes) (pos : ℕ) (m : Module) → Ends (type_section n content pos m)
unfolding type_section
type_section-Ends zero content pos m = ok-Avoids
type_section-Ends (suc n) content pos m = ok_or-Avoids _ _ _ (λ form e1. require-Avoids _ _ _ (λ e2.
    ok_or-Avoids _ _ _ (λ params e3.
      bind-Avoids _ _ (value_types-Ends params.0 content params.1) (λ p2.
        ok_or-Avoids _ _ _ (λ results e4.
          bind-Avoids _ _ (value_types-Ends results.0 content results.1)
            (λ p4. type_section-Ends n content p4 _))))))

function_section-Ends :
    (n : ℕ) (content : Bytes) (pos : ℕ) (m : Module) → Ends (function_section n content pos m)
unfolding function_section
function_section-Ends zero content pos m = ok-Avoids
function_section-Ends (suc n) content pos m =
    ok_or-Avoids _ _ _ (λ idx e1. function_section-Ends n content idx.1 _)

export_section-Ends :
    (n : ℕ) (content : Bytes) (pos : ℕ) (m : Module) → Ends (export_section n content pos m)
unfolding export_section
export_section-Ends zero content pos m = ok-Avoids
export_section-Ends (suc n) content pos m = ok_or-Avoids _ _ _ (λ name_len e1.
    ok_or-Avoids _ _ _ (λ name e2. require-Avoids _ _ _ (λ e3.
      ok_or-Avoids _ _ _
        (λ kind e4. ok_or-Avoids _ _ _ (λ idx e5. export_section-Ends n content idx.1 _)))))

local_decls-Ends :
    (n : ℕ) (content : Bytes) (pos count : ℕ) → Ends (local_decls n content pos count)
unfolding local_decls
local_decls-Ends zero content pos count = ok-Avoids
local_decls-Ends (suc n) content pos count = ok_or-Avoids _ _ _ (λ more e1.
    ok_or-Avoids _ _ _
      (λ vt e2. require-Avoids _ _ _ (λ e3. local_decls-Ends n content (more.1 + 1) _)))

code_section-Ends :
    (n : ℕ) (content : Bytes) (pos : ℕ) (m : Module) → Ends (code_section n content pos m)
unfolding code_section
code_section-Ends zero content pos m = ok-Avoids
code_section-Ends (suc n) content pos m = ok_or-Avoids _ _ _ (λ len e1. require-Avoids _ _ _ (λ e2.
    ok_or-Avoids _ _ _ (λ decls e3.
      bind-Avoids _ _ (local_decls-Ends decls.0 content decls.1 0)
        (λ locals. or_panic-Avoids _ _ (λ e4. refl) (λ code e5. code_section-Ends n content _ _)))))

section-Ends : (id : ℕ) (content : Bytes) (pos : ℕ) (m : Module) → Ends (section id content pos m)
unfolding section
section-Ends id content pos m = elim (Bool-cases (id == 1)) [
  | inl one ↦ rw one (ok_or-Avoids _ _ _ (λ c e. type_section-Ends c.0 content c.1 m))
  | inr not_one ↦ elim (Bool-cases (id == 3)) [
    | inl three ↦
        rw (not_one, three) (ok_or-Avoids _ _ _ (λ c e. function_section-Ends c.0 content c.1 m))
    | inr not_three ↦ elim (Bool-cases (id == 7)) [
      | inl seven ↦
          rw (not_one, not_three, seven)
            (ok_or-Avoids _ _ _ (λ c e. export_section-Ends c.0 content c.1 m))
      | inr not_seven ↦ elim (Bool-cases (id == 10)) [
        | inl ten ↦
            rw (not_one, not_three, not_seven, ten)
              (ok_or-Avoids _ _ _ (λ c e. code_section-Ends c.0 content c.1 m))
        | inr other ↦ rw (not_one, not_three, not_seven, other) ok-Avoids
      ]
    ]
  ]
]

sections-Ends :
    (fuel : ℕ) (content : Bytes) (pos : ℕ) (m : Module)
    → pos ≤ length content
    → length content < pos + fuel
    → Ends (sections fuel content pos m)
unfolding sections
sections-Ends zero content pos m inside enough = absurd (omega arith)
sections-Ends (suc fuel) content pos m inside enough = elim (Option-cases (get_elem? content pos)) [
  | inl past ↦ rw (past, sections) ok-Avoids
  | inr (id, there) ↦
      rw (there, sections)
        (ok_or-Avoids _ _ _ (λ len read. require-Avoids _ _ _ (λ fits.
          bind-Avoids _ _ (section-Ends id content len.1 m) (λ m'.
            sections-Ends fuel content (len.1 + len.0) m' (leb→le _ _ fits)
              (omega (arith, read_uleb128-moves content (pos + 1) len read))))))
]

-- `parse` ends on any bytes: it gives a module, an error or a panic.
pub parse-ne-runs_on : (content : Bytes) → parse content ≢ runs_on
unfolding parse
parse-ne-runs_on content = Avoids-ne-runs_on (
    require-Avoids _ _ _ (λ sized. require-Avoids _ _ _ (λ version.
      sections-Ends (length content) content 8 no_module (leb→le 8 _ (and_left _ _ sized))
        (omega arith))))
