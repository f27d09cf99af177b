-- ===== src/Packages/Pkg/Format.antt =====
-- pkg.rs: what is built parses into its parts.
use moon_os.Common.{
  ℕ, ◌+◌, ◌%◌, ◌^◌, ◌<◌, ◌≡◌, refl, ap, ◌∙◌, true, [], ◌∷◌, ◌++◌, append_assoc, arith, length,
  slice, length-append, slice-append,
}
use moon_os.Common.Bytes.{Bytes, le_bytes, of_le, of_le-le_bytes, bytes_eq_refl}
use moon_os.Common.Text.{is_utf8}
use moon_os.Packages.Pkg.{magic, parsed, build, parse, parse_body}

parse_body-parts :
    (header name version elf rest : Bytes)
    → length header ≡ 14
    → is_utf8 name ≡ true
    → is_utf8 version ≡ true
    → parse_body
        (header ++ (name ++ (version ++ (elf ++ rest))))
        (length name)
        (length version)
        (length elf)
      ≡ parsed (record { name = name; version = version; elf = elf })
parse_body-parts header name version elf rest fits un uv =
    rw
      (
        slice-append header name (version ++ (elf ++ rest)) 14 (14 + length name) (omega arith)
            (omega arith),
        version_part,
        elf_part,
        un,
        uv,
        length-append header (name ++ (version ++ (elf ++ rest))),
        length-append name (version ++ (elf ++ rest)),
        length-append version (elf ++ rest),
        length-append elf rest,
      )
      (ground arith)
  where
    version_part :
        slice
          (14 + length name)
          (14 + length name + length version)
          (header ++ (name ++ (version ++ (elf ++ rest))))
        ≡ version
    version_part = rw⁻¹ (append_assoc header name (version ++ (elf ++ rest))) (
        slice-append (header ++ name) version (elf ++ rest) (14 + length name)
          (14 + length name + length version) (omega (arith, length-append header name))
          (omega (arith, length-append header name)))

    elf_part :
        slice
          (14 + length name + length version)
          (14 + length name + length version + length elf)
          (header ++ (name ++ (version ++ (elf ++ rest))))
        ≡ elf
    elf_part =
        rw⁻¹
          (
            append_assoc header name (version ++ (elf ++ rest)),
            append_assoc (header ++ name) version (elf ++ rest),
          )
          (slice-append ((header ++ name) ++ version) elf rest (14 + length name + length version)
            (14 + length name + length version + length elf)
            (omega (arith, length-append (header ++ name) version, length-append header name))
            (omega (arith, length-append (header ++ name) version, length-append header name)))

parse-header :
    (n m v w a b c d : ℕ) (body : Bytes)
    → let bytes : Bytes = 77 ∷ 79 ∷ 65 ∷ 80 ∷ 1 ∷ 0 ∷ n ∷ m ∷ v ∷ w ∷ a ∷ b ∷ c ∷ d ∷ body in
      parse bytes
      ≡ parse_body bytes (of_le (n ∷ m ∷ [])) (of_le (v ∷ w ∷ [])) (of_le (a ∷ b ∷ c ∷ d ∷ []))
unfolding parse
parse-header n m v w a b c d body = ground (arith, bytes_eq_refl magic)

-- A package that is built from a name and a version in UTF-8 and an executable, with lengths that
-- the header can hold, parses into the three, whatever stands after it.
pub parse-build :
    (name version elf rest : Bytes)
    → length name < 2 ^ 16
    → length version < 2 ^ 16
    → length elf < 2 ^ 32
    → is_utf8 name ≡ true
    → is_utf8 version ≡ true
    → parse (build name version elf ++ rest)
      ≡ parsed (record { name = name; version = version; elf = elf })
parse-build name version elf rest hn hv he un uv =
    ap parse regroup
    ∙ parse-header _ _ _ _ _ _ _ _ (name ++ (version ++ (elf ++ rest)))
    ∙ ap (λ (n : ℕ). parse_body whole n version_len elf_len)
        (of_le-le_bytes 2 (length name % 2 ^ 16) (omega arith) ∙ omega arith)
    ∙ ap (λ (n : ℕ). parse_body whole (length name) n elf_len)
        (of_le-le_bytes 2 (length version % 2 ^ 16) (omega arith) ∙ omega arith)
    ∙ ap (λ (n : ℕ). parse_body whole (length name) (length version) n)
        (of_le-le_bytes 4 (length elf % 2 ^ 32) (omega arith) ∙ omega arith)
    ∙ parse_body-parts header name version elf rest refl un uv
  where
    header : Bytes
    header =
        magic
        ++ le_bytes 2 1
        ++ le_bytes 2 (length name % 2 ^ 16)
        ++ le_bytes 2 (length version % 2 ^ 16)
        ++ le_bytes 4 (length elf % 2 ^ 32)

    whole : Bytes
    whole = header ++ (name ++ (version ++ (elf ++ rest)))

    regroup : build name version elf ++ rest ≡ whole
    regroup =
        ap (λ (tail : Bytes). header ++ tail)
          (append_assoc (name ++ version) elf rest ∙ append_assoc name version (elf ++ rest))

    version_len : ℕ
    version_len = of_le (le_bytes 2 (length version % 2 ^ 16))

    elf_len : ℕ
    elf_len = of_le (le_bytes 4 (length elf % 2 ^ 32))
