-- ===== src/Packages/Inflate/Stored.antt =====
-- inflate.rs: streams of stored blocks, as a compressor that does not compress writes them.
use moon_os.Common.{
  ℕ, zero, suc, ◌-◌, ◌*◌, ◌/◌, ◌%◌, ◌^◌, ◌<◌, ◌≡◌, refl, ap, ◌∙◌, true, some, List, [], ◌∷◌, ◌++◌,
  append_assoc, arith, ◌==◌, ltb-ge, length, take, drop, length-append, take-append, drop-append,
  All,
}
use moon_os.Common.Bytes.{Bytes, of_le}
use moon_os.Packages.Inflate.{new, refill, bits}
use moon_os.Packages.Inflate.Blocks.{stored_block, inflate_from, inflate}

-- A stored block: the bit that says whether it is the last, the length, its complement, and the bytes.
abbrev stored : ℕ → Bytes → Bytes → Bytes
stored final chunk rest =
    final
    ∷ (length chunk % 256)
    ∷ (length chunk / 256)
    ∷ ((65535 - length chunk) % 256)
    ∷ ((65535 - length chunk) / 256)
    ∷ (chunk ++ rest)

-- Blocks for the chunks, then a last one, and bytes after the stream.
abbrev stored_stream : List Bytes → Bytes → Bytes → Bytes
stored_stream [] final rest = stored 1 final rest
stored_stream (chunk ∷ chunks) final rest = stored 0 chunk (stored_stream chunks final rest)

abbrev joined : List Bytes → Bytes → Bytes
joined [] final = final
joined (chunk ∷ chunks) final = chunk ++ joined chunks final

length-stored_stream :
    (chunks : List Bytes) (final rest : Bytes)
    → length chunks < length (stored_stream chunks final rest)
length-stored_stream [] final rest = omega arith
length-stored_stream (chunk ∷ chunks) final rest = omega (
  arith,
  length-stored_stream chunks final rest,
  length-append chunk (stored_stream chunks final rest),
)

stored_block-stored :
    (cnt : ℕ) (chunk rest out : Bytes)
    → length chunk < 2 ^ 16
    → stored_block
        (record {
          input =
              (length chunk % 256)
              ∷ (length chunk / 256)
              ∷ ((65535 - length chunk) % 256)
              ∷ ((65535 - length chunk) / 256)
              ∷ (chunk ++ rest);
          bit_buf = 0;
          bit_cnt = cnt;
        })
        out
      ≡ some (out ++ chunk, new rest)
unfolding stored_block
stored_block-stored cnt chunk rest out fits =
    rw
      (
        ltb-ge (length whole) 4 (omega arith),
        sum_word,
        complement_word,
        ltb-ge (length (chunk ++ rest)) (length chunk) (omega (arith, length-append chunk rest)),
        take-append chunk rest,
        drop-append chunk rest,
      )
      refl
  where
    whole : Bytes
    whole =
        (length chunk % 256)
        ∷ (length chunk / 256)
        ∷ ((65535 - length chunk) % 256)
        ∷ ((65535 - length chunk) / 256)
        ∷ (chunk ++ rest)

    sum_word : of_le (take 2 whole) ≡ length chunk
    sum_word = omega arith

    complement_word : (of_le (drop 2 (take 4 whole)) == 65535 - length chunk) ≡ true
    complement_word = ground arith

inflate_from-stored :
    (fuel : ℕ) (chunks : List Bytes) (final rest out : Bytes)
    → length chunks < fuel
    → All (λ (chunk : Bytes). length chunk < 2 ^ 16) (final ∷ chunks)
    → inflate_from fuel (new (stored_stream chunks final rest)) out
      ≡ some (out ++ joined chunks final)
unfolding inflate_from bits refill
inflate_from-stored zero chunks final rest out enough fits = absurd (omega arith)
inflate_from-stored (suc fuel) [] final rest out enough fits =
    rw (stored_block-stored 5 final rest out fits.0)
inflate_from-stored (suc fuel) (chunk ∷ chunks) final rest out enough fits =
    rw (stored_block-stored 5 chunk (stored_stream chunks final rest) out fits.1.0) (
      inflate_from-stored fuel chunks final rest (out ++ chunk) (omega arith) (fits.0, fits.1.1)
      ∙ ap (λ (bytes : Bytes). some bytes) (append_assoc out chunk (joined chunks final)))

-- A stream of stored blocks inflates to their bytes, however they are cut into blocks of less than 64
-- KiB, and whatever stands after the stream.
pub inflate-stored_stream :
    (chunks : List Bytes) (final rest : Bytes)
    → All (λ (chunk : Bytes). length chunk < 2 ^ 16) (final ∷ chunks)
    → inflate (stored_stream chunks final rest) ≡ some (joined chunks final)
inflate-stored_stream chunks final rest fits =
    inflate_from-stored (8 * length (stored_stream chunks final rest)) chunks final rest []
      (omega (arith, length-stored_stream chunks final rest)) fits
