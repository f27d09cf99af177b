-- ===== src/Packages/Inflate/Ends.antt =====
-- inflate.rs: the loop of a block ends, since each symbol takes bits of the input.
use moon_os.Common.{
  ℕ, zero, suc, ◌+◌, ◌-◌, ◌*◌, ◌^◌, ◌≤◌, ◌<◌, bit_or, ◌≡◌, refl, sym, subst, inl, inr, Bool, true,
  false, Option, none, some, [], ◌∷◌, arith, dec_le, ℕ_discrete, ltb, ◌==◌, if◌then◌else◌, lt→ltb,
  ltb-ge, Bool-cases, ◌>>=◌, ◌>>◌, length,
}
use moon_os.Common.Bytes.{Bytes}
use moon_os.Packages.Inflate.{
  length_base, length_extra, dist_base, dist_extra, BitReader, refill, bits, take_bits, Huffman,
  leaf, or_else, at, decode_from, decode,
}
use moon_os.Packages.Inflate.Blocks.{
  bits_left, on_symbol, match_symbol, inflate_block, in_dist_base, back_reference,
}

-- What a filled buffer holds, if the input had enough: `need` bits at least, and `n` with the input.
abbrev IsFull : ℕ → ℕ → Option BitReader → Type 0
IsFull need n none = Unit
IsFull need n (some r) = (need ≤ BitReader.bit_cnt r) × (bits_left r ≡ n)

refill-IsFull :
    (need buf cnt : ℕ) (input : Bytes)
    → IsFull need (cnt + 8 * length input) (refill need buf cnt input)
unfolding refill
refill-IsFull need buf cnt [] = elim (dec_le need cnt) [
  | yes enough ↦ rw (ltb-ge cnt need enough) (enough, refl)
  | no short ↦ rw (lt→ltb cnt need (omega arith)) tt
]
refill-IsFull need buf cnt (byte ∷ input) = elim (dec_le need cnt) [
  | yes enough ↦ rw (ltb-ge cnt need enough) (enough, refl)
  | no short ↦ rw (lt→ltb cnt need (omega arith)) (
      subst (λ (n : ℕ). IsFull need n (refill need (bit_or buf (byte * 2 ^ cnt)) (cnt + 8) input))
        (omega arith) (refill-IsFull need (bit_or buf (byte * 2 ^ cnt)) (cnt + 8) input))
]

-- The bits that are left after an operation with a result.
abbrev AtMost {ℓ} : {A : Type ℓ} → ℕ → Option (A × BitReader) → Type 0
AtMost n none = Unit
AtMost n (some (a, r)) = bits_left r ≤ n

AtMost-bind {ℓ κ} :
    {A : Type ℓ} {B : Type κ} (m n : ℕ) (o : Option (A × BitReader))
    (f : A × BitReader → Option (B × BitReader))
    → AtMost m o
    → ((a : A) (r : BitReader) → bits_left r ≤ m → AtMost n (f (a, r)))
    → AtMost n (o >>= f)
AtMost-bind m n none f h k = tt
AtMost-bind m n (some (a, r)) f h k = k a r h

bits-AtMost : (r : BitReader) (need m : ℕ) → bits_left r ≤ need + m → AtMost m (bits r need)
unfolding bits
bits-AtMost r need m h =
    from_full (refill need (BitReader.bit_buf r) (BitReader.bit_cnt r) (BitReader.input r))
      (refill-IsFull need (BitReader.bit_buf r) (BitReader.bit_cnt r) (BitReader.input r))
  where
    from_full :
        (full : Option BitReader)
        → IsFull need (bits_left r) full
        → AtMost m (full >>= λ f. some (take_bits need f))
    from_full none g = tt
    from_full (some f) g = omega arith

leaf-AtMost :
    (len code first index : ℕ) (r : BitReader) (h : Huffman) (m : ℕ)
    → bits_left r ≤ m
    → AtMost m (leaf len code first index r h)
leaf-AtMost len code first index r h m few =
    elim (Bool-cases (ltb code (first + at (Huffman.count h) len))) [
      | inl found ↦ rw found few
      | inr missing ↦ rw missing tt
    ]

or_else-AtMost {ℓ} :
    {A : Type ℓ} (m : ℕ) (a b : Option (A × BitReader))
    → AtMost m a
    → AtMost m b
    → AtMost m (or_else a b)
or_else-AtMost m none b ha hb = hb
or_else-AtMost m (some x) b ha hb = ha

decode_from-AtMost :
    (rounds len code first index : ℕ) (r : BitReader) (h : Huffman) (m : ℕ)
    → bits_left r ≤ suc m
    → AtMost m (decode_from rounds len code first index r h)
unfolding decode_from
decode_from-AtMost zero len code first index r h m few = tt
decode_from-AtMost (suc rounds) len code first index r h m few =
    AtMost-bind m m (bits r 1) _ (bits-AtMost r 1 m (omega arith)) (λ bit r' fewer.
      or_else-AtMost m (leaf len (bit_or code bit) first index r' h) _
        (leaf-AtMost len (bit_or code bit) first index r' h m fewer)
        (decode_from-AtMost rounds (suc len) (2 * bit_or code bit)
          (2 * (first + at (Huffman.count h) len)) (index + at (Huffman.count h) len) r' h m
          (omega arith)))

AtMost-guarded {ℓ} :
    {A : Type ℓ} (m : ℕ) (o : Option (Unit {0})) (k : Option (A × BitReader))
    → AtMost m k
    → AtMost m (o >> k)
AtMost-guarded m none k h = tt
AtMost-guarded m (some x) k h = h

AtMost-paired :
    (m : ℕ) (o : Option Bytes) (r : BitReader)
    → bits_left r ≤ m
    → AtMost m (o >>= λ (out : Bytes). some (out, r))
AtMost-paired m none r few = tt
AtMost-paired m (some out) r few = few

match_symbol-AtMost :
    (sym : ℕ) (r : BitReader) (dist : Huffman) (out : Bytes) (m : ℕ)
    → bits_left r ≤ m
    → AtMost m (match_symbol sym r dist out)
unfolding match_symbol
match_symbol-AtMost sym r dist out m few =
    AtMost-bind m m (bits r (at length_extra (sym - 257))) _
      (bits-AtMost r (at length_extra (sym - 257)) m (omega arith))
      (λ extra r1 f1.
        AtMost-bind m m (decode r1 dist) _ (decode_from-AtMost 15 1 0 0 0 r1 dist m (omega arith))
          (λ dist_sym r2 f2. AtMost-guarded m (in_dist_base dist_sym) _ (
            AtMost-bind m m (bits r2 (at dist_extra dist_sym)) _
              (bits-AtMost r2 (at dist_extra dist_sym) m (omega arith))
              (λ more r3 f3.
                AtMost-paired m
                  (back_reference (at length_base (sym - 257) + extra)
                    (at dist_base dist_sym + more) out)
                  r3 f3))))

-- A symbol leaves no more bits than there were.
abbrev NoMore : ℕ → Option (Bool × Bytes × BitReader) → Type 0
NoMore n none = Unit
NoMore n (some (ended, out, r)) = bits_left r ≤ n

NoMore-continued :
    (m : ℕ) (o : Option (Bytes × BitReader))
    → AtMost m o
    → NoMore m (o >>= λ (next : Bytes × BitReader). some (false, next.0, next.1))
NoMore-continued m none h = tt
NoMore-continued m (some (out, r)) h = h

on_symbol-NoMore :
    (sym : ℕ) (r : BitReader) (dist : Huffman) (out : Bytes)
    → NoMore (bits_left r) (on_symbol sym r dist out)
unfolding on_symbol
on_symbol-NoMore sym r dist out = elim (Bool-cases (ltb sym 256)) [
  | inl literal ↦ rw literal (omega arith)
  | inr other ↦ elim (Bool-cases (sym == 256)) [
    | inl end ↦ rw (other, end) (omega arith)
    | inr longer ↦ elim (Bool-cases (ltb sym 286)) [
      | inr unknown ↦ rw (other, longer, unknown) tt
      | inl known ↦
          rw (other, longer, known)
            (NoMore-continued (bits_left r) (match_symbol sym r dist out)
              (match_symbol-AtMost sym r dist out (bits_left r) (omega arith)))
    ]
  ]
]

refill-none :
    (buf cnt : ℕ) (input : Bytes) → cnt + 8 * length input ≡ 0 → refill 1 buf cnt input ≡ none
unfolding refill
refill-none buf cnt [] empty = rw (lt→ltb cnt 1 (omega arith))
refill-none buf cnt (byte ∷ input) empty = absurd (omega arith)

decode-none : (r : BitReader) (h : Huffman) → bits_left r ≡ 0 → decode r h ≡ none
unfolding decode_from bits
decode-none r h empty =
    rw (refill-none (BitReader.bit_buf r) (BitReader.bit_cnt r) (BitReader.input r) empty)

bind-agree {ℓ κ} :
    {A : Type ℓ} {B : Type κ} (k : ℕ) (o : Option (A × BitReader)) (f g : A × BitReader → Option B)
    → AtMost k o
    → ((a : A) (r : BitReader) → bits_left r ≤ k → f (a, r) ≡ g (a, r))
    → (o >>= f) ≡ (o >>= g)
bind-agree k none f g few agree = refl
bind-agree k (some (a, r)) f g few agree = agree a r few

triple-agree {ℓ} :
    {B : Type ℓ} (k : ℕ) (o : Option (Bool × Bytes × BitReader))
    (f g : Bool × Bytes × BitReader → Option B)
    → NoMore k o
    → ((ended : Bool) (out : Bytes) (r : BitReader)
        → bits_left r ≤ k
        → f (ended, out, r) ≡ g (ended, out, r))
    → (o >>= f) ≡ (o >>= g)
triple-agree k none f g few agree = refl
triple-agree k (some (ended, out, r)) f g few agree = agree ended out r few

if-agree {ℓ} :
    {A : Type ℓ} (b : Bool) (x y z : A) → y ≡ z → (if b then x else y) ≡ (if b then x else z)
if-agree true x y z e = refl
if-agree false x y z e = e

inflate_block-agree :
    (m n : ℕ) (r : BitReader) (lit dist : Huffman) (out : Bytes)
    → bits_left r < m
    → bits_left r < n
    → inflate_block m r lit dist out ≡ inflate_block n r lit dist out
unfolding inflate_block
inflate_block-agree zero n r lit dist out hm hn = absurd (omega arith)
inflate_block-agree (suc m) zero r lit dist out hm hn = absurd (omega arith)
inflate_block-agree (suc m) (suc n) r lit dist out hm hn = elim (ℕ_discrete (bits_left r) 0) [
  | yes empty ↦ rw (decode-none r lit empty)
  | no some_left ↦
      bind-agree (bits_left r - 1) (decode r lit) _ _
        (decode_from-AtMost 15 1 0 0 0 r lit (bits_left r - 1) (omega arith))
        (λ symbol r1 fewer.
          triple-agree (bits_left r1) (on_symbol symbol r1 dist out) _ _
            (on_symbol-NoMore symbol r1 dist out)
            (λ ended out2 r2 no_more.
              if-agree ended (some (out2, r2)) _ _
                (inflate_block-agree m n r2 lit dist out2 (omega arith) (omega arith))))
]

-- The loop of a block ends: one round more than there are bits is enough on any input and with any
-- tables, and further rounds change nothing.
pub inflate_block-enough :
    (fuel : ℕ) (r : BitReader) (lit dist : Huffman) (out : Bytes)
    → bits_left r < fuel
    → inflate_block fuel r lit dist out ≡ inflate_block (suc (bits_left r)) r lit dist out
inflate_block-enough fuel r lit dist out enough =
    inflate_block-agree fuel (suc (bits_left r)) r lit dist out enough (omega arith)
