-- ===== src/Net/Dns/Names.antt =====
-- `skip_name` of net/dns.rs ends behind the name.
use moon_os.Common.{
  ℕ, zero, suc, ◌+◌, ◌*◌, ◌/◌, ◌%◌, ◌≤◌, ◌<◌, bit_and, ◌≡◌, refl, ap, ◌∙◌, true, false, List, [],
  ◌∷◌, ◌++◌, append_assoc, arith, ◌==◌, length, drop, length-append, drop-append, All,
}
use moon_os.Common.Bytes.{Bytes}
use moon_os.Common.Bits.{bit_and_high}
use moon_os.Net.Dns.{encode_labels, skip_from, skip_name}
use moon_os.Net.Dns.Views.{get_elem?-view, drop_view, length-view}

-- A name in a response: labels, or a pointer to a name before it.
pub data Name : Type 0 where
  labels : List Bytes → Name
  pointer : ℕ → ℕ → Name

abbrev pub encode_name : Name → Bytes
encode_name (labels ls) = encode_labels ls ++ 0 ∷ []
encode_name (pointer high low) = high ∷ low ∷ []

abbrev pub IsLabel : Bytes → Type 0
IsLabel l = (0 < length l) × (length l < 64)

abbrev pub IsName : Name → Type 0
IsName (labels ls) = All IsLabel ls
IsName (pointer high low) = (192 ≤ high) × (high < 256)

-- The two bits that tell a pointer from a label.
pointer_bits : (b : ℕ) → bit_and b 0xC0 ≡ b / 64 % 4 * 64
pointer_bits b = bit_and_high 6 2 b

-- Where the loop comes to, and what stands there.
abbrev pub Behind : Bytes → Bytes → ℕ → ℕ → Type 0
Behind content post i k = (i < k) × (drop k content ≡ post)

skip_from-labels :
    (ls : List Bytes) (n : ℕ) (content post : Bytes) (i : ℕ)
    → All IsLabel ls
    → length ls < n
    → drop i content ≡ encode_labels ls ++ 0 ∷ post
    → Behind content post i (skip_from n content i)
unfolding skip_from
skip_from-labels ls zero content post i ok enough here = absurd (omega arith)
skip_from-labels [] (suc n) content post i ok enough here =
    rw (get_elem?-view content post i 0 here, skip_from)
      (omega arith, drop_view content (0 ∷ post) i 1 (i + 1) refl here)
skip_from-labels (l ∷ ls) (suc n) content post i ok enough here =
    let len = length l % 256 in
    let not_end : (len == 0) ≡ false = ground arith in
    let not_pointer : (bit_and len 0xC0 == 0xC0) ≡ false = ground (arith, pointer_bits len) in
    let next : drop (i + 1 + len) content ≡ encode_labels ls ++ 0 ∷ post =
      drop_view content (encode_labels (l ∷ ls) ++ 0 ∷ post) i (suc (length l)) (i + 1 + len)
        (omega arith) here
      ∙ ap (λ (x : Bytes). drop (length l) x) (append_assoc l (encode_labels ls) (0 ∷ post))
      ∙ drop-append l (encode_labels ls ++ 0 ∷ post) in
    let later = skip_from-labels ls n content post (i + 1 + len) ok.1 (omega arith) next in
    rw
      (
        get_elem?-view content ((l ++ encode_labels ls) ++ 0 ∷ post) i len here,
        not_end,
        not_pointer,
        skip_from,
      )
      (omega (arith, later.0), later.1)

skip_from-pointer :
    (high low n : ℕ) (content post : Bytes) (i : ℕ)
    → 192 ≤ high
    → high < 256
    → 0 < n
    → drop i content ≡ high ∷ low ∷ post
    → Behind content post i (skip_from n content i)
unfolding skip_from
skip_from-pointer high low zero content post i big small enough here = absurd (omega arith)
skip_from-pointer high low (suc n) content post i big small enough here =
    let not_end : (high == 0) ≡ false = ground arith in
    let is_pointer : (bit_and high 0xC0 == 0xC0) ≡ true = ground (arith, pointer_bits high) in
    rw (get_elem?-view content (low ∷ post) i high here, not_end, is_pointer, skip_from)
      (omega arith, drop_view content (high ∷ low ∷ post) i 2 (i + 2) refl here)

length-encode_labels : (ls : List Bytes) → length ls ≤ length (encode_labels ls)
length-encode_labels [] = omega arith
length-encode_labels (l ∷ ls) =
    omega (arith, length-encode_labels ls, length-append l (encode_labels ls))

-- A name that stands in a packet is skipped: the index comes behind it.
pub skip_name-Behind :
    (name : Name) (content post : Bytes) (i : ℕ)
    → IsName name
    → drop i content ≡ encode_name name ++ post
    → Behind content post i (skip_name content i)
unfolding skip_name
skip_name-Behind (labels ls) content post i ok here =
    let here' : drop i content ≡ encode_labels ls ++ 0 ∷ post =
      here ∙ append_assoc (encode_labels ls) (0 ∷ []) post in
    skip_from-labels ls (length content) content post i ok
      (omega (
        arith,
        length-view content _ i here',
        length-append (encode_labels ls) (0 ∷ post),
        length-encode_labels ls,
      ))
      here'
skip_name-Behind (pointer high low) content post i ok here =
    skip_from-pointer high low (length content) content post i ok.0 ok.1
      (omega (arith, length-view content (high ∷ low ∷ post) i here)) here
