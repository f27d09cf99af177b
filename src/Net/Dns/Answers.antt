-- ===== src/Net/Dns/Answers.antt =====
-- `parse_response` of net/dns.rs finds the first address in a response.
use moon_os.Common.{
  ℕ, zero, suc, ◌+◌, ◌-◌, ◌≤◌, ◌<◌, ◌≡◌, refl, sym, ap, ◌∙◌, inl, inr, Bool, true, false, ◌&&◌,
  ◌||◌, some, List, [], ◌∷◌, ◌++◌, append_assoc, arith, ltb, leb, ◌==◌, ==_iff, Bool-cases, le→leb,
  length, take, drop, length-append, take-append, drop-append, All,
}
use moon_os.Common.Bits.{and_right}
use moon_os.Net.Dns.{find_address, skip_name, build_query, parse_response, labels_of, encode_labels}
use moon_os.Common.Bytes.{Bytes, be16, be32}
use moon_os.Net.State.{word_at}
use moon_os.Net.Dns.Views.{get_or-view, drop_view, length-view}
use moon_os.Net.Dns.Names.{Name, encode_name, IsName, Behind, skip_name-Behind, IsLabel, labels}

-- A resource record.
pub record Rr : Type 0 where
  pub owner : Name
  pub rtype : ℕ
  pub class : ℕ
  pub ttl : ℕ
  pub rdata : Bytes

abbrev pub fields : ℕ → ℕ → ℕ → Bytes → Bytes → Bytes
fields rtype class ttl rdata post =
    be16 rtype ++ (be16 class ++ (be32 ttl ++ (be16 (length rdata) ++ (rdata ++ post))))

abbrev pub encode_rr : Rr → Bytes → Bytes
encode_rr r post = encode_name r.owner ++ fields r.rtype r.class r.ttl r.rdata post

abbrev pub encode_rrs : List Rr → Bytes → Bytes
encode_rrs [] post = post
encode_rrs (r ∷ rs) post = encode_rr r (encode_rrs rs post)

abbrev is_address : Rr → Bool
is_address r = r.rtype == 1 && length r.rdata == 4

abbrev IsRr : Rr → Type 0
IsRr r = IsName r.owner × (r.rtype < 65536) × (length r.rdata < 65536)

abbrev IsOther : Rr → Type 0
IsOther r = IsRr r × (is_address r ≡ false)

-- What the code reads behind a record's name.
record Read (content : Bytes) (j rtype : ℕ) (rdata post : Bytes) : Type 0 where
  typed : word_at content j ≡ rtype
  sized : word_at content (j + 8) ≡ length rdata
  behind : drop (j + 10) content ≡ rdata ++ post
  inside : j + 10 + length rdata ≤ length content

Read-fields :
    (content : Bytes) (j rtype class ttl : ℕ) (rdata post : Bytes)
    → rtype < 65536
    → length rdata < 65536
    → drop j content ≡ fields rtype class ttl rdata post
    → Read content j rtype rdata post
Read-fields content j rtype class ttl rdata post ht hl here = record {
  typed = omega (
    arith,
    get_or-view content _ j _ 0 here,
    get_or-view content _ (suc j) _ 0 (from 1 (suc j) (omega arith)),
  );
  sized = omega (
    arith,
    get_or-view content _ (j + 8) _ 0 (from 8 (j + 8) refl),
    get_or-view content _ (suc (j + 8)) _ 0 (from 9 (suc (j + 8)) (omega arith)),
  );
  behind = from 10 (j + 10) refl;
  inside = omega (arith, length-view content _ j here, length-append rdata post);
}
  where
    from : (n k : ℕ) → k ≡ j + n → drop k content ≡ drop n (fields rtype class ttl rdata post)
    from n k e = drop_view content (fields rtype class ttl rdata post) j n k e here

-- A record at the index: it is the answer if it is an address, or else the loop goes on behind it.
module _ (n : ℕ) (content post : Bytes) (i : ℕ) (r : Rr) (ok : IsRr r)
    (here : drop i content ≡ encode_rr r post) where
  abbrev j : ℕ
  j = skip_name content i

  name_skipped : Behind content (fields r.rtype r.class r.ttl r.rdata post) i j
  name_skipped = skip_name-Behind r.owner content _ i ok.0 here

  reads : Read content j r.rtype r.rdata post
  reads = Read-fields content j r.rtype r.class r.ttl r.rdata post ok.1 ok.2 name_skipped.1

  fits : (leb (length content) i || ltb (length content) (j + 10)) ≡ false
  fits = ground (arith, name_skipped.0, reads.inside)

  tested :
      (word_at content j == 1 && (word_at content (j + 8) == 4 && leb (j + 14) (length content)))
      ≡ is_address r
  tested =
      rw (reads.typed, reads.sized)
        (elim (Bool-cases (length r.rdata == 4)) [
          | inl four ↦
              rw
                (
                  four,
                  le→leb (j + 14) (length content)
                      (omega (arith, (==_iff (length r.rdata) 4).0 four, reads.inside)),
                )
                refl
          | inr other ↦ rw other refl
        ])

  find_address-other :
      is_address r ≡ false
      → find_address (suc n) content i ≡ find_address n content (j + 10 + length r.rdata)
  unfolding find_address
  find_address-other other =
      rw (fits, tested, other, find_address)
        (ap (λ (size : ℕ). find_address n content (j + 10 + size)) reads.sized)

  find_address-found : is_address r ≡ true → find_address (suc n) content i ≡ some r.rdata
  unfolding find_address
  find_address-found found =
      rw (fits, tested, found, find_address)
        (ap some (
          ap (λ (rest : Bytes). take (j + 14 - (j + 10)) rest) reads.behind
          ∙ ap (λ (size : ℕ). take size (r.rdata ++ post))
              (omega (arith, (==_iff (length r.rdata) 4).0 (and_right (r.rtype == 1) _ found)))
          ∙ take-append r.rdata post))

-- Records that are no addresses are passed over.
find_address-others :
    (others : List Rr) (more count : ℕ) (content post : Bytes) (i : ℕ)
    → All IsOther others
    → count ≡ length others + more
    → drop i content ≡ encode_rrs others post
    → (k : ℕ) × (find_address count content i ≡ find_address more content k)
      × (drop k content ≡ post)
find_address-others [] more count content post i ok e here =
    (i, ap (λ (n : ℕ). find_address n content i) (omega arith), here)
find_address-others (r ∷ others) more zero content post i ok e here = absurd (omega arith)
find_address-others (r ∷ others) more (suc count) content post i ok e here =
    let next = skip_name content i + 10 + length r.rdata in
    let behind = reads count content (encode_rrs others post) i r ok.0.0 here in
    let past =
      drop_view content _ (skip_name content i + 10) (length r.rdata) next refl behind.behind
      ∙ drop-append r.rdata (encode_rrs others post) in
    let (k, same, there) =
      find_address-others others more count content post next ok.1 (omega arith) past in
    (k, find_address-other count content _ i r ok.0.0 here ok.0.1 ∙ same, there)

-- A response to a query: the query's own question, then `count` answers.
abbrev pub response : ℕ → ℕ → ℕ → Bytes → Bytes → Bytes
response id flags count name answers =
    (be16 id ++ (be16 flags ++ (be16 1 ++ (be16 count ++ (be16 0 ++ be16 0)))))
    ++ (drop 12 (build_query id name) ++ answers)

-- A response with the query's id and question, the name's labels having from 1 to 63 bytes each,
-- whose answers are any records that are no addresses and then an address, and anything after
-- it, gives that address, if the count of answers covers it. Owners of records are labels or a pointer.
pub parse_response-response :
    (id flags count : ℕ) (name rest : Bytes) (others : List Rr) (a : Rr)
    → id < 65536
    → count < 65536
    → length others < count
    → All IsLabel (labels_of name)
    → All IsOther others
    → IsRr a
    → is_address a ≡ true
    → parse_response (response id flags count name (encode_rrs others (encode_rr a rest))) id
      ≡ some a.rdata
unfolding parse_response
parse_response-response id flags count name rest others a hid hcount enough ok_name ok_others ok_a
      found =
    let tail = encode_rrs others (encode_rr a rest) in
    let content = response id flags count name tail in
    let asked : drop 12 content ≡ encode_name (labels (labels_of name)) ++ 0 ∷ 1 ∷ 0 ∷ 1 ∷ tail =
      append_assoc (encode_labels (labels_of name)) (0 ∷ 0 ∷ 1 ∷ 0 ∷ 1 ∷ []) tail
      ∙ sym (append_assoc (encode_labels (labels_of name)) (0 ∷ []) (0 ∷ 1 ∷ 0 ∷ 1 ∷ tail)) in
    let behind =
      skip_name-Behind (labels (labels_of name)) content (0 ∷ 1 ∷ 0 ∷ 1 ∷ tail) 12 ok_name asked in
    let start = skip_name content 12 + 4 in
    let more = count - length others - 1 in
    let (k, same, there) =
      find_address-others others (suc more) count content (encode_rr a rest) start ok_others
        (omega arith)
        (drop_view content (0 ∷ 1 ∷ 0 ∷ 1 ∷ tail) (skip_name content 12) 4 start refl behind.1) in
    let sized : leb 12 (length content) ≡ true = ground arith in
    let same_id : (word_at content 0 == id) ≡ true = ground arith in
    let counted : word_at content 6 ≡ count = omega arith in
    rw (sized, same_id, parse_response)
      (ap (λ (n : ℕ). find_address n content start) counted
        ∙ same
        ∙ find_address-found more content rest k a ok_a there found)
