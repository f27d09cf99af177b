-- ===== src/Net/Stream/Trace.antt =====
-- net/tcp.rs, `TcpStream`: the segments that came while a read waited, and what they bring.
use moon_os.Common.{
  ℕ, zero, suc, ◌+◌, ◌%◌, ◌^◌, ◌<◌, bit_and, ◌≡◌, refl, sym, ap, ap₂, ◌∙◌, subst, inl, inr, true,
  false, none, some, List, [], ◌∷◌, ◌++◌, append-nil, append_assoc, arith, ◌==◌, if◌then◌else◌,
  Bool-cases, Option-cases, length,
}
use moon_os.Common.Bytes.{Bytes}
use moon_os.Net.State.{Net, RecvSeg}
use moon_os.Net.Tcp.{TcpStream, taken}
use moon_os.Net.Stream.{
  is_nil, is_fin, expected, on_segment, take_segment, take_payload, take_fin, drain_from,
  drain_available,
}

-- The segments that the polls of `drain_available` put into the inbox, in order.
unfoldable pub arrivals : (Net → Net) → ℕ → Net → TcpStream → List RecvSeg
arrivals poll zero s t = []
arrivals poll (suc fuel) s t = elim (Net.tcp_inbox (poll s)) [
  | none ↦ []
  | some seg ↦
      let after = on_segment poll (taken (poll s)) t seg in
      seg ∷ elim after.1 [ true ↦ [] | false ↦ arrivals poll fuel (after.0).0 (after.0).1 ]
]

-- The number of the byte that comes next after a segment with the expected number; a FIN counts as one.
abbrev pub number_after : ℕ → RecvSeg → ℕ
number_after number seg =
    (number + length seg.payload + (if bit_and seg.flags 1 == 0 then 0 else 1)) % 2 ^ 32

-- The peer's bytes in the segments from a sequence number on: the segments that begin with the number
-- that is next, in order, without the others.
abbrev pub bytes_in : ℕ → List RecvSeg → Bytes
bytes_in number [] = []
bytes_in number (seg ∷ segs) =
    if seg.seq == number
    then seg.payload ++ bytes_in (number_after number seg) segs
    else bytes_in number segs

-- The number that is next after the segments.
abbrev pub number_in : ℕ → List RecvSeg → ℕ
number_in number [] = number
number_in number (seg ∷ segs) =
    if seg.seq == number then number_in (number_after number seg) segs else number_in number segs

-- From `t` on, the segments have been taken: their bytes are behind what the buffer had, and the next
-- number is the acknowledgement number.
pub record Took (t : TcpStream) (segs : List RecvSeg) (bytes : Bytes) (ack : ℕ) : Type 0 where
  pub gained : bytes ≡ t.recv_buffer ++ bytes_in t.ack segs
  pub acknowledged : ack ≡ number_in t.ack segs

bytes_in-append :
    (number : ℕ) (xs ys : List RecvSeg)
    → bytes_in number (xs ++ ys) ≡ bytes_in number xs ++ bytes_in (number_in number xs) ys
bytes_in-append number [] ys = refl
bytes_in-append number (seg ∷ xs) ys = elim (Bool-cases (seg.seq == number)) [
  | inl same ↦ rw (same) (
      ap (λ (l : Bytes). seg.payload ++ l) (bytes_in-append (number_after number seg) xs ys)
      ∙ sym (append_assoc seg.payload (bytes_in (number_after number seg) xs) _))
  | inr other ↦ rw other (bytes_in-append number xs ys)
]

number_in-append :
    (number : ℕ) (xs ys : List RecvSeg)
    → number_in number (xs ++ ys) ≡ number_in (number_in number xs) ys
number_in-append number [] ys = refl
number_in-append number (seg ∷ xs) ys = elim (Bool-cases (seg.seq == number)) [
  | inl same ↦ rw same (number_in-append (number_after number seg) xs ys)
  | inr other ↦ rw other (number_in-append number xs ys)
]

number_in-lt : (number : ℕ) (segs : List RecvSeg) → number < 2 ^ 32 → number_in number segs < 2 ^ 32
number_in-lt number [] h = h
number_in-lt number (seg ∷ segs) h = elim (Bool-cases (seg.seq == number)) [
  | inl same ↦ rw same (number_in-lt (number_after number seg) segs (omega arith))
  | inr other ↦ rw other (number_in-lt number segs h)
]

pub Took-nil : (t : TcpStream) → Took t [] t.recv_buffer t.ack
Took-nil t = record { gained = sym (append-nil t.recv_buffer); acknowledged = refl }

pub Took-lt :
    (t : TcpStream) (segs : List RecvSeg) (bytes : Bytes) (ack : ℕ)
    → Took t segs bytes ack
    → t.ack < 2 ^ 32
    → ack < 2 ^ 32
Took-lt t segs bytes ack took small =
    subst (λ (n : ℕ). n < 2 ^ 32) (sym took.acknowledged) (number_in-lt t.ack segs small)

pub Took-trans :
    (t u : TcpStream) (xs ys : List RecvSeg) (bytes : Bytes) (ack : ℕ)
    → Took t xs u.recv_buffer u.ack
    → Took u ys bytes ack
    → Took t (xs ++ ys) bytes ack
Took-trans t u xs ys bytes ack first later = record {
  gained =
      later.gained
      ∙ ap₂ (λ (front : Bytes) (n : ℕ). front ++ bytes_in n ys) first.gained first.acknowledged
      ∙ append_assoc t.recv_buffer (bytes_in t.ack xs) (bytes_in (number_in t.ack xs) ys)
      ∙ ap (λ (l : Bytes). t.recv_buffer ++ l) (sym (bytes_in-append t.ack xs ys));
  acknowledged =
      later.acknowledged
      ∙ ap (λ (n : ℕ). number_in n ys) first.acknowledged
      ∙ sym (number_in-append t.ack xs ys);
}

bytes_in-one :
    (number : ℕ) (seg : RecvSeg)
    → bytes_in number (seg ∷ []) ≡ (if seg.seq == number then seg.payload else [])
bytes_in-one number seg = ground (arith, append-nil seg.payload)

number_in-one :
    (number : ℕ) (seg : RecvSeg)
    → number_in number (seg ∷ []) ≡ (if seg.seq == number then number_after number seg else number)
number_in-one number seg = refl

is_nil-eq : (bytes : Bytes) → is_nil bytes ≡ true → bytes ≡ []
is_nil-eq [] e = refl
is_nil-eq (b ∷ bytes) e = cc e

-- A segment with the expected number has been taken, with what `after` says of the new state.
Took-same :
    (t : TcpStream) (seg : RecvSeg) (bytes : Bytes) (ack : ℕ)
    → (seg.seq == t.ack) ≡ true
    → bytes ≡ t.recv_buffer ++ seg.payload
    → ack ≡ number_after t.ack seg
    → Took t (seg ∷ []) bytes ack
Took-same t seg bytes ack same gained acknowledged = record {
  gained =
      gained ∙ ap (λ (l : Bytes). t.recv_buffer ++ l) (sym (bytes_in-one t.ack seg ∙ rw same refl));
  acknowledged = acknowledged ∙ sym (number_in-one t.ack seg ∙ rw same refl);
}

-- Another segment changes nothing.
Took-other :
    (t : TcpStream) (seg : RecvSeg)
    → (seg.seq == t.ack) ≡ false
    → Took t (seg ∷ []) t.recv_buffer t.ack
Took-other t seg other = record {
  gained =
      sym (append-nil t.recv_buffer)
      ∙ ap (λ (l : Bytes). t.recv_buffer ++ l) (sym (bytes_in-one t.ack seg ∙ rw other refl));
  acknowledged = sym (number_in-one t.ack seg ∙ rw other refl);
}

on_segment-Took :
    (poll : Net → Net) (s : Net) (t : TcpStream) (seg : RecvSeg)
    → t.ack < 2 ^ 32
    → let u = ((on_segment poll s t seg).0).1 in Took t (seg ∷ []) u.recv_buffer u.ack
unfolding on_segment take_segment take_payload take_fin
on_segment-Took poll s t seg small = elim (Bool-cases (expected t seg)) [
  | inl same ↦ elim (Bool-cases (is_nil seg.payload)) [
    | inl empty ↦
        let nothing = is_nil-eq seg.payload empty in
        let kept : t.recv_buffer ≡ t.recv_buffer ++ seg.payload =
          sym (append-nil t.recv_buffer) ∙ ap (λ (l : Bytes). t.recv_buffer ++ l) (sym nothing) in
        elim (Bool-cases (is_fin seg)) [
          | inl fin ↦
              rw (same, fin, empty)
                (Took-same t seg _ _ same kept (ground (arith, ap length nothing)))
          | inr more ↦
              rw (same, more, empty)
                (Took-same t seg _ _ same kept (ground (arith, ap length nothing)))
        ]
    | inr full ↦ elim (Bool-cases (is_fin seg)) [
      | inl fin ↦ rw (same, fin, full) (Took-same t seg _ _ same refl (ground arith))
      | inr more ↦ rw (same, more, full) (Took-same t seg _ _ same refl (ground arith))
    ]
  ]
  | inr other ↦ rw other (Took-other t seg other)
]

drain_from-Took :
    (poll : Net → Net) (fuel : ℕ) (s : Net) (t : TcpStream)
    → t.ack < 2 ^ 32
    → let u = (drain_from poll fuel s t).1 in Took t (arrivals poll fuel s t) u.recv_buffer u.ack
unfolding drain_from arrivals
drain_from-Took poll zero s t small = Took-nil t
drain_from-Took poll (suc fuel) s t small = elim (Option-cases (Net.tcp_inbox (poll s))) [
  | inl empty ↦ rw (empty, drain_from, arrivals) (Took-nil t)
  | inr (seg, full) ↦
      let after = on_segment poll (taken (poll s)) t seg in
      let took = on_segment-Took poll (taken (poll s)) t seg small in
      elim (Bool-cases after.1) [
        | inl closed ↦ rw (full, closed, drain_from, arrivals) took
        | inr more ↦
            rw (full, more, drain_from, arrivals)
              (Took-trans t (after.0).1 (seg ∷ []) (arrivals poll fuel (after.0).0 (after.0).1) _ _
                took
                (drain_from-Took poll fuel (after.0).0 (after.0).1
                  (Took-lt t (seg ∷ []) _ _ took small)))
      ]
]

pub drain_available-Took :
    (poll : Net → Net) (s : Net) (t : TcpStream)
    → t.ack < 2 ^ 32
    → let u = (drain_available poll s t).1 in
      Took t (arrivals poll (2 + length s.incoming) s t) u.recv_buffer u.ack
drain_available-Took poll s t small = drain_from-Took poll (2 + length s.incoming) s t small
