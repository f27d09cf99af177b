-- ===== src/Drivers/Mouse/Motions.antt =====
-- Packets in a row, through `handle_irq` of drivers/mouse.rs.
use moon_os.Common.{
  ℕ, ◌+◌, ◌-◌, ◌%◌, ◌^◌, ◌≤◌, ◌<◌, ◌≡◌, refl, ap, ap₂, ◌∙◌, ◌⊎◌, inl, inr, Bool, true, false, ◌&&◌,
  not, some, List, [], ◌∷◌, ◌++◌, arith, leb, ◌==◌, if◌then◌else◌, Bool-cases, All,
}
use moon_os.Common.Bytes.{Bytes}
use moon_os.Drivers.Mouse.{
  Mouse, Motion, has, moved, report, handle_irq, motion_of, process_packet, sync_bit, handle_byte,
}

-- The interrupts for a row of bytes.
abbrev pub feed : Mouse → Bytes → Mouse × List Motion
feed s [] = (s, [])
feed s (b ∷ bs) =
    let (s1, out) = handle_irq s (some b) in let (s2, more) = feed s1 bs in (s2, out ++ more)

-- What the mouse sends for a movement.
abbrev pub bit : Bool → ℕ → ℕ
bit b weight = if b then weight else 0

abbrev pub flags : Bool → Bool → Bool → Bool → Bool → ℕ
flags left right middle x_negative y_negative =
    8 + bit left 1 + bit right 2 + bit middle 4 + bit x_negative 16 + bit y_negative 32

abbrev pub negative : ℕ → Bool
negative d = leb (2 ^ 31) d

abbrev pub encode : Motion → Bytes
encode m =
    flags m.left m.right m.middle (negative m.dx) (negative m.dy) ∷ (m.dx % 256) ∷ (m.dy % 256) ∷ []

abbrev pub encode_all : List Motion → Bytes
encode_all [] = []
encode_all (m ∷ ms) = encode m ++ encode_all ms

-- From -256 to 255.
abbrev IsDelta : ℕ → Type 0
IsDelta d = (d < 256) ⊎ ((2 ^ 32 - 256 ≤ d) × (d < 2 ^ 32))

abbrev IsMotion : Motion → Type 0
IsMotion m = IsDelta m.dx × IsDelta m.dy

-- No movement, and no button down.
abbrev pub is_idle : Motion → Bool
is_idle m = m.dx == 0 && (m.dy == 0 && (not m.left && (not m.right && not m.middle)))

-- The movements that are not idle, in order.
abbrev pub busy : List Motion → List Motion
busy [] = []
busy (m ∷ ms) = if is_idle m then busy ms else m ∷ busy ms

report-busy : (m : Motion) (ms : List Motion) → (report m ++ busy ms) ≡ busy (m ∷ ms)
report-busy m ms = ground arith

record Flags (l r m x y : Bool) : Type 0 where
  sync : has (flags l r m x y) 0x08 ≡ true
  overflow : has (flags l r m x y) 0xC0 ≡ false
  x_sign : has (flags l r m x y) 0x10 ≡ x
  y_sign : has (flags l r m x y) 0x20 ≡ y
  left : has (flags l r m x y) 0x01 ≡ l
  right : has (flags l r m x y) 0x02 ≡ r
  middle : has (flags l r m x y) 0x04 ≡ m

flags_lem : (l r m x y : Bool) → Flags l r m x y
flags_lem l r m x y = record {
  sync = ground arith;
  overflow = ground arith;
  x_sign = ground arith;
  y_sign = ground arith;
  left = ground arith;
  right = ground arith;
  middle = ground arith;
}

moved_lem : (d : ℕ) → IsDelta d → moved (negative d) (d % 256) ≡ d
moved_lem d (inl small) = ground arith
moved_lem d (inr large) = ground arith

motion_of-encode :
    (m : Motion)
    → IsMotion m
    → motion_of
        (flags m.left m.right m.middle (negative m.dx) (negative m.dy))
        (m.dx % 256)
        (m.dy % 256)
      ≡ m
motion_of-encode m ok =
    let f = flags_lem m.left m.right m.middle (negative m.dx) (negative m.dy) in
    rw (f.x_sign, f.y_sign, f.left, f.right, f.middle, moved_lem m.dx ok.0, moved_lem m.dy ok.1)
      refl

process_packet-encode : (m : Motion) → IsMotion m → process_packet (encode m) ≡ report m
unfolding process_packet
process_packet-encode m ok =
    let f = flags_lem m.left m.right m.middle (negative m.dx) (negative m.dy) in
    rw (f.overflow, process_packet) (ap report (motion_of-encode m ok))

-- A packet whose first byte has the mark, from the start of a packet on.
feed-packet :
    (p0 p1 p2 b0 b1 b2 : ℕ) (rest : Bytes)
    → has b0 sync_bit ≡ true
    → feed (record { index = 0; packet = p0 ∷ p1 ∷ p2 ∷ [] }) (b0 ∷ b1 ∷ b2 ∷ rest) ≡ (
      (feed (record { index = 0; packet = b0 ∷ b1 ∷ b2 ∷ [] }) rest).0,
      process_packet (b0 ∷ b1 ∷ b2 ∷ [])
          ++ (feed (record { index = 0; packet = b0 ∷ b1 ∷ b2 ∷ [] }) rest).1,
    )
unfolding handle_irq
feed-packet p0 p1 p2 b0 b1 b2 rest marked = rw (marked, handle_byte) refl

-- Between packets, the bytes of any movements, in a row, are reported as these movements, those left
-- out that move nothing and have no button down, and leave the driver between packets.
pub feed-encode_all :
    (ms : List Motion) (p0 p1 p2 : ℕ)
    → All IsMotion ms
    → ((feed (record { index = 0; packet = p0 ∷ p1 ∷ p2 ∷ [] }) (encode_all ms)).0.index ≡ 0)
      × ((feed (record { index = 0; packet = p0 ∷ p1 ∷ p2 ∷ [] }) (encode_all ms)).1 ≡ busy ms)
feed-encode_all [] p0 p1 p2 ok = (refl, refl)
feed-encode_all (m ∷ ms) p0 p1 p2 ok =
    let f = flags_lem m.left m.right m.middle (negative m.dx) (negative m.dy) in
    let b0 = flags m.left m.right m.middle (negative m.dx) (negative m.dy) in
    let step = feed-packet p0 p1 p2 b0 (m.dx % 256) (m.dy % 256) (encode_all ms) f.sync in
    let later = feed-encode_all ms b0 (m.dx % 256) (m.dy % 256) ok.1 in
    (
      ap (λ (r : Mouse × List Motion). r.0.index) step ∙ later.0,
      ap (λ (r : Mouse × List Motion). r.1) step
          ∙ ap₂ (λ (a b : List Motion). a ++ b) (process_packet-encode m ok.0) later.1
          ∙ report-busy m ms,
    )

abbrev all_marked : List Motion → Bool
all_marked [] = true
all_marked (m ∷ ms) = has (m.dy % 256) sync_bit && all_marked ms

-- One byte too many: the packet's last byte is taken for the start of the next, if it has the mark.
late-packet :
    (p0 p1 p2 b0 b1 b2 : ℕ) (rest : Bytes)
    → (feed (record { index = 1; packet = p0 ∷ p1 ∷ p2 ∷ [] }) (b0 ∷ b1 ∷ b2 ∷ rest)).0.index ≡ (
        if has b2 sync_bit
        then (feed (record { index = 1; packet = b2 ∷ b0 ∷ b1 ∷ [] }) rest).0.index
        else (feed (record { index = 0; packet = p0 ∷ b0 ∷ b1 ∷ [] }) rest).0.index)
unfolding handle_irq
late-packet p0 p1 p2 b0 b1 b2 rest = elim (Bool-cases (has b2 sync_bit)) [
  | inl marked ↦ rw (marked, handle_byte) refl
  | inr unmarked ↦ rw (unmarked, handle_byte) refl
]

-- When a stray byte was taken for the first byte of a packet, the driver is back in step after a row
-- of movements just when one of them has a vertical part whose last byte lacks the mark; until then it
-- stays one byte late.
pub late-encode_all :
    (ms : List Motion) (p0 p1 p2 : ℕ)
    → All IsMotion ms
    → (feed (record { index = 1; packet = p0 ∷ p1 ∷ p2 ∷ [] }) (encode_all ms)).0.index
      ≡ (if all_marked ms then 1 else 0)
late-encode_all [] p0 p1 p2 ok = refl
late-encode_all (m ∷ ms) p0 p1 p2 ok =
    let b0 = flags m.left m.right m.middle (negative m.dx) (negative m.dy) in
    late-packet p0 p1 p2 b0 (m.dx % 256) (m.dy % 256) (encode_all ms)
    ∙ elim (Bool-cases (has (m.dy % 256) sync_bit)) [
      | inl marked ↦ rw marked (late-encode_all ms (m.dy % 256) b0 (m.dx % 256) ok.1)
      | inr unmarked ↦ rw unmarked (feed-encode_all ms p0 b0 (m.dx % 256) ok.1).0
    ]
