-- ===== src/Drivers/Mouse.antt =====
-- drivers/mouse.rs: the packets of the PS/2 mouse. The byte that `ps2::read_data` returned, if any, is
-- an argument, and a call of `gui::on_mouse` is an event. An i32 is its 32 bits.
pub mod Motions
mod Tests
use moon_os.Common.{
  ℕ, ◌+◌, ◌-◌, ◌%◌, ◌^◌, bit_and, Bool, ◌&&◌, ◌||◌, not, Option, none, some, List, [], ◌∷◌, ltb,
  ◌==◌, if◌then◌else◌, set, get_or,
}
use moon_os.Common.Bytes.{Bytes}

-- The statics `PACKET_INDEX` and `PACKET`.
pub record Mouse : Type 0 where
  pub index : ℕ
  pub packet : Bytes

pub record Motion : Type 0 where
  pub dx : ℕ
  pub dy : ℕ
  pub left : Bool
  pub right : Bool
  pub middle : Bool

abbrev pub sync_bit : ℕ
sync_bit = 0x08

abbrev pub has : ℕ → ℕ → Bool
has flags bits = not (bit_and flags bits == 0)

-- A movement, with its sign in the flags.
abbrev pub moved : Bool → ℕ → ℕ
moved negative d = if negative then (d + 2 ^ 32 - 256) % 2 ^ 32 else d

abbrev pub motion_of : ℕ → ℕ → ℕ → Motion
motion_of flags x y = record {
  dx = moved (has flags 0x10) x;
  dy = moved (has flags 0x20) y;
  left = has flags 0x01;
  right = has flags 0x02;
  middle = has flags 0x04;
}

abbrev pub report : Motion → List Motion
report m =
    if not (m.dx == 0) || not (m.dy == 0) || m.left || m.right || m.middle then m ∷ [] else []

unfoldable pub process_packet : Bytes → List Motion
process_packet packet =
    let flags = get_or packet 0 0 in
    if has flags 0xC0 then [] else report (motion_of flags (get_or packet 1 0) (get_or packet 2 0))

unfoldable pub handle_byte : Mouse → ℕ → Mouse × List Motion
unfolding process_packet
handle_byte s byte =
    let packet = set s.packet s.index byte in
    if s.index == 0 && not (has byte sync_bit)
    then (s, [])
    else if ltb s.index 2
    then (record { index = s.index + 1; packet = packet }, [])
    else (record { index = 0; packet = packet }, process_packet packet)

unfoldable pub handle_irq : Mouse → Option ℕ → Mouse × List Motion
unfolding handle_byte
handle_irq s none = (s, [])
handle_irq s (some byte) = handle_byte s byte
