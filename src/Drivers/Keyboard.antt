-- ===== src/Drivers/Keyboard.antt =====
-- drivers/keyboard.rs: scancode set 1 into characters and special keys. The byte that `ps2::read_data`
-- returned, if any, is an argument, and the calls of `gui::on_key` and `gui::on_special_key` are a
-- list of events.
pub mod Typing
pub mod Tests
use moon_os.Common.Bytes.{Bytes}
use moon_os.Common.{
  ℕ, bit_and, Bool, true, false, ◌&&◌, ◌||◌, not, Option, none, some, List, [], ◌∷◌, ◌++◌, ◌==◌,
  if◌then◌else◌, get_or, replicate,
}

-- The statics `ALT_DOWN`, `SHIFT_DOWN` and `PENDING_EXTENDED`.
pub record Keyboard : Type 0 where
  pub alt_down : Bool
  pub shift_down : Bool
  pub pending_extended : Bool

pub data SpecialKey : Type 0 where
  up : SpecialKey
  down : SpecialKey
  left : SpecialKey
  right : SpecialKey
  alt_tab : SpecialKey

pub data Event : Type 0 where
  on_key : ℕ → Event
  on_special_key : SpecialKey → Event

abbrev pub scancode_ascii : Bytes
scancode_ascii =
    0
    ∷ 0
    ∷ 49
    ∷ 50
    ∷ 51
    ∷ 52
    ∷ 53
    ∷ 54
    ∷ 55
    ∷ 56
    ∷ 57
    ∷ 48
    ∷ 45
    ∷ 61
    ∷ 8
    ∷ 9
    ∷ 113
    ∷ 119
    ∷ 101
    ∷ 114
    ∷ 116
    ∷ 121
    ∷ 117
    ∷ 105
    ∷ 111
    ∷ 112
    ∷ 91
    ∷ 93
    ∷ 10
    ∷ 0
    ∷ 97
    ∷ 115
    ∷ 100
    ∷ 102
    ∷ 103
    ∷ 104
    ∷ 106
    ∷ 107
    ∷ 108
    ∷ 59
    ∷ 39
    ∷ 96
    ∷ 0
    ∷ 92
    ∷ 122
    ∷ 120
    ∷ 99
    ∷ 118
    ∷ 98
    ∷ 110
    ∷ 109
    ∷ 44
    ∷ 46
    ∷ 47
    ∷ 0
    ∷ 0
    ∷ 0
    ∷ 32
    ∷ replicate 70 0

abbrev pub scancode_ascii_shifted : Bytes
scancode_ascii_shifted =
    0
    ∷ 0
    ∷ 33
    ∷ 64
    ∷ 35
    ∷ 36
    ∷ 37
    ∷ 94
    ∷ 38
    ∷ 42
    ∷ 40
    ∷ 41
    ∷ 95
    ∷ 43
    ∷ 8
    ∷ 9
    ∷ 81
    ∷ 87
    ∷ 69
    ∷ 82
    ∷ 84
    ∷ 89
    ∷ 85
    ∷ 73
    ∷ 79
    ∷ 80
    ∷ 123
    ∷ 125
    ∷ 10
    ∷ 0
    ∷ 65
    ∷ 83
    ∷ 68
    ∷ 70
    ∷ 71
    ∷ 72
    ∷ 74
    ∷ 75
    ∷ 76
    ∷ 58
    ∷ 34
    ∷ 126
    ∷ 0
    ∷ 124
    ∷ 90
    ∷ 88
    ∷ 67
    ∷ 86
    ∷ 66
    ∷ 78
    ∷ 77
    ∷ 60
    ∷ 62
    ∷ 63
    ∷ 0
    ∷ 0
    ∷ 0
    ∷ 32
    ∷ replicate 70 0

-- The arrow keys after the `0xE0` prefix.
abbrev arrow_key : ℕ → Option SpecialKey
arrow_key code =
    if code == 0x48
    then some up
    else (if code == 0x50
        then some down
        else (if code == 0x4B then some left else (if code == 0x4D then some right else none)))

abbrev special : Option SpecialKey → List Event
special none = []
special (some key) = on_special_key key ∷ []

abbrev pub character : Bool → ℕ → ℕ
character shift code = get_or (if shift then scancode_ascii_shifted else scancode_ascii) code 0

abbrev pub typed : ℕ → List Event
typed ascii = if ascii == 0 then [] else on_key ascii ∷ []

-- A key press, when the code is no modifier.
abbrev pressed : Keyboard → Bool → ℕ → List Event
pressed k extended code =
    if extended
    then special (arrow_key code)
    else (if code == 0x0F && Keyboard.alt_down k
        then on_special_key alt_tab ∷ []
        else typed (character (Keyboard.shift_down k) code))

-- A byte after the test for the prefix.
unfoldable pub handle_code : Keyboard → Bool → Bool → ℕ → Keyboard × List Event
handle_code k extended released code =
    if code == 0x38
    then (record k { alt_down = not released }, [])
    else (if code == 0x2A || code == 0x36
        then (record k { shift_down = not released }, [])
        else (if released then (k, []) else (k, pressed k extended code)))

unfoldable pub handle_byte : Keyboard → ℕ → Keyboard × List Event
handle_byte k scancode =
    if scancode == 0xE0
    then (record k { pending_extended = true }, [])
    else handle_code (record k { pending_extended = false }) (Keyboard.pending_extended k)
        (if bit_and scancode 0x80 == 0 then false else true) (bit_and scancode 0x7F)

abbrev handle_irq : Keyboard → Option ℕ → Keyboard × List Event
handle_irq k none = (k, [])
handle_irq k (some scancode) = handle_byte k scancode

abbrev pub initial : Keyboard
initial = record { alt_down = false; shift_down = false; pending_extended = false }

-- The bytes of a sequence of interrupts, one after the other.
unfoldable pub run : Keyboard → Bytes → Keyboard × List Event
run k [] = (k, [])
run k (b ∷ bs) =
    let first = handle_irq k (some b) in let rest = run first.0 bs in (rest.0, first.1 ++ rest.1)
