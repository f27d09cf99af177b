-- ===== src/Drivers/Keyboard/Tests.antt =====
-- drivers/keyboard.rs at concrete inputs.
use moon_os.Common.{◌≡◌, refl, false, [], ◌∷◌, arith}
use moon_os.Drivers.Keyboard.{
  on_key, on_special_key, alt_tab, handle_byte, initial, run, handle_code,
}
use moon_os.Drivers.Keyboard.Typing.{IsPlain, shift_chord_lem}

a_key-IsPlain : IsPlain 0x1E
a_key-IsPlain = (omega arith, omega arith, omega arith, omega arith, omega arith)

shift_chord_example :
    run initial (0x2A ∷ 0x1E ∷ 0x9E ∷ 0xAA ∷ 0x1E ∷ 0x9E ∷ [])
    ≡ (initial, on_key 65 ∷ on_key 97 ∷ [])
shift_chord_example = shift_chord_lem false false 0x1E a_key-IsPlain

alt_tab_run : (run initial (0x38 ∷ 0x0F ∷ 0x8F ∷ 0xB8 ∷ [])).1 ≡ on_special_key alt_tab ∷ []
unfolding run handle_byte handle_code
alt_tab_run = refl
