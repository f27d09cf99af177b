-- ===== src/Drivers/Keyboard/Typing.antt =====
-- drivers/keyboard.rs: chords, releases and the characters that can be typed.
use moon_os.Common.{
  ℕ, zero, suc, ◌+◌, ◌-◌, ◌≤◌, ◌<◌, bit_and, ◌≡◌, refl, ap, ap₂, ◌∙◌, subst, ◌≢◌, Bool, true, false,
  ◌&&◌, not, List, [], ◌∷◌, ◌++◌, append-nil, arith, ltb, leb, ◌==◌, if◌then◌else◌, get_or,
}
use moon_os.Common.Bits.{all_below, all_below_sound}
use moon_os.Common.Bytes.{Bytes}
use moon_os.Drivers.Keyboard.{
  Keyboard, Event, on_key, scancode_ascii, scancode_ascii_shifted, character, handle_code,
  handle_byte, run, typed,
}

-- A code that `handle_irq` looks up in the tables while Alt is up.
abbrev pub IsPlain : ℕ → Type 0
IsPlain code = (code < 128) × (code ≢ 0x38) × (code ≢ 0x2A) × (code ≢ 0x36) × (code ≢ 0x60)

abbrev low_bits : ℕ → Bool
low_bits code =
    (bit_and code 0x7F == code && bit_and code 0x80 == 0)
    && (bit_and (code + 128) 0x7F == code && not (bit_and (code + 128) 0x80 == 0))

low_bits_table : all_below 128 low_bits ≡ true
unfolding all_below
low_bits_table = refl

low_bits_lem :
    (code : ℕ)
    → code < 128
    → (bit_and code 0x7F ≡ code)
      × (bit_and code 0x80 ≡ 0)
      × (bit_and (code + 128) 0x7F ≡ code)
      × ((bit_and (code + 128) 0x80 == 0) ≡ false)
low_bits_lem code h = ground (arith, all_below_sound 128 low_bits code low_bits_table h)

press :
    (k : Keyboard) (code : ℕ)
    → code < 128
    → handle_byte k code
      ≡ handle_code (record k { pending_extended = false }) (Keyboard.pending_extended k) false code
unfolding handle_byte
press k code h = ground (arith, low_bits_lem code h)

release :
    (k : Keyboard) (code : ℕ)
    → code < 128
    → code ≢ 0x60
    → handle_byte k (code + 128)
      ≡ handle_code (record k { pending_extended = false }) (Keyboard.pending_extended k) true code
unfolding handle_byte
release k code h ne = ground (arith, low_bits_lem code h)

-- The release of a key, with a code below 128 other than 0x60, is no event.
release-silent :
    (k : Keyboard) (code : ℕ) → code < 128 → code ≢ 0x60 → (handle_byte k (code + 128)).1 ≡ []
unfolding handle_code
release-silent k code h ne = ground (arith, release k code h ne)

plain_press :
    (shift : Bool) (code : ℕ)
    → IsPlain code
    → handle_byte (record { alt_down = false; shift_down = shift; pending_extended = false }) code
      ≡ (
        record { alt_down = false; shift_down = shift; pending_extended = false },
        typed (character shift code),
      )
unfolding handle_code
plain_press shift code (h, a, l, r, p) = ground (
  arith,
  press (record { alt_down = false; shift_down = shift; pending_extended = false }) code h,
)

plain_release :
    (shift : Bool) (code : ℕ)
    → IsPlain code
    → handle_byte
        (record { alt_down = false; shift_down = shift; pending_extended = false })
        (code + 128)
      ≡ (record { alt_down = false; shift_down = shift; pending_extended = false }, [])
unfolding handle_code
plain_release shift code (h, a, l, r, p) = ground (
  arith,
  release (record { alt_down = false; shift_down = shift; pending_extended = false }) code h p,
)

shift_press :
    (k : Keyboard)
    → handle_byte k 0x2A ≡ (record k { shift_down = true; pending_extended = false }, [])
unfolding handle_byte handle_code
shift_press k = refl

shift_release :
    (k : Keyboard)
    → handle_byte k 0xAA ≡ (record k { shift_down = false; pending_extended = false }, [])
unfolding handle_byte handle_code
shift_release k = refl

-- What a key types that has the character in a table, where 0 stands for none.
abbrev pub key_events : ℕ → List Event
key_events zero = []
key_events (suc c) = on_key (suc c) ∷ []

typed-key_events : (c : ℕ) → typed c ≡ key_events c
typed-key_events zero = refl
typed-key_events (suc c) = ground arith

-- While Alt is up, and for a code below 128 other than those of Alt, the two Shift keys and 0x60:
-- pressing Shift and the key and releasing both types the shifted character of the key, if the
-- table has one, which is another byte than 0, and the same key after that types the plain one
-- likewise, whatever Shift and the prefix
-- were before. Afterwards Shift is up, and no prefix is pending.
pub shift_chord_lem :
    (shift pending : Bool) (code : ℕ)
    → IsPlain code
    → run
        (record { alt_down = false; shift_down = shift; pending_extended = pending })
        (0x2A ∷ code ∷ (code + 128) ∷ 0xAA ∷ code ∷ (code + 128) ∷ [])
      ≡ (
        record { alt_down = false; shift_down = false; pending_extended = false },
        key_events (get_or scancode_ascii_shifted code 0)
            ++ key_events (get_or scancode_ascii code 0),
      )
unfolding run
shift_chord_lem shift pending code plain =
    rw
      (
        shift_press (record { alt_down = false; shift_down = shift; pending_extended = pending }),
        plain_press true code plain,
        plain_release true code plain,
        shift_release (record { alt_down = false; shift_down = true; pending_extended = false }),
        plain_press false code plain,
        plain_release false code plain,
      )
      (ap
          (λ (tail : List Event). (
            record { alt_down = false; shift_down = false; pending_extended = false },
            typed (character true code) ++ tail,
          ))
          (append-nil (typed (character false code)))
        ∙ ap₂
            (λ (shifted plain : List Event). (
              record { alt_down = false; shift_down = false; pending_extended = false },
              shifted ++ plain,
            ))
            (typed-key_events (character true code)) (typed-key_events (character false code)))

-- The first code below the bound at which a table has the character.
abbrev find_code : Bytes → ℕ → ℕ → ℕ
find_code [] at char = at
find_code (c ∷ cs) at char =
    let later = find_code cs (suc at) char in if c == char then at else later

abbrev typing_code : ℕ → Bool × ℕ
typing_code char =
    if leb (find_code scancode_ascii 0 char) 127
    then (false, find_code scancode_ascii 0 char)
    else (true, find_code scancode_ascii_shifted 0 char)

abbrev finds : ℕ → Bool
finds i =
    let found = typing_code (32 + i) in
    (ltb found.1 128 && character found.0 found.1 == 32 + i)
    && (not (found.1 == 0x38) && not (found.1 == 0x2A))
    && (not (found.1 == 0x36) && not (found.1 == 0x60))

finds_table : all_below 95 finds ≡ true
unfolding all_below
finds_table = refl

test-IsPlain :
    (code char typed_char : ℕ)
    → ((ltb code 128 && typed_char == char)
        && (not (code == 0x38) && not (code == 0x2A))
        && (not (code == 0x36) && not (code == 0x60)))
      ≡ true
    → IsPlain code × (typed_char ≡ char)
test-IsPlain code char typed_char h = ground arith

finds-IsPlain :
    (i : ℕ)
    → i < 95
    → IsPlain (typing_code (32 + i)).1
      × (character (typing_code (32 + i)).0 (typing_code (32 + i)).1 ≡ 32 + i)
finds-IsPlain i lt = test-IsPlain _ _ _ (all_below_sound 95 finds i finds_table lt)

typed_char : (c char : ℕ) → c ≡ char → 32 ≤ char → typed c ≡ (on_key char ∷ [])
typed_char c char e lo = ground arith

typing_code-IsPlain :
    (char : ℕ)
    → 32 ≤ char
    → char < 127
    → IsPlain (typing_code char).1 × (character (typing_code char).0 (typing_code char).1 ≡ char)
typing_code-IsPlain char lo hi =
    subst
      (λ (c : ℕ). IsPlain (typing_code c).1 × (character (typing_code c).0 (typing_code c).1 ≡ c))
      (omega arith) (finds-IsPlain (char - 32) (omega arith))

-- Each printable ASCII character is typed by some key, with Shift up or down, while Alt is up.
printable_lem :
    (char : ℕ)
    → 32 ≤ char
    → char < 127
    → (shift : Bool) × (code : ℕ) × (handle_byte
          (record { alt_down = false; shift_down = shift; pending_extended = false })
          code
        ≡ (
          record { alt_down = false; shift_down = shift; pending_extended = false },
          on_key char ∷ [],
        ))
printable_lem char lo hi =
    let found = typing_code-IsPlain char lo hi in
    let code = typing_code char in
    (
      code.0,
      code.1,
      plain_press code.0 code.1 found.0
          ∙ ap
              (λ (events : List Event). (
                record { alt_down = false; shift_down = code.0; pending_extended = false },
                events,
              ))
              (typed_char _ char found.1 lo),
    )
