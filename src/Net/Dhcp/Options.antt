-- ===== src/Net/Dhcp/Options.antt =====
-- net/dhcp.rs: the options that `parse_options` finds in a packet.
use moon_os.Common.{
  ℕ, zero, suc, ◌≤◌, ◌<◌, ◌≡◌, refl, ◌∙◌, ◌≢◌, ◌&&◌, List, [], ◌∷◌, ◌++◌, append_assoc, arith, ◌==◌,
  if◌then◌else◌, length, get_or, take, drop, length-append, take-append, drop-append, length-drop,
  All,
}
use moon_os.Common.Bytes.{Bytes}
use moon_os.Net.Dhcp.{parse_from, parse_options, apply_option, no_options}
use moon_os.Net.State.{Pending}

-- What stands in the options of a packet: padding, or a code with its value.
pub data Item : Type 0 where
  pad : Item
  option : ℕ → Bytes → Item

abbrev pub IsItem : Item → Type 0
IsItem pad = Unit
IsItem (option code val) = (code ≢ 0) × (code ≢ 255)

abbrev pub encode : List Item → Bytes
encode [] = []
encode (pad ∷ items) = 0 ∷ encode items
encode (option code val ∷ items) = code ∷ length val ∷ (val ++ encode items)

abbrev apply_items : Pending → List Item → Pending
apply_items p [] = p
apply_items p (pad ∷ items) = apply_items p items
apply_items p (option code val ∷ items) = apply_items (apply_option p code val) items

parse_from-encode :
    (fuel : ℕ) (items : List Item) (rest : Bytes) (p : Pending)
    → All IsItem items
    → length (encode items) < fuel
    → parse_from fuel (encode items ++ 255 ∷ rest) p ≡ apply_items p items
unfolding parse_from
parse_from-encode zero items rest p ok enough = absurd (omega arith)
parse_from-encode (suc fuel) [] [] p ok enough = refl
parse_from-encode (suc fuel) [] (b ∷ rest) p ok enough = refl
parse_from-encode (suc fuel) (pad ∷ []) rest p ok enough =
    parse_from-encode fuel [] rest p ok.1 (omega arith)
parse_from-encode (suc fuel) (pad ∷ pad ∷ items) rest p ok enough =
    parse_from-encode fuel (pad ∷ items) rest p ok.1 (omega arith)
parse_from-encode (suc fuel) (pad ∷ option code val ∷ items) rest p ok enough =
    parse_from-encode fuel (option code val ∷ items) rest p ok.1 (omega arith)
parse_from-encode (suc fuel) (option code val ∷ items) rest p ok enough =
    rw
      (
        append_assoc val (encode items) (255 ∷ rest),
        take-append val (encode items ++ 255 ∷ rest),
        drop-append val (encode items ++ 255 ∷ rest),
      )
      (ground (
        arith,
        length-append val (encode items ++ 255 ∷ rest),
        length-append val (encode items),
        parse_from-encode fuel items rest (apply_option p code val) ok.1,
      ))

-- The value of the last option with the code and the length, or else the default.
abbrev pub last_value : ℕ → ℕ → Bytes → List Item → Bytes
last_value code size default [] = default
last_value code size default (pad ∷ items) = last_value code size default items
last_value code size default (option c val ∷ items) =
    last_value code size (if c == code && length val == size then val else default) items

-- What a packet with these options says.
abbrev pub said : List Item → Pending
said items = record {
  msg_type = get_or (last_value 53 1 (0 ∷ []) items) 0 0;
  yiaddr = 0 ∷ 0 ∷ 0 ∷ 0 ∷ [];
  subnet = last_value 1 4 (0 ∷ 0 ∷ 0 ∷ 0 ∷ []) items;
  router = last_value 3 4 (0 ∷ 0 ∷ 0 ∷ 0 ∷ []) items;
  dns = last_value 6 4 (0 ∷ 0 ∷ 0 ∷ 0 ∷ []) items;
  server_id = last_value 54 4 (0 ∷ 0 ∷ 0 ∷ 0 ∷ []) items;
}

-- The fields after more options.
abbrev updated : Bytes → Pending → List Item → Pending
updated msg p items = record {
  msg_type = get_or (last_value 53 1 msg items) 0 0;
  yiaddr = p.yiaddr;
  subnet = last_value 1 4 p.subnet items;
  router = last_value 3 4 p.router items;
  dns = last_value 6 4 p.dns items;
  server_id = last_value 54 4 p.server_id items;
}

apply_items-updated :
    (items : List Item) (msg : Bytes) (p : Pending)
    → p.msg_type ≡ get_or msg 0 0
    → apply_items p items ≡ updated msg p items
apply_items-updated [] msg p e = ground arith
apply_items-updated (pad ∷ items) msg p e = apply_items-updated items msg p e
apply_items-updated (option code val ∷ items) msg p e =
    apply_items-updated items (if code == 53 && length val == 1 then val else msg)
      (apply_option p code val) (ground arith)
    ∙ ground arith

-- The options of a packet up to the end mark, with padding between them and codes other than those
-- of padding and end: the message type is the byte of the last option 53 of one byte, and subnet
-- mask, router, DNS server and server id are the values of the last options 1, 3, 6 and 54 of four
-- bytes; what has no such option is zero. What stands after the mark does not matter.
pub parse_options-encode :
    (items : List Item) (rest : Bytes)
    → All IsItem items
    → parse_options (encode items ++ 255 ∷ rest) ≡ said items
unfolding parse_options
parse_options-encode items rest ok =
    parse_from-encode (length (encode items ++ 255 ∷ rest)) items rest no_options ok
      (omega (arith, length-append (encode items) (255 ∷ rest)))
    ∙ apply_items-updated items (0 ∷ []) no_options refl

parse_from-agree :
    (m n : ℕ) (options : Bytes) (p : Pending)
    → length options ≤ m
    → length options ≤ n
    → parse_from m options p ≡ parse_from n options p
unfolding parse_from
parse_from-agree zero zero options p hm hn = refl
parse_from-agree zero (suc n) [] p hm hn = refl
parse_from-agree zero (suc n) (b ∷ options) p hm hn = absurd (omega arith)
parse_from-agree (suc m) zero [] p hm hn = refl
parse_from-agree (suc m) zero (b ∷ options) p hm hn = absurd (omega arith)
parse_from-agree (suc m) (suc n) [] p hm hn = refl
parse_from-agree (suc m) (suc n) (code ∷ []) p hm hn = refl
parse_from-agree (suc m) (suc n) (code ∷ len ∷ rest) p hm hn = rw (
  parse_from-agree m n (len ∷ rest) p (omega arith) (omega arith),
  parse_from-agree m n (drop len rest) (apply_option p code (take len rest))
      (omega (arith, length-drop len rest)) (omega (arith, length-drop len rest)),
)

-- The loop of `parse_options` ends: a round for each byte is enough on any input, and more change
-- nothing.
parse_from-enough :
    (fuel : ℕ) (options : Bytes)
    → length options ≤ fuel
    → parse_from fuel options no_options ≡ parse_options options
unfolding parse_options
parse_from-enough fuel options enough =
    parse_from-agree fuel (length options) options no_options enough (omega arith)
