-- ===== src/Net/Dhcp/Answers.antt =====
-- net/dhcp.rs: what `handle` makes of a server's message.
use moon_os.Common.{
  ◌≡◌, some, List, ◌∷◌, ◌++◌, arith, ◌==◌, if◌then◌else◌, length, drop, slice, length-append,
  drop-append_past, take-append_le, drop-append_le, length-drop, All,
}
use moon_os.Common.Bytes.{Bytes, bytes_eq_refl}
use moon_os.Net.Dhcp.{handle, magic_cookie}
use moon_os.Net.Dhcp.Options.{Item, IsItem, encode, said, parse_options-encode}
use moon_os.Net.State.{Net, Pending}

-- A message with 236 bytes of fixed fields, the magic cookie, options with codes other than those
-- of padding and end, and an end mark leaves its offer pending if an option names its type, with
-- the address from the fixed fields, and otherwise changes nothing.
handle-encode :
    (s : Net) (head : Bytes) (items : List Item) (rest : Bytes)
    → length head ≡ 236
    → All IsItem items
    → handle s (head ++ (99 ∷ 130 ∷ 83 ∷ 99 ∷ (encode items ++ 255 ∷ rest))) ≡ (
        let found = said items in
        if Pending.msg_type found == 0
        then s
        else record s { pending = some (record found { yiaddr = slice 16 20 head }) })
unfolding handle
handle-encode s head items rest fits ok =
    rw
      (
        drop-append_past head body 240 4 (omega arith),
        drop-append_past head body 236 0 (omega arith),
        drop-append_le 16 head body (omega arith),
        take-append_le 4 (drop 16 head) body (omega (arith, length-drop 16 head)),
        length-append head body,
        parse_options-encode items rest ok,
        fits,
      )
      (ground (arith, bytes_eq_refl magic_cookie))
  where
    body : Bytes
    body = 99 ∷ 130 ∷ 83 ∷ 99 ∷ (encode items ++ 255 ∷ rest)
