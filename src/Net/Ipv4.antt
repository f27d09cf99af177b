-- ===== src/Net/Ipv4.antt =====
-- net/ipv4.rs: headers and the sending of packets. `poll` is `super::poll_once`, which `send` calls
-- while it waits for an address.
pub mod Header
use moon_os.Common.{
  ℕ, zero, suc, ◌+◌, ◌*◌, ◌%◌, min, bit_and, Bool, true, false, ◌&&◌, ◌||◌, Option, none, some, [],
  ◌∷◌, ◌++◌, ltb, ◌==◌, if◌then◌else◌, length, slice,
}
use moon_os.Common.Bytes.{Bytes, be16, bytes_eq}
use moon_os.Net.Arp.{lookup, send_request}
use moon_os.Net.Checksum.{checksum, put_checksum}
use moon_os.Net.State.{Net, send_frame, byte_at, word_at, broadcast_mac, broadcast_ip}

-- The header with zeros for its checksum. `total_len` is a u16 and wraps.
abbrev pub plain_header : Bytes → Bytes → ℕ → ℕ → ℕ → Bytes
plain_header src dst protocol payload_len ident =
    (0x45 ∷ 0 ∷ [])
    ++ be16 ((20 + payload_len) % 65536)
    ++ be16 ident
    ++ (0 ∷ 0 ∷ 64 ∷ protocol ∷ 0 ∷ 0 ∷ [])
    ++ src
    ++ dst

unfoldable pub build_header : Bytes → Bytes → ℕ → ℕ → ℕ → Bytes
build_header src dst protocol payload_len ident =
    let header = plain_header src dst protocol payload_len ident in
    put_checksum header 10 (checksum header)

pub record ParsedHeader : Type 0 where
  pub src : Bytes
  pub dst : Bytes
  pub protocol : ℕ
  pub header_len : ℕ
  pub total_len : ℕ

unfoldable pub parse_header : Bytes → Option ParsedHeader
parse_header packet =
    let ihl = bit_and (byte_at packet 0) 0x0F * 4 in
    if ltb (length packet) 20
    then none
    else (if ltb (length packet) ihl
        then none
        else some record {
          src = slice 12 16 packet;
          dst = slice 16 20 packet;
          protocol = byte_at packet 9;
          header_len = ihl;
          total_len = min (word_at packet 2) (length packet);
        })

abbrev masked : Bytes → Bytes → ℕ → ℕ
masked address mask i = bit_and (byte_at address i) (byte_at mask i)

abbrev pub same_byte : Net → Bytes → ℕ → Bool
same_byte s ip i = masked (Net.ip s) (Net.subnet_mask s) i == masked ip (Net.subnet_mask s) i

abbrev same_subnet : Net → Bytes → Bool
same_subnet s ip = same_byte s ip 0 && same_byte s ip 1 && same_byte s ip 2 && same_byte s ip 3

abbrev pub next_hop : Net → Bytes → Bytes
next_hop s dst = if bytes_eq dst broadcast_ip || same_subnet s dst then dst else Net.gateway s

-- The loop that waits for the address of `hop`, for `spins` rounds.
unfoldable pub wait_for_mac : (Net → Net) → ℕ → Net → Bytes → Net × Option Bytes
wait_for_mac poll zero s hop = (s, none)
wait_for_mac poll (suc spins) s hop = elim (lookup (poll s) hop) [
  | none ↦ wait_for_mac poll spins (poll s) hop
  | some mac ↦ (poll s, some mac)
]

abbrev pub arp_resolve_spin_limit : ℕ
arp_resolve_spin_limit = 500000

-- The address of `hop`, if the cache has it, or else from the network.
abbrev pub cached : (Net → Net) → Net → Bytes → Option Bytes → Net × Option Bytes
cached poll s hop none = wait_for_mac poll arp_resolve_spin_limit (send_request s hop) hop
cached poll s hop (some mac) = (s, some mac)

unfoldable pub resolve : (Net → Net) → Net → Bytes → Net × Option Bytes
resolve poll s dst =
    if bytes_eq dst broadcast_ip
    then (s, some broadcast_mac)
    else cached poll s (next_hop s dst) (lookup s (next_hop s dst))

abbrev transmit : Net → Bytes → ℕ → Bytes → Bytes → Net
transmit s dst protocol payload mac =
    send_frame (record s { ident = (Net.ident s + 1) % 65536 }) mac 0x0800
      (build_header (Net.ip s) dst protocol (length payload % 65536) (Net.ident s) ++ payload)

-- What becomes of the packet once the address is known, or is not.
abbrev pub finish : Bytes → ℕ → Bytes → Net × Option Bytes → Net × Bool
finish dst protocol payload (s, none) = (s, false)
finish dst protocol payload (s, some mac) = (transmit s dst protocol payload mac, true)

unfoldable pub send : (Net → Net) → Net → Bytes → ℕ → Bytes → Net × Bool
send poll s dst protocol payload = finish dst protocol payload (resolve poll s dst)
