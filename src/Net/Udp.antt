-- ===== src/Net/Udp.antt =====
-- net/udp.rs: datagrams, and the inbox by port.
pub mod Inbox
use moon_os.Common.{
  ℕ, ◌+◌, ◌%◌, Bool, Option, none, some, List, [], ◌∷◌, ◌++◌, ltb, ◌==◌, if◌then◌else◌, length,
  drop,
}
use moon_os.Common.Bytes.{Bytes, be16}
use moon_os.Net.Ipv4
use moon_os.Net.State.{Net, word_at}

abbrev pub build : ℕ → ℕ → Bytes → Bytes
build src_port dst_port payload =
    be16 src_port ++ be16 dst_port ++ be16 ((8 + length payload) % 65536) ++ be16 0 ++ payload

-- The inbox is a map; the order of its entries is not observed.
unfoldable pub inbox_get : ℕ → List (ℕ × Bytes) → Option Bytes
inbox_get port [] = none
inbox_get port ((p, payload) ∷ inbox) = if p == port then some payload else inbox_get port inbox

unfoldable pub inbox_remove : ℕ → List (ℕ × Bytes) → List (ℕ × Bytes)
inbox_remove port [] = []
inbox_remove port ((p, payload) ∷ inbox) =
    let rest = inbox_remove port inbox in if p == port then rest else (p, payload) ∷ rest

unfoldable pub inbox_insert : ℕ → Bytes → List (ℕ × Bytes) → List (ℕ × Bytes)
inbox_insert port payload inbox = (port, payload) ∷ inbox_remove port inbox

-- `dhcp_handle` is `dhcp::handle`.
unfoldable pub handle : (Net → Bytes → Net) → Net → Bytes → Net
handle dhcp_handle s packet =
    let port = word_at packet 2 in
    let told = if port == 68 then dhcp_handle s (drop 8 packet) else s in
    if ltb (length packet) 8
    then s
    else record told { udp_inbox = inbox_insert port (drop 8 packet) (Net.udp_inbox told) }

unfoldable pub take_port : Net → ℕ → Net × Option Bytes
take_port s port =
    (record s { udp_inbox = inbox_remove port (Net.udp_inbox s) }, inbox_get port (Net.udp_inbox s))

abbrev pub send : (Net → Net) → Net → ℕ → Bytes → ℕ → Bytes → Net × Bool
send poll s src_port dst dst_port payload =
    Ipv4.send poll s dst 17 (build src_port dst_port payload)
