-- ===== src/Net/State.antt =====
-- net/mod.rs: the statics of the stack in one record, and Ethernet frames. The card is a list of what
-- its next calls of `receive` return, and a list of the frames that it was given to send.
use moon_os.Common.{
  ℕ, suc, ◌+◌, ◌*◌, ◌%◌, ◌^◌, Bool, Option, none, List, [], ◌∷◌, ◌++◌, if◌then◌else◌, length,
  get_or, replicate,
}
use moon_os.Common.Bytes.{Bytes, be16}
use moon_os.Common.Dict.{Dict}

-- `dhcp::Pending`.
pub record Pending : Type 0 where
  pub msg_type : ℕ
  pub yiaddr : Bytes
  pub subnet : Bytes
  pub router : Bytes
  pub dns : Bytes
  pub server_id : Bytes

-- `tcp::RecvSeg`.
pub record RecvSeg : Type 0 where
  pub flags : ℕ
  pub seq : ℕ
  pub payload : Bytes

-- `NetState`, with `nic` for whether there is a card, then the other statics: `TX_BYTES`, `RX_BYTES`,
-- `arp::CACHE`, `ipv4::send`'s `IDENT`, `udp::INBOX`, `icmp::LAST_REPLY`, `dhcp::PENDING`,
-- `tcp::LISTEN_PORT`, `tcp::INBOX` and `alloc_local_port`'s `NEXT`.
pub record Net : Type 0 where
  pub nic : Bool
  pub mac : Bytes
  pub ip : Bytes
  pub gateway : Bytes
  pub subnet_mask : Bytes
  pub dns : Bytes
  pub incoming : List (Option Bytes)
  pub sent : List Bytes
  pub tx_bytes : ℕ
  pub rx_bytes : ℕ
  pub cache : Dict Bytes
  pub ident : ℕ
  pub udp_inbox : List (ℕ × Bytes)
  pub last_reply : ℕ
  pub pending : Option Pending
  pub listen_port : ℕ
  pub tcp_inbox : Option RecvSeg
  pub next_port : ℕ

abbrev pub broadcast_mac : Bytes
broadcast_mac = replicate 6 255

abbrev pub unspecified_ip : Bytes
unspecified_ip = replicate 4 0

abbrev pub broadcast_ip : Bytes
broadcast_ip = replicate 4 255

-- A byte at an index that is in bounds.
abbrev pub byte_at : Bytes → ℕ → ℕ
byte_at bytes i = get_or bytes i 0

-- A big-endian word at an index that is in bounds.
abbrev pub word_at : Bytes → ℕ → ℕ
word_at bytes i = byte_at bytes i * 256 + byte_at bytes (suc i)

-- `set_ip_config`.
abbrev set_ip_config : Net → Bytes → Bytes → Bytes → Bytes → Net
set_ip_config s ip mask gateway dns = record s {
  ip = ip;
  subnet_mask = mask;
  gateway = gateway;
  dns = dns;
}

abbrev frame_of : Bytes → Bytes → ℕ → Bytes → Bytes
frame_of dst src ethertype payload = dst ++ src ++ be16 ethertype ++ payload

-- Without a card nothing is sent. The last frame sent stands first.
unfoldable pub send_frame : Net → Bytes → ℕ → Bytes → Net
send_frame s dst ethertype payload =
    let frame = frame_of dst (Net.mac s) ethertype payload in
    if Net.nic s
    then record s { tx_bytes = (Net.tx_bytes s + length frame) % 2 ^ 64; sent = frame ∷ Net.sent s }
    else s

-- `nic.receive()`: what the card has next, and the card after it.
abbrev pub next_frame : List (Option Bytes) → Option Bytes × List (Option Bytes)
next_frame [] = (none, [])
next_frame (frame ∷ frames) = (frame, frames)
