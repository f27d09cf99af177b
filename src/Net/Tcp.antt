-- ===== src/Net/Tcp.antt =====
-- net/tcp.rs: segments, the handshake, and the stream that is read. `poll` is `super::poll_once`. The
-- tick counter that the initial sequence number comes from is an argument.
pub mod Segments
use moon_os.Common.{
  ℕ, zero, suc, ◌+◌, ◌*◌, ◌/◌, ◌%◌, ◌^◌, bit_and, Bool, true, false, ◌||◌, not, Option, none, some,
  [], ◌∷◌, ◌++◌, ltb, ◌==◌, if◌then◌else◌, length, drop,
}
use moon_os.Common.Bytes.{Bytes, be16, be32}
use moon_os.Net.Checksum.{checksum, put_checksum}
use moon_os.Net.Ipv4
use moon_os.Net.State.{Net, RecvSeg, byte_at, word_at}

pub record Endpoints : Type 0 where
  pub src_ip : Bytes
  pub dst_ip : Bytes
  pub src_port : ℕ
  pub dst_port : ℕ

abbrev pub flag_fin : ℕ
flag_fin = 1

abbrev flag_syn : ℕ
flag_syn = 2

abbrev pub flag_ack : ℕ
flag_ack = 16

abbrev pub flag_psh_ack : ℕ
flag_psh_ack = 24

abbrev pub plain_segment : Endpoints → ℕ → ℕ → ℕ → Bytes → Bytes
plain_segment ep seq ack flags payload =
    be16 (Endpoints.src_port ep)
    ++ be16 (Endpoints.dst_port ep)
    ++ be32 seq
    ++ be32 ack
    ++ (80 ∷ flags ∷ [])
    ++ be16 8192
    ++ be16 0
    ++ be16 0
    ++ payload

-- The pseudo header that the checksum covers, before the segment.
abbrev pub pseudo_header : Endpoints → Bytes → Bytes
pseudo_header ep seg =
    Endpoints.src_ip ep ++ Endpoints.dst_ip ep ++ (0 ∷ 6 ∷ []) ++ be16 (length seg % 65536) ++ seg

unfoldable pub build_segment : Endpoints → ℕ → ℕ → ℕ → Bytes → Bytes
build_segment ep seq ack flags payload =
    let seg = plain_segment ep seq ack flags payload in
    put_checksum seg 16 (checksum (pseudo_header ep seg))

-- A big-endian u32 at an index that is in bounds.
abbrev long_at : Bytes → ℕ → ℕ
long_at bytes i = word_at bytes i * 65536 + word_at bytes (2 + i)

-- Beyond the end `data.get(offset..)` gives nothing, like `drop`.
abbrev pub received : Bytes → RecvSeg
received packet = record {
  flags = byte_at packet 13;
  seq = long_at packet 4;
  payload = drop (byte_at packet 12 / 16 * 4) packet;
}

unfoldable pub handle : Net → Bytes → Net
handle s packet =
    if ltb (length packet) 20
    then s
    else (if word_at packet 2 == 0 || not (word_at packet 2 == Net.listen_port s)
        then s
        else record s { tcp_inbox = some (received packet) })

unfoldable alloc_local_port : Net → Net × ℕ
alloc_local_port s = (
  record s { next_port = (Net.next_port s + 1) % 65536 },
  if ltb (Net.next_port s) 49152 then 49152 else Net.next_port s,
)

abbrev initial_seq : ℕ → ℕ
initial_seq ticks = (ticks % 2 ^ 32 * 2654435761 + 1) % 2 ^ 32

pub record TcpStream : Type 0 where
  pub local_port : ℕ
  pub remote_ip : Bytes
  pub remote_port : ℕ
  pub seq : ℕ
  pub ack : ℕ
  pub recv_buffer : Bytes
  pub peer_closed : Bool

abbrev pub poll_spin_limit : ℕ
poll_spin_limit = 3000000

-- The SYN-ACK in the inbox, if it is one.
abbrev synack_of : Option RecvSeg → Option RecvSeg
synack_of none = none
synack_of (some seg) = if bit_and (RecvSeg.flags seg) 18 == 18 then some seg else none

abbrev pub taken : Net → Net
taken s = record s { tcp_inbox = none }

unfoldable wait_for_synack : (Net → Net) → ℕ → Net → Net × Option RecvSeg
wait_for_synack poll zero s = (s, none)
wait_for_synack poll (suc spins) s = elim (synack_of (Net.tcp_inbox (poll s))) [
  | none ↦ wait_for_synack poll spins (taken (poll s))
  | some seg ↦ (taken (poll s), some seg)
]

abbrev open_stream : ℕ → Bytes → ℕ → ℕ → RecvSeg → TcpStream
open_stream local_port remote_ip remote_port isn synack = record {
  local_port = local_port;
  remote_ip = remote_ip;
  remote_port = remote_port;
  seq = (isn + 1) % 2 ^ 32;
  ack = (RecvSeg.seq synack + 1) % 2 ^ 32;
  recv_buffer = [];
  peer_closed = false;
}

abbrev endpoints : Net → TcpStream → Endpoints
endpoints s t = record {
  src_ip = Net.ip s;
  dst_ip = TcpStream.remote_ip t;
  src_port = TcpStream.local_port t;
  dst_port = TcpStream.remote_port t;
}

-- One segment with the numbers that the stream has.
abbrev pub send_segment : (Net → Net) → Net → TcpStream → ℕ → Bytes → Net × Bool
send_segment poll s t flags payload =
    Ipv4.send poll s (TcpStream.remote_ip t) 6
      (build_segment (endpoints s t) (TcpStream.seq t) (TcpStream.ack t) flags payload)

abbrev acknowledge : (Net → Net) → Net → TcpStream → Net × Option TcpStream
acknowledge poll s t = ((send_segment poll s t flag_ack []).0, some t)

abbrev opened : (Net → Net) → ℕ → Bytes → ℕ → ℕ → Net × Option RecvSeg → Net × Option TcpStream
opened poll port remote_ip remote_port isn (s, none) = (s, none)
opened poll port remote_ip remote_port isn (s, some synack) =
    acknowledge poll s (open_stream port remote_ip remote_port isn synack)

abbrev listen : Net → Net × ℕ
listen s =
    let port = alloc_local_port s in
    (record (port.0) { listen_port = port.1; tcp_inbox = none }, port.1)

abbrev syn_of : Net → Bytes → ℕ → ℕ → ℕ → Bytes
syn_of s remote_ip remote_port port isn =
    build_segment
      (record { src_ip = Net.ip s; dst_ip = remote_ip; src_port = port; dst_port = remote_port })
      isn 0 flag_syn []

unfoldable connect : (Net → Net) → ℕ → Net → Bytes → ℕ → Net × Option TcpStream
connect poll ticks s remote_ip remote_port =
    let isn = initial_seq ticks in
    let ready = listen s in
    let asked =
      Ipv4.send poll ready.0 remote_ip 6 (syn_of ready.0 remote_ip remote_port ready.1 isn) in
    elim asked.1 [
      | false ↦ (asked.0, none)
      | true ↦
          opened poll ready.1 remote_ip remote_port isn
            (wait_for_synack poll poll_spin_limit asked.0)
    ]
