-- ===== src/Net/Stream.antt =====
-- net/tcp.rs, `TcpStream`: sending, draining the inbox, and the blocking reads. `poll` is
-- `super::poll_once`.
pub mod Order
pub mod Trace
pub mod Reads
use moon_os.Common.{
  ℕ, zero, suc, ◌+◌, ◌%◌, ◌^◌, bit_and, Bool, true, false, not, Option, none, some, [], ◌∷◌, ◌++◌,
  leb, ◌==◌, if◌then◌else◌, length, take, drop,
}
use moon_os.Common.Bytes.{Bytes}
use moon_os.Net.State.{Net, RecvSeg}
use moon_os.Net.Tcp.{
  TcpStream, flag_fin, flag_ack, flag_psh_ack, send_segment, taken, poll_spin_limit,
}

unfoldable pub send : (Net → Net) → Net → TcpStream → Bytes → (Net × TcpStream) × Bool
send poll s t bytes =
    let done = send_segment poll s t flag_psh_ack bytes in
    elim done.1 [
      | false ↦ ((done.0, t), false)
      | true ↦
          ((done.0, record t { seq = (TcpStream.seq t + length bytes % 2 ^ 32) % 2 ^ 32 }), true)
    ]

abbrev pub is_nil : Bytes → Bool
is_nil [] = true
is_nil (b ∷ bs) = false

-- The payload of an expected segment: into the buffer, and acknowledged.
unfoldable pub take_payload : (Net → Net) → Net → TcpStream → RecvSeg → Net × TcpStream
take_payload poll s t seg =
    let grown = record t {
      recv_buffer = TcpStream.recv_buffer t ++ RecvSeg.payload seg;
      ack = (TcpStream.ack t + length (RecvSeg.payload seg) % 2 ^ 32) % 2 ^ 32;
    } in
    if is_nil (RecvSeg.payload seg)
    then (s, t)
    else ((send_segment poll s grown flag_ack []).0, grown)

-- The peer's FIN: acknowledged with ours.
unfoldable pub take_fin : (Net → Net) → Net → TcpStream → Net × TcpStream
take_fin poll s t =
    let counted = record t { ack = (TcpStream.ack t + 1) % 2 ^ 32 } in
    (
      (send_segment poll s counted (flag_fin + flag_ack) []).0,
      record counted { seq = (TcpStream.seq t + 1) % 2 ^ 32; peer_closed = true },
    )

abbrev pub is_fin : RecvSeg → Bool
is_fin seg = not (bit_and (RecvSeg.flags seg) flag_fin == 0)

-- An expected segment, and whether the loop returns after it.
unfoldable pub take_segment : (Net → Net) → Net → TcpStream → RecvSeg → (Net × TcpStream) × Bool
take_segment poll s t seg =
    let kept = take_payload poll s t seg in
    if is_fin seg then (take_fin poll kept.0 kept.1, true) else (kept, false)

abbrev pub expected : TcpStream → RecvSeg → Bool
expected t seg = RecvSeg.seq seg == TcpStream.ack t

-- The body of the loop for a segment that the inbox had; others than the expected are dropped.
unfoldable pub on_segment : (Net → Net) → Net → TcpStream → RecvSeg → (Net × TcpStream) × Bool
on_segment poll s t seg = if expected t seg then take_segment poll s t seg else ((s, t), false)

unfoldable pub drain_from : (Net → Net) → ℕ → Net → TcpStream → Net × TcpStream
drain_from poll zero s t = (s, t)
drain_from poll (suc fuel) s t = elim (Net.tcp_inbox (poll s)) [
  | none ↦ (poll s, t)
  | some seg ↦
      let after = on_segment poll (taken (poll s)) t seg in
      elim after.1 [ true ↦ after.0 | false ↦ drain_from poll fuel (after.0).0 (after.0).1 ]
]

-- Each round but the first and the last takes a frame from the card.
abbrev pub drain_available : (Net → Net) → Net → TcpStream → Net × TcpStream
drain_available poll s t = drain_from poll (2 + length (Net.incoming s)) s t

abbrev pub split_buffer : TcpStream → ℕ → TcpStream
split_buffer t n = record t { recv_buffer = drop n (TcpStream.recv_buffer t) }

unfoldable pub read_exact_from :
    (Net → Net) → ℕ → Net → TcpStream → ℕ → (Net × TcpStream) × Option Bytes
read_exact_from poll zero s t n = ((s, t), none)
read_exact_from poll (suc spins) s t n = elim (leb n (length (TcpStream.recv_buffer t))) [
  | true ↦ ((s, split_buffer t n), some (take n (TcpStream.recv_buffer t)))
  | false ↦ elim (TcpStream.peer_closed t) [
    | true ↦ ((s, t), none)
    | false ↦ read_exact_from poll spins (drain_available poll s t).0 (drain_available poll s t).1 n
  ]
]

abbrev pub read_exact : (Net → Net) → Net → TcpStream → ℕ → (Net × TcpStream) × Option Bytes
read_exact poll s t n = read_exact_from poll poll_spin_limit s t n

unfoldable wait_closed : (Net → Net) → ℕ → Net → TcpStream → Net × TcpStream
wait_closed poll zero s t = (s, t)
wait_closed poll (suc spins) s t = elim (TcpStream.peer_closed t) [
  | true ↦ (s, t)
  | false ↦ wait_closed poll spins (drain_available poll s t).0 (drain_available poll s t).1
]

unfoldable read_to_end : (Net → Net) → Net → TcpStream → (Net × TcpStream) × Bytes
read_to_end poll s t =
    let closed = wait_closed poll poll_spin_limit s t in
    ((closed.0, record (closed.1) { recv_buffer = [] }), TcpStream.recv_buffer closed.1)
