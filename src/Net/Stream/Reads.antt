-- ===== src/Net/Stream/Reads.antt =====
-- net/tcp.rs, `TcpStream`: the blocking reads lose no byte.
use moon_os.Common.{
  ℕ, zero, suc, ◌+◌, ◌<◌, ◌≡◌, true, false, Option, none, some, List, [], ◌++◌, leb, length,
}
use moon_os.Common.Bytes.{Bytes}
use moon_os.Net.State.{Net, RecvSeg}
use moon_os.Net.Stream.{drain_available}
use moon_os.Net.Stream.Trace.{arrivals, Took}
use moon_os.Net.Tcp.{TcpStream}

-- The segments that came during a read, in order: those of each round that waits.
unfoldable pub read_arrivals : (Net → Net) → ℕ → Net → TcpStream → ℕ → List RecvSeg
read_arrivals poll zero s t n = []
read_arrivals poll (suc spins) s t n = elim (leb n (length t.recv_buffer)) [
  | true ↦ []
  | false ↦ elim t.peer_closed [
    | true ↦ []
    | false ↦
        arrivals poll (2 + length s.incoming) s t
        ++ read_arrivals poll spins (drain_available poll s t).0 (drain_available poll s t).1 n
  ]
]

-- Each round finds fewer than `n` bytes, until the peer has closed or the rounds are used up.
pub data Starves (poll : Net → Net) (n : ℕ) : ℕ → Net → TcpStream → Type 0 where
  used_up : {s : Net} {t : TcpStream} → Starves poll n zero s t
  ended :
      {spins : ℕ} {s : Net} {t : TcpStream}
      → length t.recv_buffer < n
      → t.peer_closed ≡ true
      → Starves poll n (suc spins) s t
  waits :
      {spins : ℕ} {s : Net} {t : TcpStream}
      → length t.recv_buffer < n
      → Starves poll n spins (drain_available poll s t).0 (drain_available poll s t).1
      → Starves poll n (suc spins) s t

-- The result of a read during which the segments came: what is read, with what stays in the buffer, is
-- what the buffer had and then the segments' bytes; exactly `n` bytes are read, or none for the reason.
abbrev pub IsRead :
    Type 0 → TcpStream → List RecvSeg → ℕ → (Net × TcpStream) × Option Bytes → Type 0
IsRead reason t segs n (state, none) =
    reason × Took t segs (TcpStream.recv_buffer state.1) (TcpStream.ack state.1)
IsRead reason t segs n (state, some out) =
    (length out ≡ n) × Took t segs (out ++ TcpStream.recv_buffer state.1) (TcpStream.ack state.1)
