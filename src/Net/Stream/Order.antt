-- ===== src/Net/Stream/Order.antt =====
-- net/tcp.rs, `TcpStream`: the bytes that a reader gets, and their order.
use moon_os.Common.{
  ℕ, ◌+◌, ◌%◌, ◌^◌, ◌<◌, ◌≡◌, sym, ◌∙◌, ◌≢◌, false, List, [], ◌∷◌, ◌++◌, append-nil, append_assoc,
  arith, if◌then◌else◌, ==-ne, length, length-append,
}
use moon_os.Net.Stream.{on_segment, take_segment, take_payload}
use moon_os.Common.Bytes.{Bytes}
use moon_os.Net.State.{Net, RecvSeg}
use moon_os.Net.Stream.{on_segment, take_segment, take_payload}
use moon_os.Net.Tcp.{TcpStream}

-- Segments one after the other, as the loop of `drain_available` takes them, up to a FIN.
unfoldable pub feed : (Net → Net) → Net → TcpStream → List RecvSeg → Net × TcpStream
feed poll s t [] = (s, t)
feed poll s t (seg ∷ segs) =
    let after = on_segment poll s t seg in
    let rest = feed poll (after.0).0 (after.0).1 segs in if after.1 then after.0 else rest

-- What the peer's segments look like here: the next piece of its data, or one with another sequence
-- number, a duplicate or one that came too early.
pub data Arrival : Type 0 where
  next : Bytes → Arrival
  stray : RecvSeg → Arrival

abbrev pub segments : ℕ → List Arrival → List RecvSeg
segments ack [] = []
segments ack (next chunk ∷ arrivals) =
    record { flags = 24; seq = ack; payload = chunk }
    ∷ segments ((ack + length chunk) % 2 ^ 32) arrivals
segments ack (stray seg ∷ arrivals) = seg ∷ segments ack arrivals

abbrev AreArrivals : ℕ → List Arrival → Type 0
AreArrivals ack [] = Unit
AreArrivals ack (next chunk ∷ arrivals) =
    (length chunk < 2 ^ 32) × AreArrivals ((ack + length chunk) % 2 ^ 32) arrivals
AreArrivals ack (stray seg ∷ arrivals) = (RecvSeg.seq seg ≢ ack) × AreArrivals ack arrivals

abbrev sent_bytes : List Arrival → Bytes
sent_bytes [] = []
sent_bytes (next chunk ∷ arrivals) = chunk ++ sent_bytes arrivals
sent_bytes (stray seg ∷ arrivals) = sent_bytes arrivals

-- The stream with more bytes behind its buffer.
abbrev pub grown : TcpStream → Bytes → TcpStream
grown t bytes = record t {
  recv_buffer = TcpStream.recv_buffer t ++ bytes;
  ack = (TcpStream.ack t + length bytes) % 2 ^ 32;
}

grown-nil : (t : TcpStream) → TcpStream.ack t < 2 ^ 32 → grown t [] ≡ t
grown-nil t small = ground (arith, append-nil (TcpStream.recv_buffer t))

grown-append : (t : TcpStream) (xs ys : Bytes) → grown (grown t xs) ys ≡ grown t (xs ++ ys)
grown-append t xs ys =
    ground (arith, append_assoc (TcpStream.recv_buffer t) xs ys, length-append xs ys)

on_segment-next :
    (poll : Net → Net) (s : Net) (t : TcpStream) (chunk : Bytes)
    → TcpStream.ack t < 2 ^ 32
    → length chunk < 2 ^ 32
    → let after =
        on_segment poll s t (record { flags = 24; seq = TcpStream.ack t; payload = chunk }) in
      (after.1 ≡ false) × ((after.0).1 ≡ grown t chunk)
unfolding on_segment take_segment take_payload
on_segment-next poll s t [] small short = ground (arith, grown-nil t small)
on_segment-next poll s t (b ∷ chunk) small short = ground arith

on_segment-stray :
    (poll : Net → Net) (s : Net) (t : TcpStream) (seg : RecvSeg)
    → RecvSeg.seq seg ≢ TcpStream.ack t
    → on_segment poll s t seg ≡ ((s, t), false)
unfolding on_segment
on_segment-stray poll s t seg other = rw (==-ne (RecvSeg.seq seg) (TcpStream.ack t) other)

-- However the peer's string is cut into data segments of less than 2 ^ 32 bytes, and whatever
-- segments with another sequence number than the expected one come between, the segments in order
-- put the whole string behind what the buffer had, and move the acknowledgement number by its
-- length, modulo 2 ^ 32.
pub feed-segments :
    (poll : Net → Net) (s : Net) (t : TcpStream) (arrivals : List Arrival)
    → TcpStream.ack t < 2 ^ 32
    → AreArrivals (TcpStream.ack t) arrivals
    → (feed poll s t (segments (TcpStream.ack t) arrivals)).1 ≡ grown t (sent_bytes arrivals)
unfolding feed
feed-segments poll s t [] small ok = sym (grown-nil t small)
feed-segments poll s t (next chunk ∷ arrivals) small ok =
    rw
      ((on_segment-next poll s t chunk small ok.0).0, (on_segment-next poll s t chunk small ok.0).1)
      (feed-segments poll
          ((on_segment poll s t (record { flags = 24; seq = TcpStream.ack t; payload = chunk })).0
            ).0
          (grown t chunk) arrivals (omega arith) ok.1
        ∙ grown-append t chunk (sent_bytes arrivals))
feed-segments poll s t (stray seg ∷ arrivals) small ok =
    rw (on_segment-stray poll s t seg ok.0) (feed-segments poll s t arrivals small ok.1)
