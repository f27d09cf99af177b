-- ===== src/Net/Tcp/Segments.antt =====
-- net/tcp.rs: `build_segment` against `checksum` and `handle`.
use moon_os.Common.{ℕ, ◌^◌, ◌<◌, ◌≡◌, refl, ◌≢◌, some, [], ◌∷◌, arith, ◌==◌, if◌then◌else◌}
use moon_os.Common.Bytes.{Bytes}
use moon_os.Net.Checksum.{checksum, word_sum, checksum-put_checksum}
use moon_os.Net.Ipv4.Header.{AreBytes}
use moon_os.Net.State.{Net}
use moon_os.Net.Tcp.{Endpoints, plain_segment, pseudo_header, build_segment, handle}

-- A segment that `build_segment` makes between two addresses of bytes, with a payload whose words
-- add up to less than 0xFFF00000, checks: with its pseudo header, the checksum of all words is
-- zero.
checksum-build_segment :
    (a b c d e f g h src_port dst_port seq ack flags : ℕ) (payload : Bytes)
    → AreBytes (a ∷ b ∷ c ∷ d ∷ e ∷ f ∷ g ∷ h ∷ flags ∷ [])
    → word_sum payload < 0xFFF00000
    → let ep : Endpoints = record {
      src_ip = a ∷ b ∷ c ∷ d ∷ [];
      dst_ip = e ∷ f ∷ g ∷ h ∷ [];
      src_port = src_port;
      dst_port = dst_port;
    } in
      checksum (pseudo_header ep (build_segment ep seq ack flags payload)) ≡ 0
unfolding build_segment
checksum-build_segment a b c d e f g h src_port dst_port seq ack flags payload small fits =
    checksum-put_checksum 14 (pseudo_header ep (plain_segment ep seq ack flags payload))
      (omega arith) refl refl (omega arith) (omega arith)
  where
    ep : Endpoints
    ep = record {
      src_ip = a ∷ b ∷ c ∷ d ∷ [];
      dst_ip = e ∷ f ∷ g ∷ h ∷ [];
      src_port = src_port;
      dst_port = dst_port;
    }

-- A built segment for a port other than 0 that arrives at the port that is listened on is in the
-- inbox, with its flags, sequence number and payload, and one for another port changes nothing.
pub handle-build_segment :
    (s : Net) (ep : Endpoints) (seq ack flags : ℕ) (payload : Bytes)
    → Endpoints.dst_port ep < 65536
    → Endpoints.dst_port ep ≢ 0
    → seq < 2 ^ 32
    → handle s (build_segment ep seq ack flags payload) ≡ (
        if Endpoints.dst_port ep == Net.listen_port s
        then record s { tcp_inbox = some record { flags = flags; seq = seq; payload = payload } }
        else s)
unfolding build_segment handle
handle-build_segment s ep seq ack flags payload hp nonzero hs = ground arith
