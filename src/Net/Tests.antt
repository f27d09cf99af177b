-- ===== src/Net/Tests.antt =====
-- net/*.rs at concrete inputs.
use moon_os.Common.{◌≡◌, refl, true, false, none, some, List, [], ◌∷◌, ◌++◌, arith, replicate, All}
use moon_os.Net.Checksum.{checksum, checksum-put_checksum, fold_carry}
use moon_os.Net.Dhcp
use moon_os.Net.Dhcp.Options.{Item, IsItem, pad, option, encode, parse_options-encode}
use moon_os.Net.Ipv4
use moon_os.Net.Ipv4.Header.{parse_header-build_header}
use moon_os.Net.Poll.{poll_from, poll_once}
use moon_os.Net.Poll.Ends.{poll_once-enough}
use moon_os.Net.Dns
use moon_os.Net.Dns.Names
use moon_os.Net.Dns.Answers
use moon_os.Net.State.{Net, RecvSeg}
use moon_os.Net.Stream
use moon_os.Net.Stream.Order.{next, stray, feed, segments, feed-segments}
use moon_os.Net.Stream.Trace.{arrivals}
use moon_os.Net.Stream.Reads.{read_arrivals}
use moon_os.Net.Tcp.{TcpStream, poll_spin_limit, Endpoints, build_segment, handle}
use moon_os.Net.Tcp.Segments.{handle-build_segment}

-- A host with an address and a card that has nothing.
abbrev host : Net
host = record {
  nic = true;
  mac = 2 ∷ 0 ∷ 0 ∷ 0 ∷ 0 ∷ 1 ∷ [];
  ip = 10 ∷ 0 ∷ 2 ∷ 15 ∷ [];
  gateway = 10 ∷ 0 ∷ 2 ∷ 2 ∷ [];
  subnet_mask = 255 ∷ 255 ∷ 255 ∷ 0 ∷ [];
  dns = 10 ∷ 0 ∷ 2 ∷ 3 ∷ [];
  incoming = [];
  sent = [];
  tx_bytes = 0;
  rx_bytes = 0;
  cache = [];
  ident = 1;
  udp_inbox = [];
  last_reply = 65535;
  pending = none;
  listen_port = 49152;
  tcp_inbox = none;
  next_port = 49153;
}

checksum-put_checksum_example : checksum (69 ∷ 3 ∷ 179 ∷ 252 ∷ 7 ∷ []) ≡ 0
unfolding fold_carry
checksum-put_checksum_example =
    checksum-put_checksum 1 (69 ∷ 3 ∷ 0 ∷ 0 ∷ 7 ∷ []) (omega arith) refl refl (omega arith)
      (omega arith)

parse_header-build_header_example :
    Ipv4.parse_header (
      Ipv4.build_header (10 ∷ 0 ∷ 2 ∷ 15 ∷ []) (10 ∷ 0 ∷ 2 ∷ 2 ∷ []) 17 2 7
      ++ (1 ∷ 2 ∷ [])
      ++ replicate 24 0)
    ≡ some record {
      src = 10 ∷ 0 ∷ 2 ∷ 15 ∷ [];
      dst = 10 ∷ 0 ∷ 2 ∷ 2 ∷ [];
      protocol = 17;
      header_len = 20;
      total_len = 22;
    }
parse_header-build_header_example =
    parse_header-build_header 10 0 2 15 10 0 2 2 17 7 (1 ∷ 2 ∷ []) (replicate 24 0) (omega arith)

-- An offer with its type, a subnet mask after padding, and an option that the client has no use for.
abbrev offer : List Item
offer =
    option 53 (2 ∷ []) ∷ pad ∷ option 1 (255 ∷ 255 ∷ 255 ∷ 0 ∷ []) ∷ option 15 (97 ∷ 98 ∷ []) ∷ []

offer-AreItems : All IsItem offer
offer-AreItems = ground arith

parse_options-encode_example :
    Dhcp.parse_options (encode offer ++ 255 ∷ 1 ∷ 4 ∷ [])
    ≡ record Dhcp.no_options { msg_type = 2; subnet = 255 ∷ 255 ∷ 255 ∷ 0 ∷ [] }
parse_options-encode_example = parse_options-encode offer (1 ∷ 4 ∷ []) offer-AreItems

abbrev ends : Endpoints
ends = record {
  src_ip = 10 ∷ 0 ∷ 2 ∷ 2 ∷ [];
  dst_ip = 10 ∷ 0 ∷ 2 ∷ 15 ∷ [];
  src_port = 80;
  dst_port = 49152;
}

handle-build_segment_example :
    handle host (build_segment ends 1000 2000 24 (72 ∷ 105 ∷ []))
    ≡ record host { tcp_inbox = some record { flags = 24; seq = 1000; payload = 72 ∷ 105 ∷ [] } }
handle-build_segment_example =
    handle-build_segment host ends 1000 2000 24 (72 ∷ 105 ∷ []) (omega arith) (omega arith)
      (omega arith)

-- A stream near the end of the sequence numbers.
abbrev stream : TcpStream
stream = record {
  local_port = 49152;
  remote_ip = 10 ∷ 0 ∷ 2 ∷ 2 ∷ [];
  remote_port = 80;
  seq = 5;
  ack = 0xFFFFFFFF;
  recv_buffer = 72 ∷ [];
  peer_closed = false;
}

feed-segments_example :
    (feed
      (λ s. s)
      host
      stream
      (segments 0xFFFFFFFF (
        next (1 ∷ 2 ∷ [])
        ∷ stray (record { flags = 24; seq = 0xFFFFFFFF; payload = 1 ∷ 2 ∷ [] })
        ∷ next (3 ∷ [])
        ∷ []))).1
    ≡ record stream { recv_buffer = 72 ∷ 1 ∷ 2 ∷ 3 ∷ []; ack = 2 }
feed-segments_example =
    feed-segments (λ s. s) host stream
      (next (1 ∷ 2 ∷ [])
        ∷ stray (record { flags = 24; seq = 0xFFFFFFFF; payload = 1 ∷ 2 ∷ [] })
        ∷ next (3 ∷ [])
        ∷ [])
      (omega arith) (omega arith, (omega arith, (omega arith, tt)))

-- The next segment, the peer's last, is in the inbox.
abbrev arrival : RecvSeg
arrival = record { flags = 25; seq = 0xFFFFFFFF; payload = 1 ∷ 2 ∷ [] }

abbrev delivered : Net
delivered = record host { tcp_inbox = some arrival }

-- The read waits for the segment, and only for it.
arrivals_run : read_arrivals (λ s. s) poll_spin_limit delivered stream 2 ≡ arrival ∷ []
unfolding read_arrivals arrivals Stream.drain_from Stream.on_segment Stream.take_segment
    Stream.take_payload Stream.take_fin
arrivals_run = refl

-- A frame of an unknown type is waiting.
abbrev busy_host : Net
busy_host = record host { incoming = some (replicate 60 0) ∷ none ∷ [] }

poll_once-enough_example : poll_from 9 busy_host ≡ poll_once busy_host
poll_once-enough_example = poll_once-enough 9 busy_host (omega arith)

-- An answer with an alias before the address.
abbrev alias : Answers.Rr
alias = record {
  owner = Names.pointer 192 12;
  rtype = 5;
  class = 1;
  ttl = 60;
  rdata = 1 ∷ 98 ∷ 0 ∷ [];
}

abbrev address : Answers.Rr
address = record {
  owner = Names.labels ((98 ∷ []) ∷ []);
  rtype = 1;
  class = 1;
  ttl = 60;
  rdata = 10 ∷ 0 ∷ 2 ∷ 7 ∷ [];
}

parse_response-response_example :
    Dns.parse_response
      (Answers.response 0xBEEF 0x8180 2
        (97 ∷ b'.' ∷ 98 ∷ [])
        (Answers.encode_rrs (alias ∷ []) (Answers.encode_rr address (1 ∷ []))))
      0xBEEF
    ≡ some (10 ∷ 0 ∷ 2 ∷ 7 ∷ [])
unfolding Dns.labels_of
parse_response-response_example =
    Answers.parse_response-response 0xBEEF 0x8180 2 (97 ∷ b'.' ∷ 98 ∷ []) (1 ∷ []) (alias ∷ [])
      address (omega arith) (omega arith) (omega arith) two_labels (ground arith) (ground arith)
      refl
  where
    two_labels : All Names.IsLabel (Dns.labels_of (97 ∷ b'.' ∷ 98 ∷ []))
    two_labels = ground arith
