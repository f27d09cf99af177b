-- ===== src/Net/Poll/Depth.antt =====
-- net/ipv4.rs, `handle`, and net/mod.rs, `poll_once`: how deep polls go inside polls.
use native.Mathlib.Nat.{le_refl}
use moon_os.Common.{
  ℕ, ◌+◌, ◌%◌, ◌^◌, ◌≤◌, ◌≡◌, refl, Bool, true, false, ◌||◌, not, Option, none, some, ltb, ◌==◌,
  if◌then◌else◌, length, drop, slice,
}
use moon_os.Common.Bytes.{Bytes, bytes_eq}
use moon_os.Net.Arp
use moon_os.Net.Dhcp
use moon_os.Net.Icmp
use moon_os.Net.Ipv4.{ParsedHeader, parse_header}
use moon_os.Net.Poll.{deliver, dispatch, handle, handle_parsed, not_ours}
use moon_os.Net.Poll.Fuel.{left_of, Shrinks, Agree, left_of-send_frame, left_of-send, send-Agree}
use moon_os.Net.State.{Pending, Net, word_at, byte_at}
use moon_os.Net.Tcp
use moon_os.Net.Udp

-- At most `n` frames are left.
pub data Few (n : ℕ) (s : Net) : Type 0 where
  few : left_of s ≤ n → Few n s

Few-if : (b : Bool) (x y : Net) (n : ℕ) → Few n x → Few n y → Few n (if b then x else y)
Few-if true x y n hx hy = hx
Few-if false x y n hx hy = hy

same-Few : (s : Net) → Few (left_of s) s
same-Few s = few (le_refl (left_of s))

arp-Few : (s : Net) (payload : Bytes) → Few (left_of s) (Arp.handle s payload)
unfolding Arp.handle
arp-Few s payload = Few-if (ltb (length payload) 28) s _ (left_of s) (same-Few s) (
    Few-if (Arp.asks_us s payload) _ (Arp.learn s payload) (left_of s)
      (few (left_of-send_frame (Arp.learn s payload) _ 0x0806 _)) (few (le_refl (left_of s))))

icmp-Few :
    (poll : Net → Net) (s : Net) (src packet : Bytes)
    → Shrinks poll
    → Few (left_of s) (Icmp.handle poll s src packet)
unfolding Icmp.handle
icmp-Few poll s src packet shrinks = Few-if (ltb (length packet) 8) s _ (left_of s) (same-Few s) (
    Few-if (byte_at packet 0 == 8) _ _ (left_of s) (few (left_of-send poll s src 1 _ shrinks)) (
      Few-if (byte_at packet 0 == 0) (record s { last_reply = word_at packet 6 }) s (left_of s)
        (few (le_refl (left_of s))) (same-Few s)))

icmp-Agree :
    (n : ℕ) (p q : Net → Net) (s : Net) (src packet : Bytes)
    → Shrinks p
    → Agree n p q
    → left_of s ≤ n
    → Icmp.handle p s src packet ≡ Icmp.handle q s src packet
unfolding Icmp.handle
icmp-Agree n p q s src packet shrinks agree small = rw (
    send-Agree n p q s src 1
      (Icmp.build_echo 0 (word_at packet 4) (word_at packet 6) (drop 8 packet)) shrinks agree small)

tcp-Few : (s : Net) (packet : Bytes) → Few (left_of s) (Tcp.handle s packet)
unfolding Tcp.handle
tcp-Few s packet = Few-if (ltb (length packet) 20) s _ (left_of s) (same-Few s) (
    Few-if (word_at packet 2 == 0 || not (word_at packet 2 == Net.listen_port s)) s
      (record s { tcp_inbox = some (Tcp.received packet) }) (left_of s) (same-Few s)
      (few (le_refl (left_of s))))

dhcp-Few : (s : Net) (payload : Bytes) → Few (left_of s) (Dhcp.handle s payload)
unfolding Dhcp.handle
dhcp-Few s payload =
    Few-if (ltb (length payload) 240 || not (bytes_eq (slice 236 240 payload) Dhcp.magic_cookie)) s
      _ (left_of s) (same-Few s)
      (Few-if (Pending.msg_type (Dhcp.parse_options (drop 240 payload)) == 0) s
        (record s {
          pending =
              some
                (record (Dhcp.parse_options (drop 240 payload)) { yiaddr = slice 16 20 payload });
        })
        (left_of s) (same-Few s) (few (le_refl (left_of s))))

udp-inner :
    (n : ℕ) (s : Net) (port : ℕ) (payload : Bytes)
    → Few n s
    → Few n (record s { udp_inbox = Udp.inbox_insert port payload (Net.udp_inbox s) })
udp-inner n s port payload (few h) = few h

udp-Few : (s : Net) (packet : Bytes) → Few (left_of s) (Udp.handle Dhcp.handle s packet)
unfolding Udp.handle
udp-Few s packet = Few-if (ltb (length packet) 8) s _ (left_of s) (same-Few s) (
    udp-inner (left_of s) (if word_at packet 2 == 68 then Dhcp.handle s (drop 8 packet) else s)
      (word_at packet 2) (drop 8 packet)
      (Few-if (word_at packet 2 == 68) (Dhcp.handle s (drop 8 packet)) s (left_of s)
        (dhcp-Few s (drop 8 packet)) (same-Few s)))

deliver-Few :
    (poll : Net → Net) (s : Net) (protocol : ℕ) (src body : Bytes)
    → Shrinks poll
    → Few (left_of s) (deliver poll s protocol src body)
deliver-Few poll s protocol src body shrinks =
    Few-if (protocol == 1) (Icmp.handle poll s src body) _ (left_of s)
      (icmp-Few poll s src body shrinks)
      (Few-if (protocol == 6) (Tcp.handle s body) _ (left_of s) (tcp-Few s body) (
        Few-if (protocol == 17) (Udp.handle Dhcp.handle s body) s (left_of s) (udp-Few s body)
          (same-Few s)))

handle_parsed-Few :
    (poll : Net → Net) (s : Net) (packet : Bytes) (h : Option ParsedHeader)
    → Shrinks poll
    → Few (left_of s) (handle_parsed poll s packet h)
handle_parsed-Few poll s packet none shrinks = same-Few s
handle_parsed-Few poll s packet (some h) shrinks =
    Few-if (not_ours s h) s _ (left_of s) (same-Few s) (
      Few-if (ltb (ParsedHeader.total_len h) (ParsedHeader.header_len h)) s _ (left_of s)
        (same-Few s)
        (deliver-Few poll s (ParsedHeader.protocol h) (ParsedHeader.src h)
          (slice (ParsedHeader.header_len h) (ParsedHeader.total_len h) packet) shrinks))

handle_parsed-Agree :
    (n : ℕ) (p q : Net → Net) (s : Net) (packet : Bytes) (h : Option ParsedHeader)
    → Shrinks p
    → Agree n p q
    → left_of s ≤ n
    → handle_parsed p s packet h ≡ handle_parsed q s packet h
handle_parsed-Agree n p q s packet none shrinks agree small = refl
handle_parsed-Agree n p q s packet (some h) shrinks agree small = rw (
    icmp-Agree n p q s (ParsedHeader.src h)
      (slice (ParsedHeader.header_len h) (ParsedHeader.total_len h) packet) shrinks agree small)

counted : Net → Bytes → Net
counted s frame = record s { rx_bytes = (Net.rx_bytes s + length frame) % 2 ^ 64 }

pub dispatch-Few :
    (poll : Net → Net) (s : Net) (frame : Bytes)
    → Shrinks poll
    → Few (left_of s) (dispatch poll s frame)
unfolding dispatch handle counted
dispatch-Few poll s frame shrinks =
    Few-if (ltb (length frame) 14) (counted s frame) _ (left_of s) (few (le_refl (left_of s))) (
      Few-if (word_at frame 12 == 0x0806) (Arp.handle (counted s frame) (drop 14 frame)) _
        (left_of s) (arp-Few (counted s frame) (drop 14 frame))
        (Few-if (word_at frame 12 == 0x0800) (handle poll (counted s frame) (drop 14 frame))
          (counted s frame) (left_of s)
          (handle_parsed-Few poll (counted s frame) (drop 14 frame) (parse_header (drop 14 frame))
            shrinks)
          (few (le_refl (left_of s)))))

pub dispatch-Agree :
    (n : ℕ) (p q : Net → Net) (s : Net) (frame : Bytes)
    → Shrinks p
    → Agree n p q
    → left_of s ≤ n
    → dispatch p s frame ≡ dispatch q s frame
unfolding dispatch handle counted
dispatch-Agree n p q s frame shrinks agree small = rw (
    handle_parsed-Agree n p q (counted s frame) (drop 14 frame) (parse_header (drop 14 frame))
      shrinks agree small)
