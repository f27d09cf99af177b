-- ===== src/Net/Poll.antt =====
-- net/ipv4.rs, `handle`, and net/mod.rs, `poll_once`: a frame from the card to the layer that it is for.
-- A layer polls again while it waits for an address. Each poll takes a frame, so that the frames that
-- the card still has bound the depth; without one a poll does nothing.
pub mod Fuel
pub mod Depth
pub mod Ends
use moon_os.Common.{
  ℕ, zero, suc, ◌+◌, ◌%◌, ◌^◌, Bool, ◌&&◌, not, Option, none, some, ltb, ◌==◌, if◌then◌else◌,
  length, drop, slice,
}
use moon_os.Common.Bytes.{Bytes, bytes_eq}
use moon_os.Net.Arp
use moon_os.Net.Dhcp
use moon_os.Net.Icmp
use moon_os.Net.Ipv4.{ParsedHeader, parse_header}
use moon_os.Net.State.{Net, word_at, unspecified_ip, broadcast_ip, next_frame}
use moon_os.Net.Tcp
use moon_os.Net.Udp

abbrev pub deliver : (Net → Net) → Net → ℕ → Bytes → Bytes → Net
deliver poll s protocol src body =
    if protocol == 1
    then Icmp.handle poll s src body
    else (if protocol == 6
        then Tcp.handle s body
        else (if protocol == 17 then Udp.handle Dhcp.handle s body else s))

-- A packet for another host.
abbrev pub not_ours : Net → ParsedHeader → Bool
not_ours s h =
    not (bytes_eq (Net.ip s) unspecified_ip)
    && not (bytes_eq (ParsedHeader.dst h) (Net.ip s))
    && not (bytes_eq (ParsedHeader.dst h) broadcast_ip)

abbrev accept : (Net → Net) → Net → Bytes → ParsedHeader → Net
accept poll s packet h =
    if not_ours s h
    then s
    else (if ltb (ParsedHeader.total_len h) (ParsedHeader.header_len h)
        then s
        else deliver poll s (ParsedHeader.protocol h) (ParsedHeader.src h)
            (slice (ParsedHeader.header_len h) (ParsedHeader.total_len h) packet))

abbrev pub handle_parsed : (Net → Net) → Net → Bytes → Option ParsedHeader → Net
handle_parsed poll s packet none = s
handle_parsed poll s packet (some h) = accept poll s packet h

unfoldable pub handle : (Net → Net) → Net → Bytes → Net
handle poll s packet = handle_parsed poll s packet (parse_header packet)

unfoldable pub dispatch : (Net → Net) → Net → Bytes → Net
dispatch poll s frame =
    let counted = record s { rx_bytes = (Net.rx_bytes s + length frame) % 2 ^ 64 } in
    if ltb (length frame) 14
    then counted
    else (if word_at frame 12 == 0x0806
        then Arp.handle counted (drop 14 frame)
        else (if word_at frame 12 == 0x0800 then handle poll counted (drop 14 frame) else counted))

abbrev pub dispatch_next : (Net → Net) → Net → Option Bytes → Net
dispatch_next poll s none = s
dispatch_next poll s (some frame) = dispatch poll s frame

unfoldable pub poll_from : ℕ → Net → Net
poll_from zero s = s
poll_from (suc fuel) s =
    let next = next_frame (Net.incoming s) in
    if Net.nic s then dispatch_next (poll_from fuel) (record s { incoming = next.1 }) next.0 else s

abbrev pub poll_once : Net → Net
poll_once s = poll_from (length (Net.incoming s)) s
