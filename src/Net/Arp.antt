-- ===== src/Net/Arp.antt =====
-- net/arp.rs: the cache of addresses, requests and replies.
use moon_os.Common.{
  ℕ, Bool, ◌&&◌, not, Option, [], ◌∷◌, ◌++◌, ltb, ◌==◌, if◌then◌else◌, length, slice, replicate,
}
use moon_os.Common.Bytes.{Bytes, be16, bytes_eq}
use moon_os.Common.Dict.{get, insert}
use moon_os.Net.State.{Net, send_frame, word_at, broadcast_mac, unspecified_ip}

abbrev pub lookup : Net → Bytes → Option Bytes
lookup s ip = get ip (Net.cache s)

abbrev pub build : ℕ → Bytes → Bytes → Bytes → Bytes → Bytes
build op sender_mac sender_ip target_mac target_ip =
    be16 1
    ++ be16 0x0800
    ++ (6 ∷ 4 ∷ [])
    ++ be16 op
    ++ sender_mac
    ++ sender_ip
    ++ target_mac
    ++ target_ip

abbrev pub send_request : Net → Bytes → Net
send_request s target =
    send_frame s broadcast_mac 0x0806 (build 1 (Net.mac s) (Net.ip s) (replicate 6 0) target)

-- A packet that asks for our address.
abbrev pub asks_us : Net → Bytes → Bool
asks_us s payload =
    word_at payload 6 == 1
    && not (bytes_eq (Net.ip s) unspecified_ip)
    && bytes_eq (slice 24 28 payload) (Net.ip s)

abbrev pub learn : Net → Bytes → Net
learn s payload = record s {
  cache = insert (slice 14 18 payload) (slice 8 14 payload) (Net.cache s);
}

unfoldable pub handle : Net → Bytes → Net
handle s payload =
    if ltb (length payload) 28
    then s
    else (if asks_us s payload
        then send_frame (learn s payload) (slice 8 14 payload) 0x0806
            (build 2 (Net.mac s) (Net.ip s) (slice 8 14 payload) (slice 14 18 payload))
        else learn s payload)
