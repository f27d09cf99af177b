-- ===== src/Net/Dhcp.antt =====
-- net/dhcp.rs: the options of a packet, the packets that the client sends, and its exchange. `poll` is
-- `super::poll_once`.
pub mod Options
pub mod Answers
use moon_os.Common.{
  ℕ, zero, suc, ◌&&◌, ◌||◌, not, Option, none, some, [], ◌∷◌, ◌++◌, ltb, ◌==◌, if◌then◌else◌,
  length, take, drop, slice, replicate,
}
use moon_os.Common.Bytes.{Bytes, be16, be32, bytes_eq}
use moon_os.Net.State.{Net, Pending, byte_at, unspecified_ip, broadcast_ip}
use moon_os.Net.Udp.{send}

abbrev pub magic_cookie : Bytes
magic_cookie = 99 ∷ 130 ∷ 83 ∷ 99 ∷ []

abbrev address_option : ℕ → Option Bytes → Bytes
address_option code none = []
address_option code (some ip) = code ∷ 4 ∷ ip

-- The fixed 240 bytes of a request.
abbrev request_header : Bytes → ℕ → Bytes
request_header mac xid =
    (1 ∷ 1 ∷ 6 ∷ 0 ∷ [])
    ++ be32 xid
    ++ be16 0
    ++ be16 0x8000
    ++ replicate 16 0
    ++ mac
    ++ replicate 10 0
    ++ replicate 64 0
    ++ replicate 128 0
    ++ magic_cookie

abbrev request_options : ℕ → Option Bytes → Option Bytes → Bytes
request_options msg_type requested_ip server_id =
    (53 ∷ 1 ∷ msg_type ∷ [])
    ++ address_option 50 requested_ip
    ++ address_option 54 server_id
    ++ (55 ∷ 3 ∷ 1 ∷ 3 ∷ 6 ∷ 255 ∷ [])

abbrev build_packet : Net → ℕ → ℕ → Option Bytes → Option Bytes → Bytes
build_packet s msg_type xid requested_ip server_id =
    request_header (Net.mac s) xid ++ request_options msg_type requested_ip server_id

abbrev pub no_options : Pending
no_options = record {
  msg_type = 0;
  yiaddr = unspecified_ip;
  subnet = unspecified_ip;
  router = unspecified_ip;
  dns = unspecified_ip;
  server_id = unspecified_ip;
}

-- The `match` on the code and the length of one option.
abbrev pub apply_option : Pending → ℕ → Bytes → Pending
apply_option p code val =
    if code == 53 && length val == 1
    then record p { msg_type = byte_at val 0 }
    else (if code == 1 && length val == 4
        then record p { subnet = val }
        else (if code == 3 && length val == 4
            then record p { router = val }
            else (if code == 6 && length val == 4
                then record p { dns = val }
                else (if code == 54 && length val == 4 then record p { server_id = val } else p))))

-- The loop over the options that are left; each round takes at least one byte.
unfoldable pub parse_from : ℕ → Bytes → Pending → Pending
parse_from zero rest p = p
parse_from (suc fuel) [] p = p
parse_from (suc fuel) (code ∷ []) p = p
parse_from (suc fuel) (code ∷ len ∷ rest) p =
    let padding = parse_from fuel (len ∷ rest) p in
    let more = parse_from fuel (drop len rest) (apply_option p code (take len rest)) in
    if code == 255
    then p
    else (if code == 0 then padding else (if ltb (length rest) len then p else more))

unfoldable pub parse_options : Bytes → Pending
parse_options options = parse_from (length options) options no_options

unfoldable pub handle : Net → Bytes → Net
handle s payload =
    let parsed = record (parse_options (drop 240 payload)) { yiaddr = slice 16 20 payload } in
    if ltb (length payload) 240 || not (bytes_eq (slice 236 240 payload) magic_cookie)
    then s
    else (if Pending.msg_type parsed == 0 then s else record s { pending = some parsed })

-- Whether the pending message has the type.
abbrev arrived : Option Pending → ℕ → Option Pending
arrived none msg_type = none
arrived (some p) msg_type = if Pending.msg_type p == msg_type then some p else none

unfoldable pub wait_for : (Net → Net) → ℕ → Net → ℕ → Net × Option Pending
wait_for poll zero s msg_type = (s, none)
wait_for poll (suc spins) s msg_type = elim (arrived (Net.pending (poll s)) msg_type) [
  | none ↦ wait_for poll spins (poll s) msg_type
  | some p ↦ (poll s, some p)
]

abbrev wait_spin_limit : ℕ
wait_spin_limit = 2000000

pub record Lease : Type 0 where
  pub ip : Bytes
  pub subnet : Bytes
  pub router : Bytes
  pub dns : Bytes

abbrev xid : ℕ
xid = 0x6D6F6F6E

-- One step of the exchange: clear the slot, send the message, wait for the answer.
abbrev exchange : (Net → Net) → Net → Bytes → ℕ → Net × Option Pending
exchange poll s packet answer =
    wait_for poll wait_spin_limit
      (send poll (record s { pending = none }) 68 broadcast_ip 67 packet).0 answer

abbrev lease_of : Pending → Lease
lease_of ack = record {
  ip = Pending.yiaddr ack;
  subnet = Pending.subnet ack;
  router = Pending.router ack;
  dns = Pending.dns ack;
}

abbrev confirm : Net × Option Pending → Net × Option Lease
confirm (s, none) = (s, none)
confirm (s, some ack) = (s, some (lease_of ack))

abbrev request : (Net → Net) → Net × Option Pending → Net × Option Lease
request poll (s, none) = (s, none)
request poll (s, some offer) = confirm (
    exchange poll s
      (build_packet s 3 xid (some (Pending.yiaddr offer)) (some (Pending.server_id offer))) 5)

unfoldable pub run : (Net → Net) → Net → Net × Option Lease
run poll s = request poll (exchange poll s (build_packet s 1 xid none none) 2)
