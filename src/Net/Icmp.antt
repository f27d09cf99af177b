-- ===== src/Net/Icmp.antt =====
-- net/icmp.rs: echo requests and replies.
pub mod Echo
use moon_os.Common.{
  ℕ, zero, suc, Bool, true, false, [], ◌∷◌, ◌++◌, ℕ_discrete, ltb, ◌==◌, if◌then◌else◌, length,
  drop,
}
use moon_os.Common.Bytes.{Bytes, be16}
use moon_os.Net.Checksum.{checksum, put_checksum}
use moon_os.Net.Ipv4.{send}
use moon_os.Net.State.{Net, byte_at, word_at}

abbrev pub plain_echo : ℕ → ℕ → ℕ → Bytes → Bytes
plain_echo ty id seq payload = (ty ∷ 0 ∷ 0 ∷ 0 ∷ []) ++ be16 id ++ be16 seq ++ payload

unfoldable pub build_echo : ℕ → ℕ → ℕ → Bytes → Bytes
build_echo ty id seq payload =
    let packet = plain_echo ty id seq payload in put_checksum packet 2 (checksum packet)

unfoldable pub handle : (Net → Net) → Net → Bytes → Bytes → Net
handle poll s src packet =
    if ltb (length packet) 8
    then s
    else (if byte_at packet 0 == 8
        then (send poll s src 1
            (build_echo 0 (word_at packet 4) (word_at packet 6) (drop 8 packet))).0
        else (if byte_at packet 0 == 0 then record s { last_reply = word_at packet 6 } else s))

abbrev ping_payload : Bytes
ping_payload = 109 ∷ 111 ∷ 111 ∷ 110 ∷ 79 ∷ 83 ∷ 45 ∷ 112 ∷ 105 ∷ 110 ∷ 103 ∷ []

unfoldable wait_for_reply : (Net → Net) → ℕ → Net → ℕ → Net × Bool
wait_for_reply poll zero s seq = (s, false)
wait_for_reply poll (suc spins) s seq = elim (ℕ_discrete (Net.last_reply (poll s)) seq) [
  | yes same ↦ (poll s, true)
  | no other ↦ wait_for_reply poll spins (poll s) seq
]

abbrev ping_spin_limit : ℕ
ping_spin_limit = 1000000

unfoldable ping : (Net → Net) → Net → Bytes → ℕ → ℕ → Net × Bool
ping poll s dst id seq =
    let asked =
      send poll (record s { last_reply = 65535 }) dst 1 (build_echo 8 id seq ping_payload) in
    elim asked.1 [
      | false ↦ (asked.0, false)
      | true ↦ wait_for_reply poll ping_spin_limit asked.0 seq
    ]
