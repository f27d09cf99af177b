-- ===== src/Net/Icmp/Echo.antt =====
-- net/icmp.rs: `build_echo` against `checksum`, and what a reply does to the state.
use moon_os.Common.{ℕ, ◌+◌, ◌<◌, ◌≡◌, refl, arith}
use moon_os.Common.Bytes.{Bytes}
use moon_os.Net.Checksum.{checksum, word_sum, checksum-put_checksum}
use moon_os.Net.Icmp.{plain_echo, build_echo, handle}
use moon_os.Net.Ipv4.{send}
use moon_os.Net.State.{Net}

-- An echo message that `build_echo` makes, with a type of 8 bits, an identifier and a sequence
-- number of 16 that are not all zero, and a payload whose words add up to less than 0xFFF00000,
-- checks: the checksum of all its words is zero.
checksum-build_echo :
    (ty id seq : ℕ) (payload : Bytes)
    → id < 65536
    → seq < 65536
    → 0 < ty + id + seq
    → ty < 256
    → word_sum payload < 0xFFF00000
    → checksum (build_echo ty id seq payload) ≡ 0
unfolding build_echo
checksum-build_echo ty id seq payload hi hs nonzero ht hp =
    checksum-put_checksum 1 (plain_echo ty id seq payload) (omega arith) refl refl (omega arith)
      (omega arith)

-- Another host's request with an identifier and a sequence number of 16 bits is answered with these
-- and its payload, and its reply is noted by its sequence number.
handle-build_echo :
    (poll : Net → Net) (s : Net) (src : Bytes) (id seq : ℕ) (payload : Bytes)
    → id < 65536
    → seq < 65536
    → (handle poll s src (build_echo 8 id seq payload)
        ≡ (send poll s src 1 (build_echo 0 id seq payload)).0)
      × (handle poll s src (build_echo 0 id seq payload) ≡ record s { last_reply = seq })
unfolding handle build_echo
handle-build_echo poll s src id seq payload hi hs = (ground arith, ground arith)
