-- ===== src/Net/Ipv4/Header.antt =====
-- net/ipv4.rs: `build_header` against `checksum` and `parse_header`.
use moon_os.Common.{ℕ, ◌+◌, ◌<◌, ◌≡◌, refl, some, [], ◌∷◌, ◌++◌, arith, length, length-append, All}
use moon_os.Common.Bytes.{Bytes}
use moon_os.Net.Checksum.{checksum, checksum-put_checksum}
use moon_os.Net.Ipv4.{plain_header, build_header, parse_header}

abbrev pub AreBytes : Bytes → Type 0
AreBytes bytes = All (λ b. b < 256) bytes

-- A header that `build_header` makes from two addresses and a protocol of bytes and an identifier
-- of 16 bits checks: the checksum of all its words is zero.
checksum-build_header :
    (a b c d e f g h protocol payload_len ident : ℕ)
    → AreBytes (a ∷ b ∷ c ∷ d ∷ e ∷ f ∷ g ∷ h ∷ protocol ∷ [])
    → ident < 65536
    → checksum (build_header (a ∷ b ∷ c ∷ d ∷ []) (e ∷ f ∷ g ∷ h ∷ []) protocol payload_len ident)
      ≡ 0
unfolding build_header
checksum-build_header a b c d e f g h protocol payload_len ident small hi =
    checksum-put_checksum 5
      (plain_header (a ∷ b ∷ c ∷ d ∷ []) (e ∷ f ∷ g ∷ h ∷ []) protocol payload_len ident)
      (omega arith) refl refl (omega arith) (omega arith)

-- A packet of a built header, its payload and `padding`, as the Ethernet card pads short frames,
-- parses into the addresses and the protocol of the header, and the padding is not in its total
-- length. The payload is less than 64 KiB with the header.
pub parse_header-build_header :
    (a b c d e f g h protocol ident : ℕ) (payload padding : Bytes)
    → length payload < 65516
    → parse_header (
        build_header (a ∷ b ∷ c ∷ d ∷ []) (e ∷ f ∷ g ∷ h ∷ []) protocol (length payload) ident
        ++ payload
        ++ padding)
      ≡ some record {
        src = a ∷ b ∷ c ∷ d ∷ [];
        dst = e ∷ f ∷ g ∷ h ∷ [];
        protocol = protocol;
        header_len = 20;
        total_len = 20 + length payload;
      }
unfolding build_header parse_header
parse_header-build_header a b c d e f g h protocol ident payload padding hl =
    ground (arith, length-append payload padding)
