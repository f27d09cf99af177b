-- ===== src/Net/Udp/Inbox.antt =====
-- net/udp.rs: a datagram that is built, handled and taken.
use moon_os.Common.{ℕ, ◌<◌, ◌≡◌, ◌≢◌, none, some, List, [], ◌∷◌, arith, ◌==◌, if◌then◌else◌}
use moon_os.Common.Bytes.{Bytes}
use moon_os.Net.State.{Net}
use moon_os.Net.Udp.{build, handle, inbox_get, inbox_remove, inbox_insert, take_port}

inbox_get-inbox_remove :
    (p q : ℕ) (inbox : List (ℕ × Bytes))
    → inbox_get p (inbox_remove q inbox) ≡ (if q == p then none else inbox_get p inbox)
unfolding inbox_get inbox_remove
inbox_get-inbox_remove p q [] = ground arith
inbox_get-inbox_remove p q ((r, payload) ∷ inbox) = ground (arith, inbox_get-inbox_remove p q inbox)

inbox_get-inbox_insert :
    (p q : ℕ) (payload : Bytes) (inbox : List (ℕ × Bytes))
    → inbox_get p (inbox_insert q payload inbox)
      ≡ (if q == p then some payload else inbox_get p inbox)
unfolding inbox_get inbox_insert
inbox_get-inbox_insert p q payload inbox = ground (arith, inbox_get-inbox_remove p q inbox)

-- After a datagram that `build` made for a port of 16 bits other than DHCP's is handled, taking
-- from its port gives its payload, once, and taking from another port gives what it gave before.
take_port-handle :
    (dhcp_handle : Net → Bytes → Net) (s : Net) (src dst other : ℕ) (payload : Bytes)
    → dst < 65536
    → dst ≢ 68
    → other ≢ dst
    → let s' = handle dhcp_handle s (build src dst payload) in
      ((take_port s' dst).1 ≡ some payload)
      × ((take_port (take_port s' dst).0 dst).1 ≡ none)
      × ((take_port s' other).1 ≡ (take_port s other).1)
unfolding handle take_port
take_port-handle dhcp_handle s src dst other payload hd not_dhcp differs = (
  ground (arith, inbox_get-inbox_insert dst dst payload (Net.udp_inbox s)),
  ground (arith, inbox_get-inbox_remove dst dst (inbox_insert dst payload (Net.udp_inbox s))),
  ground (arith, inbox_get-inbox_insert other dst payload (Net.udp_inbox s)),
)
