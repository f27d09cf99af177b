-- ===== src/Net/Poll/Fuel.antt =====
-- net/mod.rs, `poll_once`: the polls inside a poll end, since each takes a frame from the card.
use moon_os.Common.{
  ℕ, zero, suc, ◌+◌, ◌%◌, ◌≤◌, ◌≡◌, refl, sym, ap, ◌∙◌, subst, inl, inr, Bool, true, false, Option,
  none, some, arith, if◌then◌else◌, Option-cases, length, replicate,
}
use moon_os.Common.Bytes.{Bytes, bytes_eq}
use moon_os.Net.Arp
use moon_os.Net.Arp.{lookup, send_request}
use moon_os.Net.Ipv4.{send, finish, resolve, wait_for_mac, next_hop, arp_resolve_spin_limit, cached}
use moon_os.Net.State.{Net, send_frame, broadcast_ip, broadcast_mac}

-- The frames that the card still has.
abbrev pub left_of : Net → ℕ
left_of s = length (Net.incoming s)

-- A poll that takes frames at most.
abbrev pub Shrinks : (Net → Net) → Type 0
Shrinks poll = (s : Net) → left_of (poll s) ≤ left_of s

-- Two polls with the same result wherever at most `n` frames are left.
abbrev pub Agree : ℕ → (Net → Net) → (Net → Net) → Type 0
Agree n p q = (s : Net) → left_of s ≤ n → p s ≡ q s

pub left_of-if :
    (b : Bool) (x y : Net) (n : ℕ)
    → left_of x ≤ n
    → left_of y ≤ n
    → left_of (if b then x else y) ≤ n
left_of-if true x y n hx hy = hx
left_of-if false x y n hx hy = hy

pub left_of-send_frame :
    (s : Net) (dst : Bytes) (ethertype : ℕ) (payload : Bytes)
    → left_of (send_frame s dst ethertype payload) ≤ left_of s
unfolding send_frame
left_of-send_frame s dst ethertype payload =
    left_of-if (Net.nic s) _ s (left_of s) (omega arith) (omega arith)

-- A round of the wait after its poll.
abbrev heard : (Net → Net) → ℕ → Net → Bytes → Option Bytes → Net × Option Bytes
heard poll spins s hop none = wait_for_mac poll spins s hop
heard poll spins s hop (some mac) = (s, some mac)

wait_for_mac-suc :
    (poll : Net → Net) (spins : ℕ) (s : Net) (hop : Bytes)
    → wait_for_mac poll (suc spins) s hop ≡ heard poll spins (poll s) hop (lookup (poll s) hop)
unfolding wait_for_mac
wait_for_mac-suc poll spins s hop = elim (Option-cases (lookup (poll s) hop)) [
  | inl e ↦ rw (e, wait_for_mac)
  | inr (mac, e) ↦ rw (e, wait_for_mac)
]

left_of-heard :
    (poll : Net → Net) (spins : ℕ) (s : Net) (hop : Bytes) (o : Option Bytes) (n : ℕ)
    → left_of s ≤ n
    → left_of (wait_for_mac poll spins s hop).0 ≤ n
    → left_of (heard poll spins s hop o).0 ≤ n
left_of-heard poll spins s hop none n few waited = waited
left_of-heard poll spins s hop (some mac) n few waited = few

left_of-wait_for_mac :
    (poll : Net → Net)
    → Shrinks poll
    → (spins : ℕ) (s : Net) (hop : Bytes) → left_of (wait_for_mac poll spins s hop).0 ≤ left_of s
unfolding wait_for_mac
left_of-wait_for_mac poll shrinks zero s hop = omega arith
left_of-wait_for_mac poll shrinks (suc spins) s hop =
    subst (λ (r : Net × Option Bytes). left_of r.0 ≤ left_of s)
      (sym (wait_for_mac-suc poll spins s hop))
      (left_of-heard poll spins (poll s) hop (lookup (poll s) hop) (left_of s) (shrinks s)
        (omega (arith, left_of-wait_for_mac poll shrinks spins (poll s) hop, shrinks s)))

heard-Agree :
    (p q : Net → Net) (spins : ℕ) (s : Net) (hop : Bytes) (o : Option Bytes)
    → wait_for_mac p spins s hop ≡ wait_for_mac q spins s hop
    → heard p spins s hop o ≡ heard q spins s hop o
heard-Agree p q spins s hop none e = e
heard-Agree p q spins s hop (some mac) e = refl

wait_for_mac-Agree :
    (n : ℕ) (p q : Net → Net)
    → Shrinks p
    → Agree n p q
    → (spins : ℕ) (s : Net) (hop : Bytes) → left_of s ≤ n
    → wait_for_mac p spins s hop ≡ wait_for_mac q spins s hop
unfolding wait_for_mac
wait_for_mac-Agree n p q shrinks agree zero s hop few = refl
wait_for_mac-Agree n p q shrinks agree (suc spins) s hop few =
    wait_for_mac-suc p spins s hop
    ∙ heard-Agree p q spins (p s) hop (lookup (p s) hop)
        (wait_for_mac-Agree n p q shrinks agree spins (p s) hop (omega (arith, shrinks s)))
    ∙ ap (λ (t : Net). heard q spins t hop (lookup t hop)) (agree s few)
    ∙ sym (wait_for_mac-suc q spins s hop)

-- The address for a packet, by whether it is for every host.
abbrev chosen : (Net → Net) → Net → Bytes → Bool → Net × Option Bytes
chosen poll s dst true = (s, some broadcast_mac)
chosen poll s dst false = cached poll s (next_hop s dst) (lookup s (next_hop s dst))

if-chosen :
    (poll : Net → Net) (s : Net) (dst : Bytes) (b : Bool)
    → (if b
        then (s, some broadcast_mac)
        else cached poll s (next_hop s dst) (lookup s (next_hop s dst)))
      ≡ chosen poll s dst b
if-chosen poll s dst true = refl
if-chosen poll s dst false = refl

resolve-chosen :
    (poll : Net → Net) (s : Net) (dst : Bytes)
    → resolve poll s dst ≡ chosen poll s dst (bytes_eq dst broadcast_ip)
unfolding resolve
resolve-chosen poll s dst = if-chosen poll s dst (bytes_eq dst broadcast_ip)

left_of-cached :
    (poll : Net → Net) (s : Net) (hop : Bytes) (o : Option Bytes)
    → Shrinks poll
    → left_of (cached poll s hop o).0 ≤ left_of s
left_of-cached poll s hop (some mac) shrinks = omega arith
left_of-cached poll s hop none shrinks = omega (
  arith,
  left_of-wait_for_mac poll shrinks arp_resolve_spin_limit (send_request s hop) hop,
  left_of-send_frame s broadcast_mac 0x0806
      (Arp.build 1 (Net.mac s) (Net.ip s) (replicate 6 0) hop),
)

left_of-chosen :
    (poll : Net → Net) (s : Net) (dst : Bytes) (b : Bool)
    → Shrinks poll
    → left_of (chosen poll s dst b).0 ≤ left_of s
left_of-chosen poll s dst true shrinks = omega arith
left_of-chosen poll s dst false shrinks =
    left_of-cached poll s (next_hop s dst) (lookup s (next_hop s dst)) shrinks

cached-Agree :
    (n : ℕ) (p q : Net → Net) (s : Net) (hop : Bytes) (o : Option Bytes)
    → Shrinks p
    → Agree n p q
    → left_of s ≤ n
    → cached p s hop o ≡ cached q s hop o
cached-Agree n p q s hop (some mac) shrinks agree few = refl
cached-Agree n p q s hop none shrinks agree few =
    wait_for_mac-Agree n p q shrinks agree arp_resolve_spin_limit (send_request s hop) hop (
      omega (
        arith,
        left_of-send_frame s broadcast_mac 0x0806
            (Arp.build 1 (Net.mac s) (Net.ip s) (replicate 6 0) hop),
      ))

chosen-Agree :
    (n : ℕ) (p q : Net → Net) (s : Net) (dst : Bytes) (b : Bool)
    → Shrinks p
    → Agree n p q
    → left_of s ≤ n
    → chosen p s dst b ≡ chosen q s dst b
chosen-Agree n p q s dst true shrinks agree few = refl
chosen-Agree n p q s dst false shrinks agree few =
    cached-Agree n p q s (next_hop s dst) (lookup s (next_hop s dst)) shrinks agree few

left_of-finish :
    (dst : Bytes) (protocol : ℕ) (payload : Bytes) (found : Net × Option Bytes)
    → left_of (finish dst protocol payload found).0 ≤ left_of found.0
left_of-finish dst protocol payload (s, none) = omega arith
left_of-finish dst protocol payload (s, some mac) =
    left_of-send_frame (record s { ident = (Net.ident s + 1) % 65536 }) mac 0x0800 _

-- What `send` does to the frames, and that only polls with few frames matter to it.
pub left_of-send :
    (poll : Net → Net) (s : Net) (dst : Bytes) (protocol : ℕ) (payload : Bytes)
    → Shrinks poll
    → left_of (send poll s dst protocol payload).0 ≤ left_of s
unfolding send
left_of-send poll s dst protocol payload shrinks = rw (resolve-chosen poll s dst) (
    omega (
      arith,
      left_of-finish dst protocol payload (chosen poll s dst (bytes_eq dst broadcast_ip)),
      left_of-chosen poll s dst (bytes_eq dst broadcast_ip) shrinks,
    ))

pub send-Agree :
    (n : ℕ) (p q : Net → Net) (s : Net) (dst : Bytes) (protocol : ℕ) (payload : Bytes)
    → Shrinks p
    → Agree n p q
    → left_of s ≤ n
    → send p s dst protocol payload ≡ send q s dst protocol payload
unfolding send
send-Agree n p q s dst protocol payload shrinks agree few = ap (finish dst protocol payload) (
    resolve-chosen p s dst
    ∙ chosen-Agree n p q s dst (bytes_eq dst broadcast_ip) shrinks agree few
    ∙ sym (resolve-chosen q s dst))
