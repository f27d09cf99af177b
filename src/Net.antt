-- ===== src/Net.antt =====
-- kernel/src/net, the network stack.
pub mod Checksum
pub mod State
pub mod Ipv4
pub mod Arp
pub mod Icmp
pub mod Udp
pub mod Dhcp
pub mod Dns
pub mod Tcp
pub mod Stream
pub mod Poll
mod Tests
