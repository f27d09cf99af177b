-- ===== src/Lib.antt =====
-- The kernel of moon OS: its core, kernel/src of the repository, as functions, and the theorems about
-- them. Paths below are from the repository's root.
--
-- The kernel boots into one address space with a bitmap of physical frames, a heap for `alloc`, a
-- preemptive scheduler that the timer interrupt drives, a file system in memory, drivers that are
-- polled or called by interrupts, and a network stack that is polled. Everything else, the GUI and the
-- apps, calls these parts.
--
--   Memory/Pmm       kernel/src/memory/pmm.rs. `BitmapAllocator`: the bitmap is a list of bytes; `alloc`,
--                    `alloc_contiguous`, `free`, `init` from the boot loader's memory map, and `stats`.
--   Memory/Heap      kernel/src/memory/heap.rs. `FreeListAllocator`: the chain of free nodes is a list of
--                    addresses and sizes; machine arithmetic wraps at 2 ^ 64 as usize does. `GlobalAlloc`
--                    is `global_alloc` and `global_dealloc`.
--   Memory/Paging    kernel/src/memory/paging.rs. Page tables of four levels in frames that Memory/Pmm gives:
--                    `map_in`, `unmap_in`, `translate_in`, and `AddressSpace::new` as `new_space`. Spaces and
--                    Unmap show that tables that are a tree refine the map from pages to frames.
--   Loaders          kernel/src/elf.rs (Elf), pe.rs (Pe), process.rs (Process) and syscall.rs (Syscall), over
--                    the machine of Memory/Paging. Outcome tells an error that is returned from a panic.
--   Sched            kernel/src/sched.rs. The queue of tasks, `on_timer_tick`, `spawn`, `spawn_user`,
--                    `exit_current`, with what they set in the CPU (CR3, and RSP0 of the TSS).
--   Fs/RamFs         kernel/src/fs/ramfs.rs. `RamFs`: files and directories by path, in two maps.
--   Fs/Persist       kernel/src/fs/persist.rs. The snapshot of the file system on a disk of sectors.
--   Fs/Vault         kernel/src/vault.rs. Encrypted files in the RAM file system, under the session's key.
--   Crypto           kernel/src/crypto. Sha256 (with hmac.rs), Hkdf, Chacha20, Poly1305 and Aead.
--   Drivers/Keyboard kernel/src/drivers/keyboard.rs. Scancodes into characters and special keys.
--   Drivers/Mouse    kernel/src/drivers/mouse.rs. Bytes into packets, and packets into movements.
--   Drivers/Rtc      kernel/src/drivers/rtc.rs. Readings of the CMOS clock, as a list, into a date.
--   Net              kernel/src/net. State holds all statics of the stack in one record `Net`; Checksum, Ipv4
--                    and Poll are ipv4.rs and `poll_once` of mod.rs; Arp, Icmp, Udp, Dhcp, Dns are the files of
--                    these names; Tcp and Stream are tcp.rs.
--   Packages         kernel/src/pkg.rs (Pkg), kernel/src/inflate.rs (Inflate), kernel/src/zip.rs (Zip).
--   Wasm             kernel/src/wasm.rs. Leb, Parse, Code, Arith and Run: the numbers, the sections of a module,
--                    the instructions and the map of blocks, i32 arithmetic, and the machine.
--   Common           Boolean tests, lists over native numbers, bits, byte strings, maps, UTF-8.
--
-- How the code corresponds: a `struct` is a record, an `enum` a data type, `&mut self` and a locked static
-- are a state that is passed and returned, `Option` is `Option`, a panic is `none` or is excluded by a
-- hypothesis. A byte is a number below 256. Numbers are natural numbers; where the code's width can
-- matter, the reduction modulo its power of two is written out, for counters, casts, sequence numbers
-- and addresses. The release profile's wrap-around is modelled, not the panics of a debug build.
-- Memory for the code's own Vec and String values is taken to be there, but for one place: a WebAssembly
-- body declares a number of locals that nothing else limits, and Wasm/Run takes as `room` how many i32
-- the heap can give in one piece; a frame of more locals panics.
--
-- The network polls while it waits: `ipv4::send` calls `poll_once` until ARP answers, and `poll_once`
-- handles frames that can send again. The functions take `poll` as an argument, and Net/Poll ties
-- the knot: what the card will return is a list of frames, each poll takes one of them, and the number of
-- frames left bounds the depth; with none left a poll changes nothing. The bounded waits keep the
-- source's limits (ARP 500000, DHCP 2000000, ping 1000000, DNS 2000000, TCP 3000000 polls).
--
-- Fuel elsewhere: `parse_options` and `skip_name` have one round for each byte, `inflate_block` one
-- more than the bits that are left; `inflate` has eight rounds for each byte, and each block takes
-- three bits; `fold_carry` has the three rounds that any u32 needs; `ensure_parents` has the length of
-- the path, and each round is on a shorter path. `drain_available` has two rounds more than the card
-- has frames. The loaders' copies have a round for each byte; `apply_keystream`, Poly1305,
-- `write_sectors` and `restore` have the length of what they go through, and each round takes a byte
-- or more. The walk over a PE image's import descriptors runs on what the image has put in memory, and
-- its fuel is an argument, as is the fuel of `run_function`, since a WebAssembly function may loop for
-- ever.
--
-- Memory is seen twice, as the entries of page tables and as bytes: a frame is one or the other, since
-- the loaders write only into frames they have just taken. `flushed` lists the invalidations of the
-- TLB. Disk writes reach the disk, as the code assumes when it ignores the driver's answer.
--
-- What the hypotheses say: memory map entries of the boot loader are page aligned; heap alignments are
-- powers of two up to 2 ^ 30 and heap addresses stay below 2 ^ 63; counters of ids do not reach 2 ^ 64.
--
-- Not modelled: HTTP, TLS and WebDAV; X25519; the APK reader and the AHCI driver; the GUI.
-- They are parts of their own, which the parts above do not call but for the driver. Port and device
-- access, the boot loader's structures, fonts and drawing, and the programs under userland and tools
-- have no behaviour of their own to state.
pub mod Common
pub mod Loaders
pub mod Memory
pub mod Sched
pub mod Fs
pub mod Drivers
pub mod Crypto
pub mod Net
pub mod Packages
pub mod Wasm
