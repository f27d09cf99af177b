-- ===== src/Wasm.antt =====
-- kernel/src/wasm.rs, the interpreter of WebAssembly: Result holds its errors, Leb its numbers, Parse
-- the sections of a module, Code the instructions, Run the machine.
pub mod Result
pub mod Leb
pub mod Avoids
pub mod Parse
pub mod Code
pub mod Arith
pub mod Run
mod Tests
