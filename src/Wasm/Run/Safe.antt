-- ===== src/Wasm/Run/Safe.antt =====
-- The machine of wasm.rs never panics, whatever the code is: each stack and table access is checked.
use moon_os.Common.{true, false}
use moon_os.Common.Bytes.{Bytes}
use moon_os.Wasm.Result.{Result}
use moon_os.Wasm.Avoids.{Avoids}
use moon_os.Wasm.Run.{Run}

abbrev pub Safe : {A : Type 0} → Result A → Type 0
Safe r = Avoids false true r
