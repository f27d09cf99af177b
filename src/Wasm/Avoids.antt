-- ===== src/Wasm/Avoids.antt =====
-- Results of wasm.rs that are no panic, or do not run out of fuel, through the binds of the code.
use moon_os.Common.{◌≡◌, refl, ◌≢◌, Bool, true, false, Option, none, some}
use moon_os.Wasm.Result.{
  WasmError, Result, ok, err, panics, runs_on, ◌>>=◌, ◌>>◌, ok_or, require, or_panic,
}

-- A panic only where `panic_ok`, the end of the fuel only where `fuel_ok`.
pub record Avoids {A : Type 0} (panic_ok fuel_ok : Bool) (r : Result A) : Type 0 where
  pub panic : r ≡ panics → panic_ok ≡ true
  pub spin : r ≡ runs_on → fuel_ok ≡ true

pub Avoids-ne-runs_on : {A : Type 0} {r : Result A} → Avoids true false r → r ≢ runs_on
Avoids-ne-runs_on h e = cc (h.spin e)

pub Avoids-ne-panics : {A : Type 0} {r : Result A} → Avoids false true r → r ≢ panics
Avoids-ne-panics h e = cc (h.panic e)

module _ {A : Type 0} {panic_ok fuel_ok : Bool} where
  pub ok-Avoids : {a : A} → Avoids panic_ok fuel_ok (ok a)
  ok-Avoids = record { panic = λ e. cc e; spin = λ e. cc e }

  pub err-Avoids : (e : WasmError) → Avoids {A = A} panic_ok fuel_ok (err e)
  err-Avoids e = record { panic = λ x. cc x; spin = λ x. cc x }

module _ {A B : Type 0} {panic_ok fuel_ok : Bool} where
  pub bind-Avoids :
      (r : Result A) (k : A → Result B)
      → Avoids panic_ok fuel_ok r
      → ((a : A) → Avoids panic_ok fuel_ok (k a))
      → Avoids panic_ok fuel_ok (r >>= k)
  unfolding ◌>>=◌
  bind-Avoids (ok a) k h hk = hk a
  bind-Avoids (err e) k h hk = err-Avoids e
  bind-Avoids panics k h hk = record { panic = λ x. h.panic refl; spin = λ x. cc x }
  bind-Avoids runs_on k h hk = record { panic = λ x. cc x; spin = λ x. h.spin refl }

  pub ok_or-Avoids :
      (o : Option A) (e : WasmError) (k : A → Result B)
      → ((a : A) → o ≡ some a → Avoids panic_ok fuel_ok (k a))
      → Avoids panic_ok fuel_ok (ok_or o e >>= k)
  unfolding ok_or ◌>>=◌
  ok_or-Avoids none e k hk = err-Avoids e
  ok_or-Avoids (some a) e k hk = hk a refl

  pub or_panic-Avoids :
      (o : Option A) (k : A → Result B)
      → (o ≡ none → panic_ok ≡ true)
      → ((a : A) → o ≡ some a → Avoids panic_ok fuel_ok (k a))
      → Avoids panic_ok fuel_ok (or_panic o >>= k)
  unfolding or_panic ◌>>=◌
  or_panic-Avoids none k h hk = record { panic = λ x. h refl; spin = λ x. cc x }
  or_panic-Avoids (some a) k h hk = hk a refl

pub require-Avoids :
    {B : Type 0} {panic_ok fuel_ok : Bool} (b : Bool) (e : WasmError) (r : Result B)
    → (b ≡ true → Avoids panic_ok fuel_ok r)
    → Avoids panic_ok fuel_ok (require b e >> r)
unfolding require ◌>>◌ ◌>>=◌
require-Avoids true e r h = h refl
require-Avoids false e r h = err-Avoids e
