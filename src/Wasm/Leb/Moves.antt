-- ===== src/Wasm/Leb/Moves.antt =====
-- A number of wasm.rs that is read moves the position on.
use moon_os.Common.{
  ℕ, zero, suc, ◌+◌, ◌<◌, ◌≡◌, ap, Bool, true, false, Option, some, arith, if◌then◌else◌,
  >>=-eq-some, get_elem?,
}
use moon_os.Common.Bytes.{Bytes}
use mathlib.Core.Option.{some-injective}
use moon_os.Wasm.Leb.{uleb_from, read_uleb128}

-- After a byte: the number ends there, or goes on at the next.
moves_on :
    (last : Bool) (more : Option (ℕ × ℕ)) (acc pos v p : ℕ)
    → (more ≡ some (v, p) → pos + 1 < p)
    → (if last then some (acc, pos + 1) else more) ≡ some (v, p)
    → pos < p
moves_on true more acc pos v p later read =
    let e : pos + 1 ≡ p = ap (λ (r : ℕ × ℕ). r.1) (some-injective _ _ read) in omega arith
moves_on false more acc pos v p later read = omega (arith, later read)

uleb_from-moves :
    (n shift acc : ℕ) (content : Bytes) (pos v p : ℕ)
    → uleb_from n shift acc content pos ≡ some (v, p)
    → pos < p
unfolding uleb_from
uleb_from-moves zero shift acc content pos v p read = cc read
uleb_from-moves (suc n) shift acc content pos v p read =
    let (byte, there, rest) = >>=-eq-some (get_elem? content pos) _ read in
    moves_on _ _ _ pos v p (uleb_from-moves n _ _ content (pos + 1) v p) rest

pub read_uleb128-moves :
    (content : Bytes) (pos : ℕ) (r : ℕ × ℕ) → read_uleb128 content pos ≡ some r → pos < r.1
unfolding read_uleb128
read_uleb128-moves content pos (v, p) read = uleb_from-moves 10 0 0 content pos v p read
