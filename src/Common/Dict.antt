-- ===== src/Common/Dict.antt =====
-- `BTreeMap` with byte strings for keys, as an association list in the order of the keys. Nothing but
-- the order of the entries depends on that order.
use mathlib.Core.Path.{◌≡◌, refl}
use mathlib.Core.Option.{Option, none, some}
use mathlib.Core.List.{List, [], ◌∷◌}
use native.Mathlib.Omega.{arith}
use moon_os.Common.Tests.{if◌then◌else◌}
use moon_os.Common.Bytes.{Bytes, bytes_eq, bytes_lt, bytes_eq_iff}

abbrev pub Dict {ℓ} : Type ℓ → Type ℓ
Dict V = List (Bytes × V)

module _ {ℓ} {V : Type ℓ} where
  unfoldable pub get : Bytes → Dict V → Option V
  get k [] = none
  get k ((j, v) ∷ m) = if bytes_eq j k then some v else get k m

  unfoldable pub insert : Bytes → V → Dict V → Dict V
  insert k v [] = (k, v) ∷ []
  insert k v ((j, w) ∷ m) =
      let rest = insert k v m in
      if bytes_eq j k
      then (k, v) ∷ m
      else (if bytes_lt k j then (k, v) ∷ (j, w) ∷ m else (j, w) ∷ rest)

  unfoldable pub remove : Bytes → Dict V → Dict V
  remove k [] = []
  remove k ((j, v) ∷ m) = if bytes_eq j k then remove k m else (j, v) ∷ remove k m

  pub get-insert :
      (j k : Bytes) (v : V) (m : Dict V)
      → get j (insert k v m) ≡ (if bytes_eq k j then some v else get j m)
  unfolding get insert
  get-insert j k v [] = refl
  get-insert j k v ((i, w) ∷ m) =
      ground (arith, bytes_eq_iff k j, bytes_eq_iff i k, bytes_eq_iff i j, get-insert j k v m)

  pub get-remove :
      (j k : Bytes) (m : Dict V) → get j (remove k m) ≡ (if bytes_eq k j then none else get j m)
  unfolding get remove
  get-remove j k [] = ground arith
  get-remove j k ((i, w) ∷ m) =
      ground (arith, bytes_eq_iff k j, bytes_eq_iff i k, bytes_eq_iff i j, get-remove j k m)
