-- ===== src/Drivers/Mouse/Tests.antt =====
-- Packets of a mouse: one left, then one down with a button.
use moon_os.Common.{◌-◌, ◌^◌, ◌≡◌, true, false, List, [], ◌∷◌, arith}
use moon_os.Drivers.Mouse.{Motion}
use moon_os.Drivers.Mouse.Motions.{feed, encode_all, busy, feed-encode_all, late-encode_all}

abbrev two_motions : List Motion
two_motions =
    record { dx = 2 ^ 32 - 3; dy = 8; left = false; right = false; middle = false }
    ∷ record { dx = 0; dy = 2 ^ 32 - 1; left = true; right = false; middle = false }
    ∷ []

feed-encode_all_example :
    ((feed (record { index = 0; packet = 0 ∷ 0 ∷ 0 ∷ [] }) (encode_all two_motions)).0.index ≡ 0)
    × ((feed (record { index = 0; packet = 0 ∷ 0 ∷ 0 ∷ [] }) (encode_all two_motions)).1
        ≡ busy two_motions)
feed-encode_all_example = feed-encode_all two_motions 0 0 0 (ground arith)

late-encode_all_example :
    (feed (record { index = 1; packet = 0 ∷ 0 ∷ 0 ∷ [] }) (encode_all two_motions)).0.index ≡ 1
late-encode_all_example = late-encode_all two_motions 0 0 0 (ground arith)
