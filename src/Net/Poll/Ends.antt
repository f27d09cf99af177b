-- ===== src/Net/Poll/Ends.antt =====
-- net/mod.rs, `poll_once`: the frames that the card has bound the depth of a poll.
use native.Mathlib.Nat.{le_refl}
use moon_os.Common.{
  ℕ, zero, suc, ◌-◌, ◌≤◌, ◌≡◌, refl, sym, ap, Bool, true, false, Option, none, some, List, [], ◌∷◌,
  arith, if◌then◌else◌, length,
}
use moon_os.Common.Bytes.{Bytes}
use moon_os.Net.Poll.{dispatch_next, poll_from, poll_once}
use moon_os.Net.Poll.Depth.{Few, few, dispatch-Few, dispatch-Agree}
use moon_os.Net.Poll.Fuel.{left_of, Shrinks, Agree, left_of-if}
use moon_os.Net.State.{Net, next_frame}

Few-left : (n : ℕ) (s : Net) → Few n s → left_of s ≤ n
Few-left n s (few h) = h

dispatch_next-Few :
    (poll : Net → Net) (s : Net) (frames : List (Option Bytes))
    → Shrinks poll
    → left_of
        (dispatch_next poll (record s { incoming = (next_frame frames).1 }) (next_frame frames).0)
      ≤ length frames
dispatch_next-Few poll s [] shrinks = omega arith
dispatch_next-Few poll s (none ∷ frames) shrinks = omega arith
dispatch_next-Few poll s (some frame ∷ frames) shrinks =
    omega (arith, Few-left _ _ (dispatch-Few poll (record s { incoming = frames }) frame shrinks))

poll_from-Shrinks : (fuel : ℕ) → Shrinks (poll_from fuel)
unfolding poll_from
poll_from-Shrinks zero s = le_refl (left_of s)
poll_from-Shrinks (suc fuel) s =
    left_of-if (Net.nic s) _ s (left_of s)
      (dispatch_next-Few (poll_from fuel) s (Net.incoming s) (poll_from-Shrinks fuel))
      (le_refl (left_of s))

if-then-Agree : (b : Bool) (x y z : Net) → x ≡ y → (if b then x else z) ≡ (if b then y else z)
if-then-Agree true x y z e = e
if-then-Agree false x y z e = refl

if-same : (b : Bool) (x z : Net) → x ≡ z → (if b then x else z) ≡ z
if-same true x z e = e
if-same false x z e = refl

no_frames :
    (poll : Net → Net) (s : Net) (frames : List (Option Bytes))
    → Net.incoming s ≡ frames
    → length frames ≡ 0
    → dispatch_next poll (record s { incoming = (next_frame frames).1 }) (next_frame frames).0 ≡ s
no_frames poll s [] e empty =
    ap (λ (frames : List (Option Bytes)). record s { incoming = frames }) (sym e)
no_frames poll s (f ∷ frames) e empty = absurd (omega arith)

quiet_poll : (fuel : ℕ) (s : Net) → left_of s ≡ 0 → poll_from fuel s ≡ s
unfolding poll_from
quiet_poll zero s empty = refl
quiet_poll (suc fuel) s empty =
    if-same (Net.nic s) _ s (no_frames (poll_from fuel) s (Net.incoming s) refl empty)

dispatch_next-Agree :
    (p q : Net → Net) (s : Net) (frames : List (Option Bytes))
    → Shrinks p
    → Agree (length frames - 1) p q
    → dispatch_next p (record s { incoming = (next_frame frames).1 }) (next_frame frames).0
      ≡ dispatch_next q (record s { incoming = (next_frame frames).1 }) (next_frame frames).0
dispatch_next-Agree p q s [] shrinks agree = refl
dispatch_next-Agree p q s (none ∷ frames) shrinks agree = refl
dispatch_next-Agree p q s (some frame ∷ frames) shrinks agree =
    dispatch-Agree (length (some frame ∷ frames) - 1) p q (record s { incoming = frames }) frame
      shrinks agree (omega arith)

poll_from-Agree :
    (m n : ℕ) (s : Net) → left_of s ≤ m → left_of s ≤ n → poll_from m s ≡ poll_from n s
unfolding poll_from
poll_from-Agree zero zero s hm hn = refl
poll_from-Agree zero (suc n) s hm hn = sym (quiet_poll (suc n) s (omega arith))
poll_from-Agree (suc m) zero s hm hn = quiet_poll (suc m) s (omega arith)
poll_from-Agree (suc m) (suc n) s hm hn = if-then-Agree (Net.nic s) _ _ s (
    dispatch_next-Agree (poll_from m) (poll_from n) s (Net.incoming s) (poll_from-Shrinks m)
      (λ t small. poll_from-Agree m n t (omega (arith, small)) (omega (arith, small))))

-- A poll ends, with what its handlers poll in turn: the number of frames that the card still has is
-- depth enough, and any greater depth gives the same state.
pub poll_once-enough : (depth : ℕ) (s : Net) → left_of s ≤ depth → poll_from depth s ≡ poll_once s
poll_once-enough depth s enough = poll_from-Agree depth (left_of s) s enough (le_refl (left_of s))
