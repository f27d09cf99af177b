-- ===== src/Memory/Pmm/Frames.antt =====
-- The bitmap of pmm.rs read frame by frame: what `mark` and `is_free` do to single frames, and the
-- number of free frames.
use moon_os.Common.{
  ℕ, zero, suc, ◌+◌, ◌*◌, ◌/◌, ◌%◌, ◌^◌, ◌≤◌, ◌<◌, ◌≡◌, refl, sym, Bool, true, false, not, some,
  List, [], ◌∷◌, arith, ℕ_discrete, ◌==◌, if◌then◌else◌, length, set, get_or, length-set,
  get_or-set_self, get_or-set_ne, get_elem?-eq-get_or, All, All-set,
}
use moon_os.Common.Bits.{test_bit, set_bit, clear_bit, byte_laws}
use moon_os.Memory.Pmm.{BitmapAllocator, mark, is_free, recount}

-- Frame `f` is in use; a frame that the bitmap does not reach is.
abbrev pub used_in : List ℕ → ℕ → Bool
used_in bitmap f = test_bit (get_or bitmap (f / 8) 255) (f % 8)

abbrev pub used : BitmapAllocator → ℕ → Bool
used a = used_in a.bitmap

abbrev pub free_unit : Bool → ℕ
free_unit true = 0
free_unit false = 1

-- How many of the frames below `n` are free.
unfoldable pub count_free : (ℕ → Bool) → ℕ → ℕ
count_free u zero = 0
count_free u (suc n) = free_unit (u n) + count_free u n

count_free-le : (u : ℕ → Bool) (n : ℕ) → count_free u n ≤ n
unfolding count_free
count_free-le u zero = omega arith
count_free-le u (suc n) = ground (arith, count_free-le u n)

-- Two maps that differ at `i` only have the same count below `i`, and counts that differ by it above.
module _ (u v : ℕ → Bool) (i : ℕ) (b : Bool)
    (same : (j : ℕ) → v j ≡ (if j == i then b else u j)) where
  count_free-below : (n : ℕ) → n ≤ i → count_free v n ≡ count_free u n
  unfolding count_free
  count_free-below zero h = refl
  count_free-below (suc n) h = ground (arith, same n, count_free-below n)

  pub count_free-update :
      (n : ℕ) → i < n → count_free v n + free_unit (u i) ≡ count_free u n + free_unit b
  unfolding count_free
  count_free-update zero h = absurd (omega arith)
  count_free-update (suc n) h = ground (arith, same n, count_free-below n, count_free-update n)

pub record IsValid (a : BitmapAllocator) : Type 0 where
  pub bytes : All (λ b. b < 256) a.bitmap
  pub counted : a.free_frames ≡ count_free (used a) (8 * length a.bitmap)
  pub small : length a.bitmap ≤ 2 ^ 56
  pub room : a.frame_count ≤ 8 * length a.bitmap
  pub hint : a.next_hint ≤ a.frame_count

-- What marking frame `f` as `b` changes: that frame, and the counter.
pub record Marked (a b : BitmapAllocator) (f : ℕ) (u : Bool) : Type 0 where
  pub valid : IsValid b
  pub view : (j : ℕ) → used b j ≡ (if j == f then u else used a j)
  pub counter : b.free_frames + free_unit (used a f) ≡ a.free_frames + free_unit u
  pub frames : b.frame_count ≡ a.frame_count
  pub hint : b.next_hint ≡ a.next_hint
  pub size : length b.bitmap ≡ length a.bitmap

get_or-lt : (l : List ℕ) (i : ℕ) → All (λ b. b < 256) l → get_or l i 255 < 256
get_or-lt [] i h = omega arith
get_or-lt (x ∷ l) zero h = h.0
get_or-lt (x ∷ l) (suc i) h = get_or-lt l i h.1

same_byte : (j f : ℕ) → j / 8 ≡ f / 8 → (j == f) ≡ (j % 8 == f % 8)
same_byte j f e = ground arith

-- The byte that `mark` writes for frame `f`.
abbrev marked_byte : List ℕ → ℕ → Bool → ℕ
marked_byte l f u =
    if u then set_bit (get_or l (f / 8) 255) (f % 8) else clear_bit (get_or l (f / 8) 255) (f % 8)

marked_byte_laws :
    (l : List ℕ) (f j : ℕ) (u : Bool)
    → All (λ b. b < 256) l
    → j < 8
    → (marked_byte l f u < 256)
      × (test_bit (marked_byte l f u) j
          ≡ (if j == f % 8 then u else test_bit (get_or l (f / 8) 255) j))
marked_byte_laws l f j true h lt =
    ground (arith, byte_laws (get_or l (f / 8) 255) (f % 8) j, get_or-lt l (f / 8) h)
marked_byte_laws l f j false h lt =
    ground (arith, byte_laws (get_or l (f / 8) 255) (f % 8) j, get_or-lt l (f / 8) h)

set-used_in :
    (l : List ℕ) (f j : ℕ) (u : Bool)
    → All (λ b. b < 256) l
    → f / 8 < length l
    → used_in (set l (f / 8) (marked_byte l f u)) j ≡ (if j == f then u else used_in l j)
set-used_in l f j u h lt = elim (ℕ_discrete (j / 8) (f / 8)) [
  | yes e ↦
      rw (e, get_or-set_self l (f / 8) (marked_byte l f u) 255 lt, same_byte j f e)
        (marked_byte_laws l f (j % 8) u h (omega arith)).1
  | no ne ↦
      rw (get_or-set_ne l (f / 8) (j / 8) (marked_byte l f u) 255 (λ e. ne (sym e))) (ground arith)
]

-- The counter does not wrap: it is not 0 when a free frame is marked used.
recount_lem :
    (was u : Bool) (n k : ℕ)
    → n < 2 ^ 60
    → k + free_unit was ≡ n + free_unit u
    → recount was u n + free_unit was ≡ n + free_unit u
unfolding recount
recount_lem true true n k small e = refl
recount_lem true false n k small e = omega arith
recount_lem false true n k small e = omega arith
recount_lem false false n k small e = refl

pub is_free_lem :
    (a : BitmapAllocator) (f : ℕ) → f < 8 * length a.bitmap → is_free a f ≡ some (not (used a f))
unfolding is_free
is_free_lem a f h = rw (get_elem?-eq-get_or a.bitmap (f / 8) 255 (omega arith))

-- `mark` of a frame that the bitmap reaches does not panic, and changes that frame and the counter.
pub mark_lem :
    (a : BitmapAllocator) (f : ℕ) (u : Bool)
    → IsValid a
    → f < 8 * length a.bitmap
    → (b : BitmapAllocator) × (mark a f u ≡ some b) × Marked a b f u
unfolding mark
mark_lem a f u v h = (
  b,
  eq,
  record {
    valid = record {
      bytes =
          All-set (λ b. b < 256) a.bitmap (f / 8) _
            (marked_byte_laws a.bitmap f 0 u v.bytes (omega arith)).0 v.bytes;
      counted = rw size (omega (arith, counter, update, v.counted));
      small = ground (arith, size);
      room = ground (arith, size);
      hint = v.hint;
    };
    view = view;
    counter = counter;
    frames = refl;
    hint = refl;
    size = size;
  },
)
  where
    b : BitmapAllocator
    b = record a {
      bitmap = set a.bitmap (f / 8) (marked_byte a.bitmap f u);
      free_frames = recount (used a f) u a.free_frames;
    }

    eq : mark a f u ≡ some b
    eq = rw (get_elem?-eq-get_or a.bitmap (f / 8) 255 (omega arith))

    size : length b.bitmap ≡ length a.bitmap
    size = length-set a.bitmap (f / 8) (marked_byte a.bitmap f u)

    view : (j : ℕ) → used b j ≡ (if j == f then u else used a j)
    view j = set-used_in a.bitmap f j u v.bytes (omega arith)

    update :
        count_free (used b) (8 * length a.bitmap) + free_unit (used a f)
        ≡ count_free (used a) (8 * length a.bitmap) + free_unit u
    update = count_free-update (used a) (used b) f u view (8 * length a.bitmap) h

    counter : b.free_frames + free_unit (used a f) ≡ a.free_frames + free_unit u
    counter =
        recount_lem (used a f) u a.free_frames (count_free (used b) (8 * length a.bitmap))
          (omega (arith, v.counted, v.small, count_free-le (used a) (8 * length a.bitmap)))
          (omega (arith, update, v.counted))
