-- ===== src/Frames/Search.antt =====
-- `find_frame_in_map`: requests of 1, 2, up to 4 and up to 8 frames are served from the first,
-- second, third and fourth byte of a word.
use Prim.Native.Nat.{bit_and}
use native.Mathlib.Nat.{mod-eq_of_lt, mod-eq-sub-mod}
use xanadu_os.Base.{
  ℕ, zero, suc, ◌+◌, ◌-◌, ◌*◌, ◌%◌, ◌^◌, ◌≤◌, ◌<◌, ◌≡◌, ◌⊎◌, inl, inr, ◌∙◌, refl, Bool, true, false,
  ◌&&◌, ◌||◌, not, Option, none, some, arith, ltb, leb, ◌==◌, ==_iff, Bool-cases, Option-cases, ap,
}
use xanadu_os.Base.Bits.{bit, bit-bit_and, bit-le_one}
use xanadu_os.Base.Words.{test_bit-bit}
use xanadu_os.Base.Memory.{Words}
use xanadu_os.Frames.{
  is_frame_free, get_frame_submap_mask, scan, take_frames, find_frame_in_map, max_buddy_size,
}

-- The byte of a word that serves a request.
abbrev pub buddy_of : ℕ → ℕ
buddy_of nframes = (get_frame_submap_mask nframes).1

abbrev pub first_slot : ℕ → ℕ
first_slot nframes = max_buddy_size * buddy_of nframes

pub buddy_of-bounds :
    (nframes : ℕ) → nframes ≤ 8 → (buddy_of nframes < 4) × (nframes ≤ 2 ^ buddy_of nframes)
unfolding get_frame_submap_mask
buddy_of-bounds nframes h = ground arith

-- `j` is a place that the search for `nframes` frames looks at.
pub record IsSlot (nframes j : ℕ) : Type 0 where
  pub from : first_slot nframes ≤ j
  pub below : j < first_slot nframes + max_buddy_size
  pub step : (j - first_slot nframes) % nframes ≡ 0

mod-back : (d n : ℕ) → n ≤ d → d % n ≡ (d - n) % n
mod-back d n h = mod-eq-sub-mod h

mod-small : (d n : ℕ) → d < n → d % n ≡ d
mod-small d n h = mod-eq_of_lt h

module _ (m : Words) (fm nframes end : ℕ) (pos : 0 < nframes) where
  pub scan-total :
      (fuel j : ℕ) → end - j < fuel → (r : Option ℕ) × (scan fuel m fm nframes j end ≡ some r)
  unfolding scan
  scan-total zero j h = absurd (omega arith)
  scan-total (suc fuel) j h = elim (Bool-cases (ltb j end)) [
    | inl more ↦ elim (Bool-cases (is_frame_free m fm j)) [
      | inl free ↦ (some j, rw (more, free))
      | inr taken ↦ rw (more, taken) (scan-total fuel (j + nframes) (ground arith))
    ]
    | inr done ↦ (none, rw done)
  ]

  pub scan-found :
      (fuel j : ℕ) {k : ℕ}
      → scan fuel m fm nframes j end ≡ some (some k)
      → (j ≤ k) × (k < end) × (is_frame_free m fm k ≡ true) × ((k - j) % nframes ≡ 0)
  unfolding scan
  scan-found zero j {k} h = cc
  scan-found (suc fuel) j {k} h =
      ground (arith, scan-found fuel (j + nframes) {k = k}, mod-back (k - j) nframes)

  pub scan-full :
      (fuel j k : ℕ)
      → scan fuel m fm nframes j end ≡ some none
      → j ≤ k
      → k < end
      → (k - j) % nframes ≡ 0
      → is_frame_free m fm k ≡ false
  unfolding scan
  scan-full zero j k h le lt e = cc
  scan-full (suc fuel) j k h le lt e =
      ground
        (arith, scan-full fuel (j + nframes) k, mod-back (k - j) nframes, mod-small (k - j) nframes)

-- The mask has the eight bits of its byte.
all_below : ℕ → (ℕ → Bool) → Bool
all_below zero p = true
all_below (suc n) p = p n && all_below n p

all_below_at : (n : ℕ) (p : ℕ → Bool) (x : ℕ) → all_below n p ≡ true → x < n → p x ≡ true
unfolding all_below
all_below_at zero p x h lt = absurd (omega arith)
all_below_at (suc n) p x h lt = ground (arith, all_below_at n p x)

abbrev mask_covers : ℕ → ℕ → Bool
mask_covers n j =
    not (leb (first_slot n) j && ltb j (first_slot n + 8)) || bit (get_frame_submap_mask n).0 j == 1

mask_table : all_below 9 (λ n. all_below 32 (mask_covers n)) ≡ true
unfolding all_below get_frame_submap_mask bit
mask_table = refl

mask_bits :
    (nframes j : ℕ)
    → nframes ≤ 8
    → first_slot nframes ≤ j
    → j < first_slot nframes + 8
    → bit (get_frame_submap_mask nframes).0 j ≡ 1
mask_bits nframes j h lo hi =
    let row = all_below_at 9 (λ n. all_below 32 (mask_covers n)) nframes mask_table (omega arith) in
    let cell =
      all_below_at 32 (mask_covers nframes) j row (omega (arith, buddy_of-bounds nframes h)) in
    ground arith

-- A word that passes the first test of `find_frame_in_map` has no free frame in the byte.
pub full_byte :
    (m : Words) (fm nframes j : ℕ)
    → nframes ≤ 8
    → bit_and (m fm) (get_frame_submap_mask nframes).0 ≡ (get_frame_submap_mask nframes).0
    → first_slot nframes ≤ j
    → j < first_slot nframes + 8
    → is_frame_free m fm j ≡ false
unfolding is_frame_free
full_byte m fm nframes j h e lo hi = rw (test_bit-bit (m fm) j) (
    ground (
      arith,
      ap (λ w. bit w j) e,
      bit-bit_and (m fm) (get_frame_submap_mask nframes).0 j,
      mask_bits nframes j h lo hi,
      bit-le_one (m fm) j,
    ))

-- What the search for `nframes` frames in one word answers.
abbrev pub Answer : (m : Words) (fm : ℕ) (addrs : Words) (off nframes mapped flags : ℕ) → Type 0
Answer m fm addrs off nframes mapped flags =
    ((j : ℕ) × IsSlot nframes j
      × (is_frame_free m fm j ≡ true)
      × (find_frame_in_map m fm addrs off nframes mapped flags
          ≡ some (take_frames m fm j addrs off nframes mapped flags)))
    ⊎ ((find_frame_in_map m fm addrs off nframes mapped flags
          ≡ some (record { frames = m; addrs = addrs; mapped = mapped; ret = 1 }))
        × ((j : ℕ) → IsSlot nframes j → is_frame_free m fm j ≡ false))

-- `find_frame_in_map` for 1 to 8 frames ends. It takes the frames from a place of the request's
-- byte whose first frame is free, or it returns 1 and changes nothing because the first frame of
-- every place is used.
pub find_frame_in_map_lem :
    (m : Words) (fm : ℕ) (addrs : Words) (off nframes mapped flags : ℕ)
    → 0 < nframes
    → nframes ≤ 8
    → Answer m fm addrs off nframes mapped flags
unfolding find_frame_in_map
find_frame_in_map_lem m fm addrs off nframes mapped flags pos h =
    let mask = (get_frame_submap_mask nframes).0 in
    let lo = first_slot nframes in
    let hi = 8 * (buddy_of nframes + 1) in
    elim (Bool-cases (bit_and (m fm) mask == mask)) [
      | inl full ↦
          inr
            (rw full, λ j at. full_byte m fm nframes j h ((==_iff _ mask).0 full) at.from at.below)
      | inr some_free ↦
          let (r, e) = scan-total m fm nframes hi pos 9 lo (omega arith) in
          elim (Option-cases r) [
            | inl stop ↦
                let e' = e ∙ ap some stop in
                inr (
                  rw (some_free, e'),
                  λ j at.
                      scan-full m fm nframes hi pos 9 lo j e' at.from (omega (arith, at.below))
                        at.step,
                )
            | inr (j, hit) ↦
                let e' = e ∙ ap some hit in
                let (ge, lt, free, step) = scan-found m fm nframes hi pos 9 lo e' in
                inl (
                  j,
                  record { from = ge; below = omega arith; step = step },
                  free,
                  rw (some_free, e'),
                )
          ]
    ]
