-- ===== src/Frames/Walk.antt =====
-- The walk of `is_free_nframes`, `set_nframes_used` and `alloc_nframes` over consecutive frames.
-- Frame number `n` is bit `n % 32` of word `n / 32`.
use xanadu_os.Base.{
  ℕ, ◌+◌, ◌*◌, ◌/◌, ◌%◌, ◌^◌, ◌≤◌, ◌<◌, ◌≡◌, ◌⊎◌, Bool, true, arith, ◌==◌, if◌then◌else◌,
}
use xanadu_os.Base.Words.{test_bit, test_bit-set_bit}
use xanadu_os.Base.Memory.{Words, write}
use xanadu_os.Frames.{Cursor, advance, place, set_frame_used}

-- The loop is at frame `frame_map * 32 + frame + i`, in the first word or in the next.
abbrev pub At : (frame_map frame i : ℕ) → Cursor → Type 0
At frame_map frame i c =
    ((c.frame_map ≡ frame_map) × (c.frame ≡ frame) × (c.overflow ≡ 0) × (frame + i ≤ 32))
    ⊎ ((c.frame_map ≡ frame_map + 1)
        × (c.frame ≡ 0)
        × (c.overflow + 32 ≡ 2 ^ 32 + frame)
        × (32 ≤ frame + i))

module _ {frame_map frame : ℕ} (fits : frame < 32) (room : frame_map + 2 < 2 ^ 27) where
  -- Within 32 rounds the loop visits the frames one after the other.
  pub advance_lem :
      {i : ℕ} (c : Cursor)
      → At frame_map frame i c
      → i < 32
      → At frame_map frame (i + 1) (advance i c)
        × (32 * (advance i c).frame_map + place i (advance i c) ≡ 32 * frame_map + frame + i)
        × (place i (advance i c) < 32)
  unfolding advance
  advance_lem {i} c at h = ground arith

abbrev pub used : Words → ℕ → Bool
used frames n = test_bit (frames (n / 32)) (n % 32)

pub used-set_frame_used :
    (m : Words) (fm fr n : ℕ)
    → fr < 32
    → used (set_frame_used m fm fr).0 n ≡ (if 32 * fm + fr == n then true else used m n)
unfolding set_frame_used write
used-set_frame_used m fm fr n h = ground (arith, test_bit-set_bit (m fm) fr (n % 32))

pub used_at : (m : Words) (fm fr n : ℕ) → fr < 32 → 32 * fm + fr ≡ n → used m n ≡ test_bit (m fm) fr
used_at m fm fr n h e =
    let a : n / 32 ≡ fm = omega arith in let b : n % 32 ≡ fr = omega arith in rw (a, b)
