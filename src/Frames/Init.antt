-- ===== src/Frames/Init.antt =====
-- `frame_alloc_init`: how much of the bitmap it allocates and clears.
use xanadu_os.Base.{ℕ, ◌+◌, ◌-◌, ◌*◌, ◌/◌, ◌≤◌, ◌<◌, ◌≡◌, some, arith}
use xanadu_os.Base.Memory.{Words}
use xanadu_os.Frames.{FrameState, frame_alloc_init}

-- With memory for the bitmap the initialisation succeeds and counts one word for each 128 KiB; it
-- clears the words that lie in the first `frames_num / 32` bytes, and every word behind those
-- bytes keeps what the heap held, among them the last of the bitmap.
pub frame_alloc_init_lem :
    (heap : Words) (pmem_limit : ℕ) {s : FrameState}
    → frame_alloc_init (some heap) pmem_limit ≡ some s
    → (s.frames_num ≡ pmem_limit / 131072)
      × ((i : ℕ) → 4 * i + 4 ≤ s.frames_num / 32 → s.frames i ≡ 0)
      × ((i : ℕ) → s.frames_num / 32 ≤ 4 * i → s.frames i ≡ heap i)
      × (0 < s.frames_num → s.frames (s.frames_num - 1) ≡ heap (s.frames_num - 1))
unfolding frame_alloc_init
frame_alloc_init_lem heap pmem_limit {s} e =
    (ground arith, λ i h. ground arith, λ i h. ground arith, λ h. ground arith)
