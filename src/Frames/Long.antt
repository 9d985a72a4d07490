-- ===== src/Frames/Long.antt =====
-- The marking loop over more than 32 frames. From round 32 on `0 + i` stays above 31, so every
-- round moves on to the next word and marks its bit 0.
use xanadu_os.Base.{ℕ, zero, suc, ◌+◌, ◌*◌, ◌/◌, ◌%◌, ◌^◌, ◌≤◌, ◌<◌, ◌≡◌, ◌≢◌, ◌⊎◌, ◌∙◌, arith}
use xanadu_os.Base.Words.{u16}
use xanadu_os.Base.Memory.{Words}
use Prim.Native.Nat.{bit_or}
use xanadu_os.Frames.{
  Cursor, advance, place, start, set_frame_used, alloc_loop, alloc_nframes, get_frame_meta,
  page_size,
}
use xanadu_os.Frames.Walk.{used, used-set_frame_used}
use xanadu_os.Frames.Marks.{alloc_loop-addrs}

abbrev pub LongAt : (fm i : ℕ) → Cursor → Type 0
LongAt fm i c =
    ((i ≤ 32) × (c.frame_map ≡ fm) × (c.frame ≡ 0) × (c.overflow ≡ 0))
    ⊎ ((32 < i) × (c.frame_map + 32 ≡ fm + i) × (c.frame ≡ 0))

advance-LongAt :
    (fm i : ℕ) (c : Cursor)
    → fm + i < 2 ^ 27
    → LongAt fm i c
    → LongAt fm (i + 1) (advance i c)
      × (place i (advance i c) < 32)
      × (((advance i c).frame_map ≡ fm) ⊎ (place i (advance i c) ≡ 0))
      × (fm ≤ (advance i c).frame_map)
unfolding advance
advance-LongAt fm i c h at = ground arith

alloc_loop-misses :
    (rounds i fm : ℕ) (c : Cursor) (addr flags : ℕ) (m out : Words) (n : ℕ)
    → fm + i + rounds < 2 ^ 27
    → LongAt fm i c
    → 32 * (fm + 1) ≤ n
    → n % 32 ≢ 0
    → used (alloc_loop rounds i c addr flags m out).0 n ≡ used m n
unfolding alloc_loop
alloc_loop-misses zero i fm c addr flags m out n room at above odd = ground arith
alloc_loop-misses (suc k) i fm c addr flags m out n room at above odd =
    let (at', lt, where_to, ge) = advance-LongAt fm i c (omega arith) at in
    let c' = advance i c in
    alloc_loop-misses k (i + 1) fm c' addr flags (set_frame_used m c'.frame_map (place i c')).0 _ n
      (omega arith) at' above odd
    ∙ ground (arith, used-set_frame_used m c'.frame_map (place i c') n lt)

-- `alloc_nframes` at an address that starts a word, of any number of frames: of the frames behind
-- the first word it marks none that is not the first of its word, although it hands them out. The
-- address that it writes for frame `k` is that of the frame.
pub alloc_nframes_long :
    (m out : Words) (nframes addr flags k : ℕ)
    → addr % (page_size * 32) ≡ 0
    → addr + page_size * nframes ≤ 2 ^ 32
    → 32 < k
    → k % 32 ≢ 0
    → k < nframes
    → let (m', out', ret) = alloc_nframes m nframes addr out flags in
      (used m' (addr / page_size + k) ≡ used m (addr / page_size + k))
      × (out' k ≡ bit_or (addr + k * page_size) (u16 flags))
unfolding alloc_nframes get_frame_meta
alloc_nframes_long m out nframes addr flags k aligned fits above odd lt =
    let a = get_frame_meta addr in
    (
      alloc_loop-misses nframes 0 a.frame_map (start a.frame_map a.frame) addr (u16 flags) m out
          (addr / page_size + k) (omega arith) (omega arith) (omega arith) (omega arith),
      alloc_loop-addrs nframes 0 (start a.frame_map a.frame) addr (u16 flags) m out k
          ∙ ground arith,
    )
