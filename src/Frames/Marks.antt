-- ===== src/Frames/Marks.antt =====
-- What the two marking loops do to the bitmap, for at most 32 frames.
use Prim.Native.Nat.{bit_or}
use xanadu_os.Base.{
  ℕ, zero, suc, ◌+◌, ◌*◌, ◌/◌, ◌^◌, ◌≤◌, ◌<◌, ◌≡◌, ◌↔◌, ◌∙◌, refl, Bool, true, false, ◌&&◌, arith,
  ltb, leb, if◌then◌else◌,
}
use xanadu_os.Base.Words.{u16, u32}
use xanadu_os.Base.Memory.{Words, write}
use xanadu_os.Frames.{
  Cursor, start, advance, place, is_frame_free, is_free_loop, is_free_nframes, set_frame_used,
  set_nframes_loop, set_nframes_used, alloc_loop, alloc_nframes, get_frame_meta, page_size,
}
use xanadu_os.Frames.Walk.{At, advance_lem, used, used-set_frame_used, used_at}

abbrev pub within : (lo count n : ℕ) → Bool
within lo count n = leb lo n && ltb n (lo + count)

module _ {fm fr : ℕ} (fits : fr < 32) (room : fm + 2 < 2 ^ 27) where
  set_nframes_loop-used :
      (rounds i : ℕ) (c : Cursor) (m : Words) (ret n : ℕ)
      → At fm fr i c
      → i + rounds ≤ 32
      → used (set_nframes_loop rounds i c m ret).0 n
        ≡ (if within (32 * fm + fr + i) rounds n then true else used m n)
  unfolding set_nframes_loop
  set_nframes_loop-used zero i c m ret n at h = ground arith
  set_nframes_loop-used (suc k) i c m ret n at h =
      let (at', e, lt) = advance_lem fits room c at (omega arith) in
      let c' = advance i c in
      let s = set_frame_used m c'.frame_map (place i c') in
      set_nframes_loop-used k (i + 1) c' s.0 (bit_or ret s.1) n at' (omega arith)
      ∙ ground (arith, used-set_frame_used m c'.frame_map (place i c') n lt)

  alloc_loop-used :
      (rounds i : ℕ) (c : Cursor) (addr flags : ℕ) (m out : Words) (n : ℕ)
      → At fm fr i c
      → i + rounds ≤ 32
      → used (alloc_loop rounds i c addr flags m out).0 n
        ≡ (if within (32 * fm + fr + i) rounds n then true else used m n)
  unfolding alloc_loop
  alloc_loop-used zero i c addr flags m out n at h = ground arith
  alloc_loop-used (suc k) i c addr flags m out n at h =
      let (at', e, lt) = advance_lem fits room c at (omega arith) in
      let c' = advance i c in
      let s = set_frame_used m c'.frame_map (place i c') in
      alloc_loop-used k (i + 1) c' addr flags s.0 _ n at' (omega arith)
      ∙ ground (arith, used-set_frame_used m c'.frame_map (place i c') n lt)

  is_free_loop-used :
      (rounds i : ℕ) (c : Cursor) (m : Words) (n : ℕ)
      → At fm fr i c
      → i + rounds ≤ 32
      → is_free_loop m rounds i c ≡ true
      → within (32 * fm + fr + i) rounds n ≡ true
      → used m n ≡ false
  unfolding is_free_loop is_frame_free
  is_free_loop-used zero i c m n at h free mem = ground arith
  is_free_loop-used (suc k) i c m n at h free mem =
      let (at', e, lt) = advance_lem fits room c at (omega arith) in
      let c' = advance i c in
      ground (
        arith,
        used_at m c'.frame_map (place i c') (32 * fm + fr + i) lt e,
        is_free_loop-used k (i + 1) c' m n at' (omega arith),
      )

  is_free_loop_complete :
      (rounds i : ℕ) (c : Cursor) (m : Words)
      → At fm fr i c
      → i + rounds ≤ 32
      → ((n : ℕ) → within (32 * fm + fr + i) rounds n ≡ true → used m n ≡ false)
      → is_free_loop m rounds i c ≡ true
  unfolding is_free_loop is_frame_free
  is_free_loop_complete zero i c m at h all = refl
  is_free_loop_complete (suc k) i c m at h all =
      let (at', e, lt) = advance_lem fits room c at (omega arith) in
      let c' = advance i c in
      ground (
        arith,
        used_at m c'.frame_map (place i c') (32 * fm + fr + i) lt e,
        all (32 * fm + fr + i) (ground arith),
        is_free_loop_complete k (i + 1) c' m at' (omega arith) (λ n p. all n (ground arith)),
      )

At-start : (fm fr : ℕ) → fr < 32 → At fm fr 0 (start fm fr)
At-start fm fr h = omega arith

-- For at most 32 frames, `set_nframes_used` marks exactly the frames of the range, across a word
-- boundary too, and changes no other.
pub set_nframes_used-marks :
    (m : Words) (nframes fm fr n : ℕ)
    → nframes ≤ 32
    → fr < 32
    → fm + 2 < 2 ^ 27
    → used (set_nframes_used m nframes fm fr).0 n
      ≡ (if within (32 * fm + fr) nframes n then true else used m n)
unfolding set_nframes_used
set_nframes_used-marks m nframes fm fr n small fits room =
    set_nframes_loop-used fits room nframes 0 (start fm fr) m 0 n (At-start fm fr fits)
      (omega arith)
    ∙ ground arith

-- For at most 32 frames, `is_free_nframes` answers true exactly when no frame of the range is used.
pub is_free_nframes_iff :
    (m : Words) (nframes fm fr : ℕ)
    → nframes ≤ 32
    → fr < 32
    → fm + 2 < 2 ^ 27
    → (is_free_nframes m nframes fm fr ≡ true)
      ↔ ((n : ℕ) → within (32 * fm + fr) nframes n ≡ true → used m n ≡ false)
unfolding is_free_nframes
is_free_nframes_iff m nframes fm fr small fits room = (
  λ free n mem.
      is_free_loop-used fits room nframes 0 (start fm fr) m n (At-start fm fr fits) (omega arith)
        free (ground arith),
  λ all.
      is_free_loop_complete fits room nframes 0 (start fm fr) m (At-start fm fr fits) (omega arith)
        (λ n mem. all n (ground arith)),
)

pub alloc_loop-addrs :
    (rounds i : ℕ) (c : Cursor) (addr flags : ℕ) (m out : Words) (k : ℕ)
    → (alloc_loop rounds i c addr flags m out).1 k
      ≡ (if within i rounds k then bit_or (u32 (addr + k * page_size)) flags else out k)
unfolding alloc_loop write
alloc_loop-addrs zero i c addr flags m out k = ground arith
alloc_loop-addrs (suc n) i c addr flags m out k =
    let c' = advance i c in
    let s = set_frame_used m c'.frame_map (place i c') in
    alloc_loop-addrs n (i + 1) c' addr flags s.0
      (write out i (bit_or (u32 (addr + i * page_size)) flags)) k
    ∙ ground arith

get_frame_meta-room :
    (addr : ℕ)
    → addr < 2 ^ 32
    → ((get_frame_meta addr).frame < 32)
      × ((get_frame_meta addr).frame_map + 2 < 2 ^ 27)
      × (32 * (get_frame_meta addr).frame_map + (get_frame_meta addr).frame ≡ addr / page_size)
unfolding get_frame_meta
get_frame_meta-room addr h = omega arith

-- `alloc_nframes` of at most 32 frames from a given address: it marks exactly the frames from that
-- of the address on, writes their addresses with the flags, writes no other entry, and returns 0.
pub alloc_nframes_lem :
    (m out : Words) (nframes addr flags n k : ℕ)
    → nframes ≤ 32
    → addr < 2 ^ 32
    → let (m', out', ret) = alloc_nframes m nframes addr out flags in
      (used m' n ≡ (if within (addr / page_size) nframes n then true else used m n))
      × (out' k
          ≡ (if ltb k nframes then bit_or (u32 (addr + k * page_size)) (u16 flags) else out k))
      × (ret ≡ 0)
unfolding alloc_nframes
alloc_nframes_lem m out nframes addr flags n k small lt =
    let (fits, room, e) = get_frame_meta-room addr lt in
    let a = get_frame_meta addr in
    (
      alloc_loop-used fits room nframes 0 (start a.frame_map a.frame) addr (u16 flags) m out n
            (At-start a.frame_map a.frame fits) (omega arith)
          ∙ ground arith,
      alloc_loop-addrs nframes 0 (start a.frame_map a.frame) addr (u16 flags) m out k
          ∙ ground arith,
      refl,
    )
