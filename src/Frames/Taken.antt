-- ===== src/Frames/Taken.antt =====
-- What the frames that a search takes look like, before and after.
use Prim.Native.Nat.{bit_and, bit_or}
use mathlib.Core.Bool.{false≢true}
use xanadu_os.Base.{
  ℕ, zero, suc, ◌+◌, ◌-◌, ◌*◌, ◌^◌, ◌≤◌, ◌<◌, ◌≡◌, ◌⊎◌, inl, inr, ◌∙◌, refl, true, false, some,
  arith, ltb, ◌==◌, ==_iff, if◌then◌else◌, Bool-cases, sym,
}
use xanadu_os.Base.Words.{u32}
use xanadu_os.Base.Memory.{Words, write}
use xanadu_os.Frames.{
  is_frame_free, Found, take_frames, find_frame_in_map, set_nalloc_addrs, frame_map_to_addr, scan,
  get_frame_submap_mask,
}
use xanadu_os.Frames.Walk.{used}
use xanadu_os.Frames.Marks.{within, set_nframes_used-marks}
use xanadu_os.Frames.Search.{
  first_slot, buddy_of-bounds, IsSlot, find_frame_in_map_lem, full_byte, buddy_of,
}

set_nalloc_addrs-addrs :
    (rounds i : ℕ) (addrs : Words) (off fm frame flags k : ℕ)
    → set_nalloc_addrs rounds i addrs off fm frame flags k ≡ (
        if within (off + i) rounds k
        then bit_or (frame_map_to_addr fm (frame + (k - off))) flags
        else addrs k)
unfolding set_nalloc_addrs write
set_nalloc_addrs-addrs zero i addrs off fm frame flags k = ground arith
set_nalloc_addrs-addrs (suc n) i addrs off fm frame flags k =
    set_nalloc_addrs-addrs n (i + 1)
      (write addrs (off + i) (bit_or (frame_map_to_addr fm (frame + i)) flags)) off fm frame flags k
    ∙ ground (arith)

-- The effect of a successful search that found place `j`.
pub record Takes (m : Words) (fm j : ℕ) (addrs : Words) (off nframes mapped flags : ℕ) (f : Found)
    : Type 0 where
  pub marked :
      (n : ℕ) → used f.frames n ≡ (if within (32 * fm + j) nframes n then true else used m n)
  pub handed :
      (k : ℕ)
      → f.addrs k ≡ (
          if within off nframes k
          then bit_or (frame_map_to_addr fm (j + (k - off))) flags
          else addrs k)
  pub counted : f.mapped ≡ u32 (mapped + nframes)
  pub succeeded : f.ret ≡ 0

take_frames-Takes :
    (m : Words) (fm j : ℕ) (addrs : Words) (off nframes mapped flags : ℕ)
    → nframes ≤ 8
    → j < 32
    → fm + 2 < 2 ^ 27
    → Takes m fm j addrs off nframes mapped flags
        (take_frames m fm j addrs off nframes mapped flags)
unfolding take_frames
take_frames-Takes m fm j addrs off nframes mapped flags h lt room = record {
  marked = λ n. set_nframes_used-marks m nframes fm j n (omega arith) lt room;
  handed = λ k. set_nalloc_addrs-addrs nframes 0 addrs off fm j flags k ∙ ground arith;
  counted = refl;
  succeeded = refl;
}

-- `find_frame_in_map` for 1 to 8 frames ends in one of two ways. It succeeds at a place of the
-- request's byte whose first frame was free: the frames of the place are marked and no other, their
-- addresses are written behind offset `off` and no other entry, and the count grows by their number.
-- Or it returns 1 and changes nothing, and the first frame of every place of the byte is used.
pub find_frame_in_map-Takes :
    (m : Words) (fm : ℕ) (addrs : Words) (off nframes mapped flags : ℕ)
    → 0 < nframes
    → nframes ≤ 8
    → fm + 2 < 2 ^ 27
    → ((j : ℕ) × (f : Found) × IsSlot nframes j
        × (is_frame_free m fm j ≡ true)
        × (find_frame_in_map m fm addrs off nframes mapped flags ≡ some f)
        × Takes m fm j addrs off nframes mapped flags f)
      ⊎ ((find_frame_in_map m fm addrs off nframes mapped flags
            ≡ some (record { frames = m; addrs = addrs; mapped = mapped; ret = 1 }))
          × ((j : ℕ) → IsSlot nframes j → is_frame_free m fm j ≡ false))
find_frame_in_map-Takes m fm addrs off nframes mapped flags pos h room =
    elim (find_frame_in_map_lem m fm addrs off nframes mapped flags pos h) [
      | inl (j, at, free, e) ↦ inl (
        j,
        take_frames m fm j addrs off nframes mapped flags,
        at,
        free,
        e,
        take_frames-Takes m fm j addrs off nframes mapped flags h
            (omega (arith, at.below, buddy_of-bounds nframes h)) room,
      )
      | inr full ↦ inr full
    ]

-- A search whose first place has a free first frame takes that place.
find_frame_in_map-first :
    (m : Words) (fm : ℕ) (addrs : Words) (off nframes mapped flags : ℕ)
    → nframes ≤ 8
    → is_frame_free m fm (first_slot nframes) ≡ true
    → find_frame_in_map m fm addrs off nframes mapped flags
      ≡ some (take_frames m fm (first_slot nframes) addrs off nframes mapped flags)
unfolding find_frame_in_map scan
find_frame_in_map-first m fm addrs off nframes mapped flags h free =
    let mask = (get_frame_submap_mask nframes).0 in
    let lo = first_slot nframes in
    let more : ltb lo (8 * (buddy_of nframes + 1)) ≡ true = ground arith in
    elim (Bool-cases (bit_and (m fm) mask == mask)) [
      | inl full ↦ absurd (
          false≢true (
            sym (full_byte m fm nframes lo h ((==_iff _ mask).0 full) (omega arith) (omega arith))
            ∙ free))
      | inr some_free ↦ rw (some_free, more, free)
    ]

-- The search looks at the first frame of a place only: if that is free and another frame of the
-- place is used, the search succeeds and hands out the used frame a second time.
pub find_frame_in_map-double :
    (m : Words) (fm : ℕ) (addrs : Words) (off nframes mapped flags k : ℕ)
    → nframes ≤ 8
    → k < nframes
    → is_frame_free m fm (first_slot nframes) ≡ true
    → is_frame_free m fm (first_slot nframes + k) ≡ false
    → (f : Found) × (find_frame_in_map m fm addrs off nframes mapped flags ≡ some f)
      × (f.ret ≡ 0)
      × (f.addrs (off + k) ≡ bit_or (frame_map_to_addr fm (first_slot nframes + k)) flags)
unfolding take_frames
find_frame_in_map-double m fm addrs off nframes mapped flags k h lt free taken =
    let lo = first_slot nframes in
    (
      take_frames m fm lo addrs off nframes mapped flags,
      find_frame_in_map-first m fm addrs off nframes mapped flags h free,
      refl,
      set_nalloc_addrs-addrs nframes 0 addrs off fm lo flags (off + k) ∙ ground arith,
    )
