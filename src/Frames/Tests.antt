-- ===== src/Frames/Tests.antt =====
-- The frame allocator at concrete bitmaps.
use Prim.Native.Nat.{bit_or}
use xanadu_os.Base.{
  ℕ, ◌+◌, ◌-◌, ◌*◌, ◌/◌, ◌%◌, ◌≤◌, ◌<◌, ◌≡◌, ◌↔◌, ◌⊎◌, refl, true, false, Option, some, none, arith,
  ltb, ◌==◌, if◌then◌else◌,
}
use xanadu_os.Base.Words.{u16, u32, test_bit-bit, test_bit, set_bit, clear_bit}
use xanadu_os.Base.Bits.{bit_of_zero}
use xanadu_os.Base.Memory.{Words, write}
use xanadu_os.Frames.{
  FrameState, Found, is_frame_free, is_free_nframes, set_frame_used, advance, frame_map_to_addr,
  get_frame_meta, alloc_nframes, find_frame_in_map, find_alloc_frame, find_alloc_nframes,
  dealloc_nframes, dealloc_frame, frame_alloc_init, clear_bytes, get_frame_submap_mask,
}
use xanadu_os.Frames.Walk.{used}
use xanadu_os.Frames.Marks.{within, alloc_nframes_lem, is_free_nframes_iff}
use xanadu_os.Frames.Meta.{
  frame_map_to_addr-get_frame_meta, dealloc_nframes-frees, dealloc_nframes-alloc_nframes,
}
use xanadu_os.Frames.Long.{alloc_nframes_long}
use xanadu_os.Frames.Search.{IsSlot, first_slot}
use xanadu_os.Frames.Taken.{Takes, find_frame_in_map-Takes, find_frame_in_map-double}
use xanadu_os.Frames.Single.{Picks, failure, find_alloc_frame_lem}
use xanadu_os.Frames.Init.{frame_alloc_init_lem}

abbrev empty : Words
empty = λ _. 0

-- Frames 0 to 7 and 17 of word 0 are used.
abbrev some_used : Words
some_used = λ i. if i == 0 then 0x200FF else 0

abbrev state : FrameState
state = record {
  frames = some_used;
  frames_num = 4;
  last_frame = λ i. record { frame_map = 0; frame = 0 };
}

-- Twenty frames from frame 20 on, over the end of the first word.
alloc_nframes_lem_example :
    let (m', out', ret) = alloc_nframes some_used 20 0x14000 empty 3 in
    (used m' 35 ≡ (if within (0x14000 / 4096) 20 35 then true else used some_used 35))
    × (out' 15 ≡ (if ltb 15 20 then bit_or (u32 (0x14000 + 15 * 4096)) (u16 3) else empty 15))
    × (ret ≡ 0)
alloc_nframes_lem_example =
    alloc_nframes_lem some_used empty 20 0x14000 3 35 15 (omega arith) (omega arith)

is_free_nframes_iff_example :
    (is_free_nframes some_used 9 0 25 ≡ true)
    ↔ ((n : ℕ) → within (32 * 0 + 25) 9 n ≡ true → used some_used n ≡ false)
is_free_nframes_iff_example =
    is_free_nframes_iff some_used 9 0 25 (omega arith) (omega arith) (omega arith)

frame_map_to_addr-get_frame_meta_example :
    frame_map_to_addr (get_frame_meta 0x12345).frame_map (get_frame_meta 0x12345).frame
    ≡ 0x12345 - 0x12345 % 4096
frame_map_to_addr-get_frame_meta_example = frame_map_to_addr-get_frame_meta 0x12345 (omega arith)

dealloc_nframes-frees_example :
    used (dealloc_nframes some_used 0x2003 4) 5
    ≡ (if within (0x2003 / 4096) 4 5 then false else used some_used 5)
dealloc_nframes-frees_example = dealloc_nframes-frees some_used 0x2003 4 5 (omega arith)

zero_is_free : (j : ℕ) → test_bit 0 j ≡ false
zero_is_free j = rw (test_bit-bit 0 j, bit_of_zero j) refl

dealloc_nframes-alloc_nframes_example :
    used (dealloc_nframes (alloc_nframes empty 8 0x1E000 empty 3).0 0x1E000 8) 33 ≡ used empty 33
dealloc_nframes-alloc_nframes_example =
    dealloc_nframes-alloc_nframes empty empty 8 0x1E000 3 33 (omega arith) (omega arith)
      (omega arith) (λ k h. zero_is_free (k % 32))

alloc_nframes_long_example :
    let (m', out', ret) = alloc_nframes empty 40 0x20000 empty 3 in
    (used m' (0x20000 / 4096 + 33) ≡ used empty (0x20000 / 4096 + 33))
    × (out' 33 ≡ bit_or (0x20000 + 33 * 4096) (u16 3))
alloc_nframes_long_example =
    alloc_nframes_long empty empty 40 0x20000 3 33 (omega arith) (omega arith) (omega arith)
      (omega arith) (omega arith)

find_frame_in_map-Takes_example :
    ((j : ℕ) × (f : Found) × IsSlot 3 j
      × (is_frame_free some_used 0 j ≡ true)
      × (find_frame_in_map some_used 0 empty 0 3 0 3 ≡ some f)
      × Takes some_used 0 j empty 0 3 0 3 f)
    ⊎ ((find_frame_in_map some_used 0 empty 0 3 0 3
          ≡ some (record { frames = some_used; addrs = empty; mapped = 0; ret = 1 }))
        × ((j : ℕ) → IsSlot 3 j → is_frame_free some_used 0 j ≡ false))
find_frame_in_map-Takes_example =
    find_frame_in_map-Takes some_used 0 empty 0 3 0 3 (omega arith) (omega arith) (omega arith)

-- Frame 16 is free and 17 used: a request for 3 frames gets both.
find_frame_in_map-double_example :
    (f : Found) × (find_frame_in_map some_used 0 empty 0 3 0 3 ≡ some f)
    × (f.ret ≡ 0)
    × (f.addrs (0 + 1) ≡ bit_or (frame_map_to_addr 0 (first_slot 3 + 1)) 3)
unfolding is_frame_free test_bit get_frame_submap_mask
find_frame_in_map-double_example =
    find_frame_in_map-double some_used 0 empty 0 3 0 3 1 (omega arith) (omega arith) refl refl

find_alloc_frame_lem_example :
    Picks some_used 0 4 empty 3 (find_alloc_frame state empty 3)
    ⊎ ((find_alloc_frame state empty 3 ≡ failure some_used empty)
        × ((w j : ℕ) → w < 4 → j < 8 → is_frame_free some_used w j ≡ false))
find_alloc_frame_lem_example = find_alloc_frame_lem state empty 3 (omega arith) (omega arith)

abbrev dirty : Words
dirty = λ i. 0xFFFF_FFFF

abbrev booted : FrameState
booted = record {
  frames = clear_bytes 8 dirty;
  frames_num = 256;
  last_frame = λ i. record { frame_map = 0; frame = 8 * i };
}

-- With 32 MiB the bitmap has 256 words, of which 2 are cleared.
frame_alloc_init_lem_example :
    (256 ≡ 0x2000000 / 131072)
    × ((i : ℕ) → 4 * i + 4 ≤ 256 / 32 → booted.frames i ≡ 0)
    × ((i : ℕ) → 256 / 32 ≤ 4 * i → booted.frames i ≡ dirty i)
    × (0 < 256 → booted.frames (256 - 1) ≡ dirty (256 - 1))
unfolding frame_alloc_init
frame_alloc_init_lem_example = frame_alloc_init_lem dirty 0x2000000 {s = booted} refl

-- Two blocks of three frames, the first released, then one of four: frame 19, which the second
-- block holds, is handed out again.
double_run : Option ℕ
unfolding find_alloc_nframes dealloc_nframes dealloc_frame get_frame_submap_mask is_frame_free
    set_frame_used advance write frame_map_to_addr test_bit set_bit clear_bit get_frame_meta
double_run =
    let s = λ (m : Words). (let t : FrameState = record state { frames = m } in t) in
    elim (find_alloc_nframes (s empty) 3 empty 3) [
      | none ↦ none
      | some a ↦ elim (find_alloc_nframes (s a.frames) 3 empty 3) [
        | none ↦ none
        | some b ↦ elim (find_alloc_nframes (s (dealloc_nframes b.frames 0x10000 3)) 4 empty 3) [
          | none ↦ none
          | some c ↦ if b.addrs 0 == c.addrs 3 then some (c.addrs 3) else none
        ]
      ]
    ]

double_run_hands_out_twice : double_run ≡ some 0x13003
unfolding double_run
double_run_hands_out_twice = refl
