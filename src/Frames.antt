-- ===== src/Frames.antt =====
-- mem/frame_alloc.c, the allocator of physical page frames: one bit for each frame, 32 to a word of
-- the array `frames`. `uintptr_t *` results are arrays too; an argument `&alloc_addrs[k]` is the
-- array with the offset `k`. The fixed names are the file's macros.
pub mod Meta
pub mod Walk
pub mod Marks
pub mod Long
pub mod Search
pub mod Taken
pub mod Single
pub mod Init
mod Tests
use Prim.Native.Nat.{bit_and, bit_or}
use xanadu_os.Base.{
  ℕ, zero, suc, ◌+◌, ◌-◌, ◌*◌, ◌/◌, ◌%◌, ◌^◌, Bool, true, false, not, Option, none, some, ltb, leb,
  ◌==◌, if◌then◌else◌,
}
use xanadu_os.Base.Words.{u16, u32, sub32, not32, test_bit, set_bit, clear_bit}
use xanadu_os.Base.Memory.{Words, write}
use xanadu_os.Base.Errors.{einval, enomem}

abbrev pub page_size : ℕ
page_size = 4096

abbrev pub bit_frame_size : ℕ
bit_frame_size = 32

abbrev pub max_buddy_size : ℕ
max_buddy_size = 8

-- `struct frame_map_addr`: a word of the array and a bit of it.
pub record FrameMapAddr : Type 0 where
  pub frame_map : ℕ
  pub frame : ℕ

-- The globals of the file. `mem_limit` is never used.
pub record FrameState : Type 0 where
  pub frames : Words
  pub frames_num : ℕ
  pub last_frame : ℕ → FrameMapAddr

pub is_frame_free : Words → ℕ → ℕ → Bool
is_frame_free frames frame_map frame = not (test_bit (frames frame_map) frame)

-- The code that the three loops below share: the place of the loop, and its `if`, which moves on to
-- the next word. `overflow` is an `int`, here as the word to which the sum converts it.
pub record Cursor : Type 0 where
  pub frame_map : ℕ
  pub frame : ℕ
  pub overflow : ℕ

abbrev pub start : ℕ → ℕ → Cursor
start frame_map frame = record { frame_map = frame_map; frame = frame; overflow = 0 }

pub advance : ℕ → Cursor → Cursor
advance i c =
    if leb bit_frame_size (u32 (c.frame + i))
    then record { frame_map = u32 (c.frame_map + 1); frame = 0; overflow = sub32 0 i }
    else c

abbrev pub place : ℕ → Cursor → ℕ
place i c = u32 (c.frame + i + c.overflow)

pub is_free_loop : Words → (rounds i : ℕ) → Cursor → Bool
is_free_loop frames zero i c = true
is_free_loop frames (suc n) i c =
    let c' = advance i c in
    let rest = is_free_loop frames n (i + 1) c' in
    if is_frame_free frames c'.frame_map (place i c') then rest else false

pub is_free_nframes : Words → ℕ → ℕ → ℕ → Bool
unfolding is_free_loop
is_free_nframes frames nframes frame_map frame =
    is_free_loop frames nframes 0 (start frame_map frame)

pub set_frame_used : Words → ℕ → ℕ → Words × ℕ
set_frame_used frames frame_map frame =
    if test_bit (frames frame_map) frame
    then (frames, einval)
    else (write frames frame_map (set_bit (frames frame_map) frame), 0)

pub set_nframes_loop : (rounds i : ℕ) → Cursor → Words → ℕ → Words × ℕ
set_nframes_loop zero i c frames ret = (frames, ret)
set_nframes_loop (suc n) i c frames ret =
    let c' = advance i c in
    let (frames', e) = set_frame_used frames c'.frame_map (place i c') in
    set_nframes_loop n (i + 1) c' frames' (bit_or ret e)

pub set_nframes_used : Words → ℕ → ℕ → ℕ → Words × ℕ
unfolding set_nframes_loop
set_nframes_used frames nframes frame_map frame =
    set_nframes_loop nframes 0 (start frame_map frame) frames 0

pub get_frame_meta : ℕ → FrameMapAddr
get_frame_meta addr =
    let frame_map = addr / (page_size * bit_frame_size) in
    record {
      frame_map = frame_map;
      frame = sub32 addr (u32 (frame_map * page_size * bit_frame_size)) / page_size;
    }

pub frame_map_to_addr : ℕ → ℕ → ℕ
frame_map_to_addr fm frame = u32 (fm * page_size * bit_frame_size + frame * page_size)

-- The mask and `*buddy_id`, which is 4 when the loop runs to its end.
pub submap_loop : (rounds buddy_id nframes : ℕ) → ℕ × ℕ
submap_loop zero buddy_id nframes = (0xFF * 2 ^ 24, buddy_id)
submap_loop (suc n) buddy_id nframes =
    let rest = submap_loop n (buddy_id + 1) nframes in
    if leb nframes (2 ^ buddy_id)
    then (u32 (0xFF * 2 ^ (buddy_id * max_buddy_size)), buddy_id)
    else rest

pub get_frame_submap_mask : ℕ → ℕ × ℕ
unfolding submap_loop
get_frame_submap_mask nframes = submap_loop 4 0 nframes

pub alloc_loop : (rounds i : ℕ) → Cursor → (addr flags : ℕ) → Words → Words → Words × Words
alloc_loop zero i c addr flags frames addrs = (frames, addrs)
alloc_loop (suc n) i c addr flags frames addrs =
    let c' = advance i c in
    alloc_loop n (i + 1) c' addr flags (set_frame_used frames c'.frame_map (place i c')).0
      (write addrs i (bit_or (u32 (addr + i * page_size)) flags))

-- With `alloc_addrs` not null. The buddy that it computes is used in a comment only.
pub alloc_nframes : Words → (nframes addr : ℕ) → Words → (flags : ℕ) → Words × Words × ℕ
unfolding get_frame_meta alloc_loop
alloc_nframes frames nframes addr addrs flags =
    let meta = get_frame_meta addr in
    let (frames', addrs') =
      alloc_loop nframes 0 (start meta.frame_map meta.frame) addr (u16 flags) frames addrs in
    (frames', addrs', 0)

pub alloc_frame : Words → (addr : ℕ) → Words → (flags : ℕ) → Words × Words × ℕ
unfolding alloc_nframes
alloc_frame frames addr addrs flags = alloc_nframes frames 1 addr addrs (u16 flags)

pub set_nalloc_addrs : (rounds i : ℕ) → Words → (off fm frame flags : ℕ) → Words
set_nalloc_addrs zero i addrs off fm frame flags = addrs
set_nalloc_addrs (suc n) i addrs off fm frame flags =
    set_nalloc_addrs n (i + 1)
      (write addrs (off + i) (bit_or (frame_map_to_addr fm (frame + i)) flags)) off fm frame flags

-- The loop over `j` of `find_frame_in_map`, up to its first free frame. The outer `none` is fuel
-- run out: with `nframes` 0 the loop of the source does not move.
pub scan : (fuel : ℕ) → Words → (frame_map nframes j end : ℕ) → Option (Option ℕ)
scan zero frames frame_map nframes j end = none
scan (suc fuel) frames frame_map nframes j end =
    let rest = scan fuel frames frame_map nframes (j + nframes) end in
    if ltb j end
    then (if is_frame_free frames frame_map j then some (some j) else rest)
    else some none

-- What a search leaves: the bitmap, the addresses, `*map_frames` and the return value.
pub record Found : Type 0 where
  pub frames : Words
  pub addrs : Words
  pub mapped : ℕ
  pub ret : ℕ

pub take_frames : Words → (frame_map j : ℕ) → Words → (off nframes mapped flags : ℕ) → Found
unfolding set_nframes_used set_nalloc_addrs
take_frames frames frame_map j addrs off nframes mapped flags = record {
  frames = (set_nframes_used frames nframes frame_map j).0;
  addrs = set_nalloc_addrs nframes 0 addrs off frame_map j flags;
  mapped = u32 (mapped + nframes);
  ret = 0;
}

pub find_frame_in_map :
    Words → (frame_map : ℕ) → Words → (off nframes mapped flags : ℕ) → Option Found
unfolding get_frame_submap_mask scan take_frames
find_frame_in_map frames frame_map addrs off nframes mapped flags =
    let (mask, buddy) = get_frame_submap_mask nframes in
    let stay : Found = record { frames = frames; addrs = addrs; mapped = mapped; ret = 1 } in
    if bit_and (frames frame_map) mask == mask
    then some stay
    else elim (scan (max_buddy_size + 1) frames frame_map nframes (max_buddy_size * buddy)
        (max_buddy_size * (buddy + 1))) [
          | none ↦ none
          | some none ↦ some stay
          | some (some j) ↦ some (take_frames frames frame_map j addrs off nframes mapped flags)
        ]

abbrev pub cap_eight : ℕ → ℕ
cap_eight cur_nof = if ltb 8 cur_nof then 8 else cur_nof

pub find_loop : (rounds i nframes : ℕ) → (frames addrs : Words) → (mapped flags : ℕ) → Option Found
find_loop zero i nframes frames addrs mapped flags =
    some (record { frames = frames; addrs = addrs; mapped = mapped; ret = enomem })
find_loop (suc n) i nframes frames addrs mapped flags =
    let skip = find_loop n (i + 1) nframes frames addrs mapped flags in
    if frames i == 0xFFFF_FFFF
    then skip
    else elim (find_frame_in_map frames i addrs mapped (cap_eight (sub32 nframes mapped)) mapped
        flags) [
          | none ↦ none
          | some f ↦
              if not (f.ret == 0)
              then find_loop n (i + 1) nframes f.frames f.addrs f.mapped flags
              else if leb nframes f.mapped
              then some f
              else find_loop n (i + 1) nframes f.frames f.addrs f.mapped flags
        ]

-- With `alloc_addrs` not null (the source returns 0 at once if it is).
pub find_alloc_nframes : FrameState → (nframes : ℕ) → Words → (flags : ℕ) → Option Found
unfolding find_frame_in_map find_loop
find_alloc_nframes s nframes addrs flags =
    find_loop s.frames_num 0 nframes s.frames addrs 0 (u16 flags)

pub find_alloc_frame : FrameState → Words → (flags : ℕ) → Option Found
unfolding find_alloc_nframes
find_alloc_frame s addrs flags = find_alloc_nframes s 1 addrs (u16 flags)

pub dealloc_frame : Words → ℕ → Words
unfolding get_frame_meta
dealloc_frame frames addr =
    let meta = get_frame_meta (bit_and addr (not32 0xfff)) in
    write frames meta.frame_map (clear_bit (frames meta.frame_map) meta.frame)

pub dealloc_loop : (rounds i : ℕ) → Words → ℕ → Words
dealloc_loop zero i frames addr = frames
dealloc_loop (suc n) i frames addr =
    dealloc_loop n (i + 1) (dealloc_frame frames (u32 (addr + page_size * i))) addr

pub dealloc_nframes : Words → (addr nframes : ℕ) → Words
unfolding dealloc_loop
dealloc_nframes frames addr nframes = dealloc_loop nframes 0 frames addr

-- `kmalloc` gives the array with the contents `heap`, or fails. `memset` clears the bytes that were
-- asked for, `frames_num / 32` of them: the words below `n / 4`, and the low bytes of one more.
abbrev pub clear_bytes : ℕ → Words → Words
clear_bytes n heap i =
    if leb (4 * i + 4) n
    then 0
    else if leb n (4 * i)
    then heap i
    else heap i - heap i % 2 ^ (8 * (n % 4))

-- `none` is ENOMEM, and the caller panics. (The source runs its `memset` before it tests the pointer.)
pub frame_alloc_init : Option Words → ℕ → Option FrameState
frame_alloc_init heap pmem_limit =
    let num = pmem_limit / (page_size * bit_frame_size) in
    elim heap [
      | none ↦ none
      | some h ↦ some (record {
        frames = clear_bytes (num / bit_frame_size) h;
        frames_num = num;
        last_frame = λ i. record { frame_map = 0; frame = max_buddy_size * i };
      })
    ]
