-- ===== src/Frames/Meta.antt =====
-- Addresses and places in the bitmap, and the release of frames.
use xanadu_os.Base.{
  ℕ, zero, suc, ◌+◌, ◌-◌, ◌*◌, ◌/◌, ◌%◌, ◌^◌, ◌≤◌, ◌<◌, ◌≡◌, ◌∙◌, true, false, arith, ◌==◌,
  if◌then◌else◌,
}
use xanadu_os.Base.Words.{u32, clear_low, test_bit-clear_bit}
use xanadu_os.Base.Memory.{Words, write}
use xanadu_os.Frames.{
  get_frame_meta, frame_map_to_addr, page_size, dealloc_frame, dealloc_loop, dealloc_nframes,
  alloc_nframes,
}
use xanadu_os.Frames.Walk.{used}
use xanadu_os.Frames.Marks.{within, alloc_nframes_lem}

-- The address of the place of an address is the start of its page.
pub frame_map_to_addr-get_frame_meta :
    (addr : ℕ)
    → addr < 2 ^ 32
    → let a = get_frame_meta addr in frame_map_to_addr a.frame_map a.frame ≡ addr - addr % page_size
unfolding get_frame_meta frame_map_to_addr
frame_map_to_addr-get_frame_meta addr h = omega arith

pub frame_map_to_addr_lem :
    (fm fr : ℕ) → fm < 2 ^ 15 → fr < 32 → frame_map_to_addr fm fr ≡ (32 * fm + fr) * 4096
unfolding frame_map_to_addr
frame_map_to_addr_lem fm fr h k = omega arith

-- The place of the address of a place is that place, for every word that 32-bit addresses reach.
pub get_frame_meta-frame_map_to_addr :
    (fm fr : ℕ)
    → fm < 2 ^ 15
    → fr < 32
    → get_frame_meta (frame_map_to_addr fm fr) ≡ record { frame_map = fm; frame = fr }
unfolding get_frame_meta frame_map_to_addr
get_frame_meta-frame_map_to_addr fm fr h k = ground arith

-- `dealloc_frame` frees the frame of the address, whatever flags its low bits hold, and no other.
pub dealloc_frame-frees :
    (m : Words) (addr n : ℕ)
    → addr < 2 ^ 32
    → used (dealloc_frame m addr) n ≡ (if addr / page_size == n then false else used m n)
unfolding dealloc_frame get_frame_meta write
dealloc_frame-frees m addr n h = rw (clear_low addr h) (
    ground (
      arith,
      test_bit-clear_bit (m (addr / 131072)) (addr / 4096 % 32) (n % 32) (omega arith)
          (omega arith),
    ))

dealloc_loop-frees :
    (rounds i : ℕ) (m : Words) (addr n : ℕ)
    → addr + page_size * (i + rounds) ≤ 2 ^ 32
    → used (dealloc_loop rounds i m addr) n
      ≡ (if within (addr / page_size + i) rounds n then false else used m n)
unfolding dealloc_loop
dealloc_loop-frees zero i m addr n h = ground arith
dealloc_loop-frees (suc k) i m addr n h =
    dealloc_loop-frees k (i + 1) (dealloc_frame m (u32 (addr + page_size * i))) addr n (omega arith)
    ∙ ground (arith, dealloc_frame-frees m (u32 (addr + page_size * i)) n)

-- `dealloc_nframes` frees exactly the frames from that of the address on, for a range that does
-- not pass the end of the address space.
pub dealloc_nframes-frees :
    (m : Words) (addr nframes n : ℕ)
    → addr + page_size * nframes ≤ 2 ^ 32
    → used (dealloc_nframes m addr nframes) n
      ≡ (if within (addr / page_size) nframes n then false else used m n)
unfolding dealloc_nframes
dealloc_nframes-frees m addr nframes n h =
    dealloc_loop-frees nframes 0 m addr n (omega arith) ∙ ground arith

-- Allocating at most 32 free frames at an address and releasing them restores the bitmap.
pub dealloc_nframes-alloc_nframes :
    (m out : Words) (nframes addr flags n : ℕ)
    → nframes ≤ 32
    → addr < 2 ^ 32
    → addr + page_size * nframes ≤ 2 ^ 32
    → ((k : ℕ) → within (addr / page_size) nframes k ≡ true → used m k ≡ false)
    → used (dealloc_nframes (alloc_nframes m nframes addr out flags).0 addr nframes) n ≡ used m n
dealloc_nframes-alloc_nframes m out nframes addr flags n small lt fits free =
    let m' = (alloc_nframes m nframes addr out flags).0 in
    dealloc_nframes-frees m' addr nframes n fits
    ∙ ground (arith, (alloc_nframes_lem m out nframes addr flags n 0 small lt).0, free n)
