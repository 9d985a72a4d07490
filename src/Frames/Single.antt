-- ===== src/Frames/Single.antt =====
-- `find_alloc_frame`, the search for one frame that page faults and page tables use.
use xanadu_os.Base.{
  ℕ, zero, suc, ◌+◌, ◌^◌, ◌≤◌, ◌<◌, ◌≡◌, ◌⊎◌, inl, inr, refl, true, false, Option, some, arith,
  ◌==◌, ==_iff, Bool-cases,
}
use xanadu_os.Base.Bits.{bit-not, bit_of_zero}
use xanadu_os.Base.Words.{u16, test_bit-bit}
use xanadu_os.Base.Memory.{Words}
use xanadu_os.Base.Errors.{enomem}
use xanadu_os.Frames.{
  FrameState, is_frame_free, Found, find_loop, find_alloc_nframes, find_alloc_frame,
  get_frame_submap_mask,
}
use xanadu_os.Frames.Search.{IsSlot}
use xanadu_os.Frames.Taken.{Takes, find_frame_in_map-Takes}

full_word :
    (m : Words) (w j : ℕ) → j < 32 → (m w == 0xFFFF_FFFF) ≡ true → is_frame_free m w j ≡ false
unfolding is_frame_free
full_word m w j h e =
    rw ((==_iff _ _).0 e, test_bit-bit 0xFFFF_FFFF j, bit-not 32 0 j (omega arith) h, bit_of_zero j)

one-IsSlot : (j : ℕ) → j < 8 → IsSlot 1 j
unfolding get_frame_submap_mask
one-IsSlot j h = omega arith

IsSlot-one : (j : ℕ) → IsSlot 1 j → j < 8
unfolding get_frame_submap_mask
IsSlot-one j at = omega (arith, at.below)

-- One of the outcomes of a search for one frame: frame `j` of word `w`.
pub record Picks (m : Words) (lo hi : ℕ) (addrs : Words) (flags : ℕ) (r : Option Found)
    : Type 0 where
  pub w : ℕ
  pub j : ℕ
  pub f : Found
  pub at_least : lo ≤ w
  pub before : w < hi
  pub single : j < 8
  pub free : is_frame_free m w j ≡ true
  pub result : r ≡ some f
  pub takes : Takes m w j addrs 0 1 0 flags f

abbrev pub failure : Words → Words → Option Found
failure m addrs = some (record { frames = m; addrs = addrs; mapped = 0; ret = enomem })

-- The outcome of the words behind one that has no free frame is the outcome from that one on.
onward :
    {r : Option Found} (k i : ℕ) (m addrs : Words) (flags : ℕ)
    → Picks m (i + 1) (i + 1 + k) addrs flags r
      ⊎ ((r ≡ failure m addrs)
          × ((w j : ℕ) → i + 1 ≤ w → w < i + 1 + k → j < 8 → is_frame_free m w j ≡ false))
    → ((j : ℕ) → j < 8 → is_frame_free m i j ≡ false)
    → Picks m i (i + suc k) addrs flags r
      ⊎ ((r ≡ failure m addrs)
          × ((w j : ℕ) → i ≤ w → w < i + suc k → j < 8 → is_frame_free m w j ≡ false))
onward k i m addrs flags (inl p) here = inl (record {
  w = p.w;
  j = p.j;
  f = p.f;
  at_least = omega (arith, p.at_least);
  before = omega (arith, p.before);
  single = p.single;
  free = p.free;
  result = p.result;
  takes = p.takes;
})
onward k i m addrs flags (inr (e, all)) here = inr (
  e,
  λ w j a b h. elim (Bool-cases (i == w)) [
    | inl same ↦ let s : i ≡ w = (==_iff i w).0 same in rw (← s) (here j h)
    | inr other ↦ all w j (ground arith) (omega arith) h
  ],
)

find_loop-one :
    (rounds i : ℕ) (m addrs : Words) (flags : ℕ)
    → i + rounds ≤ 2 ^ 15
    → Picks m i (i + rounds) addrs flags (find_loop rounds i 1 m addrs 0 flags)
      ⊎ ((find_loop rounds i 1 m addrs 0 flags ≡ failure m addrs)
          × ((w j : ℕ) → i ≤ w → w < i + rounds → j < 8 → is_frame_free m w j ≡ false))
unfolding find_loop
find_loop-one zero i m addrs flags room = inr (refl, λ w j a b. absurd (omega arith))
find_loop-one (suc k) i m addrs flags room = elim (Bool-cases (m i == 0xFFFF_FFFF)) [
  | inl full ↦ rw full (
      onward k i m addrs flags (find_loop-one k (i + 1) m addrs flags (omega arith))
        (λ j h. full_word m i j (omega arith) full))
  | inr some_free ↦
      elim (find_frame_in_map-Takes m i addrs 0 1 0 flags (omega arith) (omega arith)
        (omega arith)) [
          | inl (j, f, at, free, e, takes) ↦ inl (record {
            w = i;
            j = j;
            f = f;
            at_least = omega arith;
            before = omega arith;
            single = IsSlot-one j at;
            free = free;
            result = rw (some_free, e) (ground (arith, takes.succeeded, takes.counted));
            takes = takes;
          })
          | inr (e, slots) ↦
              rw (some_free, e)
                (onward k i m addrs flags (find_loop-one k (i + 1) m addrs flags (omega arith))
                  (λ j h. slots j (one-IsSlot j h)))
        ]
]

-- `find_alloc_frame` ends. It succeeds with a frame of the first eight of some word that was free,
-- marks that frame and no other, and writes its address with the flags into the one entry; or it
-- returns ENOMEM and changes nothing, and the first eight frames of every word are used.
pub find_alloc_frame_lem :
    (s : FrameState) (addrs : Words) (flags : ℕ)
    → s.frames_num ≤ 2 ^ 15
    → flags < 2 ^ 16
    → Picks s.frames 0 s.frames_num addrs flags (find_alloc_frame s addrs flags)
      ⊎ ((find_alloc_frame s addrs flags ≡ failure s.frames addrs)
          × ((w j : ℕ) → w < s.frames_num → j < 8 → is_frame_free s.frames w j ≡ false))
unfolding find_alloc_frame find_alloc_nframes
find_alloc_frame_lem s addrs flags room h =
    let e : u16 (u16 flags) ≡ flags = omega arith in
    rw e (elim (find_loop-one s.frames_num 0 s.frames addrs flags (omega arith)) [
      | inl p ↦ inl (record {
        w = p.w;
        j = p.j;
        f = p.f;
        at_least = omega arith;
        before = omega (arith, p.before);
        single = p.single;
        free = p.free;
        result = p.result;
        takes = p.takes;
      })
      | inr (e, all) ↦ inr (e, λ w j b k. all w j (omega arith) (omega arith) k)
    ])
