-- ===== src/Initrd/Files.antt =====
-- Reading directories and files.
use xanadu_os.Base.{
  ℕ, ◌+◌, ◌-◌, ◌^◌, ◌≤◌, ◌<◌, ◌≡◌, ◌≢◌, ◌⊎◌, inl, inr, refl, arith, false, ◌==◌, if◌then◌else◌,
  Bool-cases, some, none, ltb, leb, ◌&&◌,
}
use xanadu_os.Base.Words.{u32, sub32}
use xanadu_os.Base.Memory.{Words}
use xanadu_os.Slibc.Copy.{memcpy_lem}
use xanadu_os.Initrd.{Initrd, Dir, initrd_readdir, initrd_read}

-- `initrd_readdir` of a directory of the ramdisk gives the entry at its offset, a node of the
-- ramdisk behind the directory, as long as there is one, and moves on by that entry and the number
-- of its own entries; behind the last node it gives none and does not move.
pub initrd_readdir_lem :
    (rd : Initrd) (dir : Dir)
    → dir.inode < rd.entry_num
    → 0 < dir.offset
    → rd.entry_num < 2 ^ 31
    → dir.offset < 2 ^ 31
    → ((dir.inode + dir.offset < rd.entry_num)
        × (initrd_readdir rd dir ≡ (
          some (dir.inode + dir.offset),
          record dir {
            offset = u32 (dir.offset + ((rd.nodes (dir.inode + dir.offset)).sub_ent_num + 1));
          },
        )))
      ⊎ ((rd.entry_num ≤ dir.inode + dir.offset) × (initrd_readdir rd dir ≡ (none, dir)))
unfolding initrd_readdir
initrd_readdir_lem rd dir h pos small off =
    let e : u32 (dir.inode + dir.offset) ≡ dir.inode + dir.offset = omega arith in
    elim (Bool-cases (ltb (sub32 (sub32 rd.entry_num dir.inode) 1) dir.offset)) [
      | inl over ↦ rw over (inr (ground arith, refl))
      | inr within ↦ rw (within, e) (inl (ground arith, refl))
    ]

-- `initrd_read` into a buffer that does not overlap the contents copies `size` bytes from the
-- offset on, and changes nothing else. It does not look at the size of the file: bytes behind its
-- end are copied as well, and the result is the size of the file whatever was copied.
pub initrd_read_lem :
    (rd : Initrd) (mem : Words) (inode offset size buf k : ℕ)
    → buf ≢ 0
    → (let from = u32 ((rd.nodes inode).content + offset) in
        (from ≢ 0) × ((buf ≤ from) ⊎ (from + size ≤ buf)))
    → let from = u32 ((rd.nodes inode).content + offset) in
      let (mem', ret) = initrd_read rd mem inode offset size buf in
      (mem' k ≡ (if leb buf k && ltb k (buf + size) then mem (from + (k - buf)) else mem k))
      × (ret ≡ (rd.rd_fs inode).size)
unfolding initrd_read
initrd_read_lem rd mem inode offset size buf k h apart =
    let from = u32 ((rd.nodes inode).content + offset) in
    let some_buf : (buf == 0) ≡ false = ground arith in
    let (copied, _) = memcpy_lem mem buf from size k h apart.0 apart.1 in rw some_buf (copied, refl)
