-- ===== src/Initrd.antt =====
-- fs/initrd.c, the ramdisk: a tar archive read into nodes, and the files of the system on them.
-- Memory is an array of bytes and a pointer an address in it. The entries are numbered in the order
-- of their allocation, which never fails; the list `rd_list` of the source holds them newest first,
-- so that its head is the entry with the highest number.
pub mod Paths
pub mod Parse
pub mod Ends
pub mod Files
mod Tests
use xanadu_os.Base.{
  ℕ, zero, suc, ◌+◌, ◌-◌, ◌*◌, ◌/◌, ◌%◌, ◌^◌, Bool, true, false, not, ◌&&◌, Option, none, some, ltb,
  leb, ◌==◌, if◌then◌else◌,
}
use xanadu_os.Base.Words.{u32, sub32}
use xanadu_os.Base.Memory.{Words, write, update}
use xanadu_os.Slibc.{atoi, strnlen, strneq, strcpy, memcpy}

abbrev pub header_size : ℕ
header_size = 512

abbrev pub fs_file : ℕ
fs_file = 0

abbrev pub fs_dir : ℕ
fs_dir = 1

-- `struct initrd_node`.
pub record InitrdNode : Type 0 where
  pub header : ℕ
  pub content : ℕ
  pub size : ℕ
  pub sub_ent_num : ℕ
  pub mode : ℕ
  pub uid : ℕ
  pub gid : ℕ
  pub kind : ℕ

-- A field of a tar header, as its bytes.
abbrev pub at : Words → ℕ → Words
at mem address i = mem (address + i)

pub depth_loop : (rounds i : ℕ) → Words → (depth : ℕ) → ℕ
depth_loop zero i fname depth = depth
depth_loop (suc n) i fname depth =
    let rest = depth_loop n (i + 1) fname (if fname i == 47 then depth + 1 else depth) in
    if fname i == 0 then depth else rest

pub get_file_depth : Words → (nlen : ℕ) → ℕ
unfolding depth_loop
get_file_depth fname nlen = depth_loop (sub32 nlen 1) 0 fname 1

-- The number of characters up to the first '/', with it.
pub dir_name_loop : (rounds dlen : ℕ) → Words → ℕ
dir_name_loop zero dlen full_name = dlen
dir_name_loop (suc n) dlen full_name =
    let rest = dir_name_loop n (dlen + 1) full_name in
    if full_name dlen == 47 then dlen + 1 else rest

pub parse_file_dir_name : Words → (full_len : ℕ) → ℕ
unfolding dir_name_loop
parse_file_dir_name full_name full_len = dir_name_loop full_len 0 full_name

-- From `offset` down, to the character behind a '/'.
pub basename_loop : (offset : ℕ) → Words → ℕ
basename_loop zero fname = zero
basename_loop (suc o) fname =
    let rest = basename_loop o fname in if fname o == 47 then suc o else rest

-- The offset of the name in `fname`, and the new `*len`.
pub parse_file_basename : Words → (len : ℕ) → ℕ × ℕ
unfolding basename_loop
parse_file_basename fname len =
    let offset = basename_loop (sub32 len 1) fname in
    (offset, if not (offset == sub32 len 1) && (fname (sub32 len 1) == 47) then len - 1 else len)

-- The state that the parser's pointers refer to.
pub record TarState : Type 0 where
  pub nodes : ℕ → InitrdNode
  pub count : ℕ
  pub next_addr : ℕ
  pub i : ℕ

abbrev pub align_up : (num alignment : ℕ) → ℕ
align_up num alignment = num - num % alignment + (if num % alignment == 0 then 0 else alignment)

pub tar_file_size : Words → (header : ℕ) → ℕ
tar_file_size mem header = atoi (at mem (header + 124)) 12 8

-- The end of the loop's body: on to the next header.
pub next_header : Words → (header : ℕ) → TarState → TarState
unfolding tar_file_size
next_header mem header s = record s {
  next_addr =
      u32 (s.next_addr + align_up (u32 (header_size + tar_file_size mem header)) header_size);
  i = s.i + 1;
}

-- A directory keeps the number of entries that the memory of its node held, until it is set.
pub add_entry : Words → (header fname_len : ℕ) → TarState → TarState
unfolding tar_file_size
add_entry mem header fname_len s =
    let is_dir = mem (header + fname_len - 1) == 47 in
    record s {
      nodes = update s.nodes s.count (record {
        header = header;
        content = u32 (header + header_size);
        size = tar_file_size mem header;
        sub_ent_num = if is_dir then (s.nodes s.count).sub_ent_num else 0;
        mode = atoi (at mem (header + 100)) 8 8;
        uid = atoi (at mem (header + 108)) 8 8;
        gid = atoi (at mem (header + 116)) 8 8;
        kind = if is_dir then fs_dir else fs_file;
      });
      count = s.count + 1;
    }

pub set_sub_ent_num : (parent sub_ent_num : ℕ) → TarState → TarState
set_sub_ent_num parent sub_ent_num s = record s {
  nodes = update s.nodes parent (record (s.nodes parent) { sub_ent_num = sub_ent_num });
}

-- `none` is fuel run out. The parent of a recursive call is the newest entry.
pub tar_parse_rec :
    (fuel : ℕ) → Words → (parent header depth sub_ent_num : ℕ) → TarState → Option TarState
unfolding next_header add_entry set_sub_ent_num get_file_depth
tar_parse_rec zero mem parent header depth sub_ent_num s = none
tar_parse_rec (suc f) mem parent header depth sub_ent_num s =
    let fname_len = strnlen (at mem header) 100 in
    let file_depth = get_file_depth (at mem header) fname_len in
    let deeper = tar_parse_rec f mem (s.count - 1) header file_depth 0 s in
    let s' = next_header mem header s in
    let added = next_header mem header (add_entry mem header fname_len s) in
    let skip = tar_parse_rec f mem parent s'.next_addr depth sub_ent_num s' in
    let entry = tar_parse_rec f mem parent added.next_addr depth (sub_ent_num + 1) added in
    if mem header == 0
    then some (set_sub_ent_num parent sub_ent_num s)
    else if s.i % 2 == 0
    then skip
    else if ltb depth file_depth
    then elim deeper [
      | none ↦ none
      | some t ↦ tar_parse_rec f mem parent t.next_addr depth sub_ent_num t
    ]
    else if ltb file_depth depth
    then some (set_sub_ent_num parent sub_ent_num s)
    else entry

-- `old` is what the memory of the nodes held; `root_header` is the address of the root's own header,
-- whose name "/" is not part of the archive.
pub tar_parse :
    (fuel : ℕ) → Words → (old : ℕ → InitrdNode) → (root_header initrd_addr : ℕ) → Option TarState
unfolding tar_parse_rec
tar_parse fuel mem old root_header initrd_addr = tar_parse_rec fuel mem 0 initrd_addr 1 0 (record {
  nodes = update old 0 (record (old 0) { header = root_header; kind = fs_dir });
  count = 1;
  next_addr = initrd_addr;
  i = 2;
})

-- The number that `tar_parse` returns.
abbrev pub entry_num : TarState → ℕ
entry_num s = s.i / 2

-- `struct fs_node` without its function pointers: a directory has `opendir` and `readdir`, and a
-- file is taken to have none.
pub record FsNode : Type 0 where
  pub name : Words
  pub inode : ℕ
  pub kind : ℕ
  pub size : ℕ
  pub mode : ℕ
  pub uid : ℕ
  pub gid : ℕ

-- One round of `initrd_build_fs`. The name is cut behind its last character.
pub build_node : Words → (i : ℕ) → InitrdNode → FsNode
unfolding parse_file_basename
build_node mem i n =
    let node_name = at mem n.header in
    let (offset, len) = parse_file_basename node_name (strnlen node_name 100) in
    record {
      name = write (at node_name offset) (len - offset) 0;
      inode = i;
      kind = n.kind;
      size = n.size;
      mode = n.mode;
      uid = n.uid;
      gid = n.gid;
    }

-- `struct initrd` and `rd_fs`.
pub record Initrd : Type 0 where
  pub nodes : ℕ → InitrdNode
  pub entry_num : ℕ
  pub rd_fs : ℕ → FsNode

-- The memory behind the copy, and the size of the file.
pub initrd_read : Initrd → Words → (inode offset size buf : ℕ) → Words × ℕ
initrd_read rd mem inode offset size buf =
    if buf == 0
    then (mem, 0)
    else ((memcpy mem buf (u32 ((rd.nodes inode).content + offset)) size).0, (rd.rd_fs inode).size)

-- `struct DIR`: the inode of its node, and the offset.
pub record Dir : Type 0 where
  pub inode : ℕ
  pub offset : ℕ

pub initrd_opendir : (inode : ℕ) → Dir
initrd_opendir inode = record { inode = inode; offset = 1 }

-- The inode of the entry, and the directory moved on.
pub initrd_readdir : Initrd → Dir → Option ℕ × Dir
initrd_readdir rd dir =
    if ltb (sub32 (sub32 rd.entry_num dir.inode) 1) dir.offset
    then (none, dir)
    else let ent_inode = u32 (dir.inode + dir.offset) in
      (
        some ent_inode,
        record dir { offset = u32 (dir.offset + ((rd.nodes ent_inode).sub_ent_num + 1)) },
      )

pub ent_name_eq : FsNode → (name : Words) → (nlen : ℕ) → Bool
ent_name_eq node name nlen =
    let n = if (node.kind == fs_dir) && (name (sub32 nlen 1) == 47) then sub32 nlen 1 else nlen in
    strneq (some (node.name)) (some name) n == 0

-- The loop over a directory. The outer `none` is fuel run out.
pub find_entry : (fuel : ℕ) → Initrd → Dir → (name : Words) → (nlen : ℕ) → Option (Option ℕ)
unfolding initrd_readdir ent_name_eq
find_entry zero rd dir name nlen = none
find_entry (suc f) rd dir name nlen =
    let (ent, dir') = initrd_readdir rd dir in
    let rest = find_entry f rd dir' name nlen in
    elim ent [
      | none ↦ some none
      | some inode ↦ if ent_name_eq (rd.rd_fs inode) name nlen then some (some inode) else rest
    ]

-- The loop over the parts of a name; `cur_root` is `none` for NULL.
pub node_loop :
    (fuel dir_fuel : ℕ)
    → Initrd
    → (cur_root : Option ℕ) → (cur_name : Words) → (fname_len : ℕ) → Option (Option ℕ)
unfolding find_entry initrd_opendir parse_file_dir_name
node_loop zero dir_fuel rd cur_root cur_name fname_len = none
node_loop (suc f) dir_fuel rd cur_root cur_name fname_len =
    let len = parse_file_dir_name cur_name fname_len in
    if len == 0 then some cur_root else elim cur_root [
      | none ↦ some none
      | some root ↦
          let found =
            if (rd.rd_fs root).kind == fs_dir
            then find_entry dir_fuel rd (initrd_opendir root) cur_name len
            else some none in
          elim found [
            | none ↦ none
            | some next ↦ node_loop f dir_fuel rd next (at cur_name len) (fname_len - len)
          ]
    ]

pub initrd_get_node : (fuel dir_fuel : ℕ) → Initrd → (root : ℕ) → (name : Words) → Option (Option ℕ)
unfolding node_loop
initrd_get_node fuel dir_fuel rd root name =
    if name 0 == 47
    then node_loop fuel dir_fuel rd (some root) (at name 1) (strnlen (at name 1) 256)
    else some none
