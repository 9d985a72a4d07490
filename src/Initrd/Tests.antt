-- ===== src/Initrd/Tests.antt =====
-- The ramdisk with a small archive.
use xanadu_os.Base.{
  ℕ, ◌+◌, ◌-◌, ◌*◌, ◌%◌, ◌<◌, ◌≡◌, refl, not, ◌&&◌, Option, some, none, arith, leb, ◌==◌,
  if◌then◌else◌,
}
use xanadu_os.Base.Words.{u32}
use xanadu_os.Base.Memory.{Words}
use xanadu_os.Slibc.{atoi, strnlen}
use xanadu_os.Initrd.{
  InitrdNode, TarState, Initrd, entry_num, tar_parse, parse_file_dir_name, parse_file_basename,
  initrd_readdir, initrd_opendir, next_header, add_entry, set_sub_ent_num, get_file_depth,
  tar_file_size,
}
use xanadu_os.Initrd.Paths.{IsPart, IsBase, parse_file_dir_name-IsPart, parse_file_basename_lem}
use xanadu_os.Initrd.Ends.{Headers, tar_parse_lem}

-- "u/b/"
abbrev path : Words
path = λ i.
    if i == 0 then 117 else if i == 1 then 47 else if i == 2 then 98 else if i == 3 then 47 else 0

parse_file_dir_name-IsPart_example : IsPart path 0 4 (parse_file_dir_name path 4)
parse_file_dir_name-IsPart_example = parse_file_dir_name-IsPart path 4

parse_file_basename_lem_example :
    let (offset, len') = parse_file_basename path 4 in
    IsBase path (4 - 1) offset
    × (len' ≡ (if not (offset == 4 - 1) && (path (4 - 1) == 47) then 4 - 1 else 4))
parse_file_basename_lem_example = parse_file_basename_lem path 4 (omega arith) (omega arith)

-- The archive at 4096: a header of attributes and the header of the empty file "a".
abbrev archive : Words
archive = λ i. if i == 4096 then 112 else if i == 4608 then 97 else 0

abbrev blank_node : InitrdNode
blank_node = record {
  header = 0;
  content = 0;
  size = 0;
  sub_ent_num = 0;
  mode = 0;
  uid = 0;
  gid = 0;
  kind = 0;
}

archive-Headers : Headers archive 2 4096
unfolding tar_file_size atoi
archive-Headers = (omega arith, (omega arith, refl))

tar_parse_lem_example :
    (s : TarState) × (tar_parse 9 archive (λ _. blank_node) 0x100 4096 ≡ some s)
    × (entry_num s ≡ s.count)
    × ((k : ℕ) → 0 < k → k < s.count → (s.nodes k).content ≡ u32 ((s.nodes k).header + 512))
    × (s.next_addr % 512 ≡ 4096 % 512)
tar_parse_lem_example =
    tar_parse_lem 2 9 archive (λ _. blank_node) 0x100 4096 archive-Headers (omega arith)

-- The root and the file "a" are counted.
archive_count : Option ℕ
unfolding tar_parse next_header add_entry set_sub_ent_num get_file_depth tar_file_size atoi strnlen
archive_count = elim (tar_parse 9 archive (λ _. blank_node) 0x100 4096) [
  | none ↦ none
  | some s ↦ some (s.count)
]

archive_has_two_entries : archive_count ≡ some 2
unfolding archive_count
archive_has_two_entries = refl

-- The root, "u/", "u/b/" and "u/b/c", of which only direct entries are counted.
abbrev nested : Initrd
nested = record {
  nodes = λ i. record blank_node { content = 600 * i; sub_ent_num = if leb i 2 then 1 else 0 };
  entry_num = 4;
  rd_fs = λ i. record { name = path; inode = i; kind = 1; size = 10; mode = 0; uid = 0; gid = 0 };
}

-- After "u/" the root's next entry is "u/b/c".
second_entry : Option ℕ
unfolding initrd_readdir initrd_opendir
second_entry = (initrd_readdir nested (initrd_readdir nested (initrd_opendir 0)).1).0

second_entry_is_nested : second_entry ≡ some 3
unfolding second_entry
second_entry_is_nested = refl
