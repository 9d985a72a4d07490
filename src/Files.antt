-- ===== src/Files.antt =====
-- fs/fs.c, the calls on a file by the functions of its node. A function of a node is an optional
-- function, `none` for NULL, on a state `S`; a pointer to a node or to a directory is a number, 0 for
-- NULL, and `nodes` and `dirs` are what stands there.
use xanadu_os.Base.{ℕ, ◌==◌, if◌then◌else◌, Option, none, some}
use xanadu_os.Base.Errors.{einval}

-- The functions of `struct fs_node`.
pub record FsNode {ℓ} (S : Type ℓ) : Type ℓ where
  pub read : Option ((node offset len buf : ℕ) → S → S × ℕ)
  pub write : Option ((node offset len buf : ℕ) → S → S × ℕ)
  pub «open» : Option ((node : ℕ) → S → S)
  pub close : Option ((node : ℕ) → S → S)
  pub readdir : Option ((dir : ℕ) → S → S × ℕ)
  pub get_node : Option ((node name : ℕ) → S → S × ℕ)
  pub opendir : Option ((node : ℕ) → S → S × ℕ)
  pub closedir : Option ((dir : ℕ) → S → S)
  pub mmap : Option ((node addrs npages flags : ℕ) → S → S × ℕ)
  pub munmap : Option ((node addr : ℕ) → S → S)

abbrev pub or_else {ℓ κ} : {F : Type ℓ} {A : Type κ} → Option F → A → (F → A) → A
or_else none a k = a
or_else (some f) a k = k f

-- What a call of NULL gives is left open: `none`.
abbrev pub call {ℓ κ} : {F : Type ℓ} {A : Type κ} → Option F → (F → A) → Option A
call none k = none
call (some f) k = some (k f)

module _ {ℓ} {S : Type ℓ} (nodes : ℕ → FsNode S) (dir_node : ℕ → ℕ) where
  -- The function of a node, when neither is NULL.
  abbrev pub of_node {κ} : {F : Type κ} → (node : ℕ) → (FsNode S → Option F) → Option F
  of_node node field = if node == 0 then none else field (nodes node)

  pub read_fs : (node offset len buf : ℕ) → S → S × ℕ
  read_fs node offset len buf s =
      or_else (of_node node (λ n. n.read)) (s, einval) (λ f. f node offset len buf s)

  pub write_fs : (node offset len buf : ℕ) → S → S × ℕ
  write_fs node offset len buf s =
      or_else (of_node node (λ n. n.write)) (s, einval) (λ f. f node offset len buf s)

  pub opendir_fs : (node : ℕ) → S → S × ℕ
  opendir_fs node s = or_else (of_node node (λ n. n.opendir)) (s, 0) (λ f. f node s)

  -- The node of the directory is not tested.
  pub closedir_fs : (dir : ℕ) → S → S
  closedir_fs dir s =
      if dir == 0 then s else or_else (nodes (dir_node dir)).closedir s (λ f. f dir s)

  pub readdir_fs : (dir : ℕ) → S → S × ℕ
  readdir_fs dir s =
      if dir == 0
      then (s, 0)
      else or_else (of_node (dir_node dir) (λ n. n.readdir)) (s, 0) (λ f. f dir s)

  pub open_fs : (node : ℕ) → S → S
  open_fs node s = or_else (of_node node (λ n. n.«open»)) s (λ f. f node s)

  -- The test is that of `readdir`.
  pub close_fs : (node : ℕ) → S → Option S
  close_fs node s =
      or_else (of_node node (λ n. n.readdir)) (some s)
        (λ f. call (nodes node).close (λ g. g node s))

  -- Neither the root nor its function is tested.
  pub root_get_node_fs : (fs_root name : ℕ) → S → Option (S × ℕ)
  root_get_node_fs fs_root name s =
      if name == 0 then some (s, 0) else call (nodes fs_root).get_node (λ f. f fs_root name s)

  pub mmap_fs : (node addrs npages flags : ℕ) → S → S × ℕ
  mmap_fs node addrs npages flags s =
      or_else (of_node node (λ n. n.mmap)) (s, 0) (λ f. f node addrs npages flags s)

  pub munmap_fs : (node addr : ℕ) → S → S
  munmap_fs node addr s = or_else (of_node node (λ n. n.munmap)) s (λ f. f node addr s)
