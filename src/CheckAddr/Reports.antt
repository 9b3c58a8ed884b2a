-- ===== src/CheckAddr/Reports.antt =====
-- What the system call check_addr of hw2/mm536.c says of an area: its permissions, its file and the
-- counters of the memory map.
use advanced_unix_ceng.Base.{
  ℕ, ◌*◌, ◌/◌, ◌%◌, ◌^◌, ◌<◌, ◌≡◌, List, [], Option, none, some, Bool, true, false, length,
}
use advanced_unix_ceng.CheckAddr.{
  File, VmArea, Mm, Kernel, Flags, FileInfo, MmInfo, VmaInfo, Answer, info, einval, efault,
}

-- The kernel's constants: the permissions are the lowest four bits of `vm_flags`, and a page has
-- 4096 bytes.
pub record HasConstants (k : Kernel) : Type 0 where
  pub vm_read_is : k.vm_read ≡ 1
  pub vm_write_is : k.vm_write ≡ 2
  pub vm_exec_is : k.vm_exec ≡ 4
  pub vm_shared_is : k.vm_shared ≡ 8
  pub page_shift_is : k.page_shift ≡ 12

-- Every path that d_path gives into a page has fewer than 256 bytes.
abbrev pub HasShortPaths : Kernel → Type 0
HasShortPaths k =
    (path : ℕ) (text : List ℕ) → k.d_path path (2 ^ k.page_shift) ≡ some text → length text < 256

-- The bits of `vm_flags`, from the lowest one on.
pub record ShowsPermissions (vm_flags : ℕ) (f : Flags) : Type 0 where
  pub reads : f.readable ≡ vm_flags % 2
  pub writes : f.writeable ≡ vm_flags / 2 % 2
  pub executes : f.executable ≡ vm_flags / 4 % 2
  pub shares : f.shared ≡ vm_flags / 8 % 2

-- The path of a file, where there is a page to write it to and d_path has one.
abbrev pub shown_path : Bool → Option (List ℕ) → List ℕ
shown_path false text = []
shown_path true none = []
shown_path true (some text) = text

-- The file of an area; one without has no number, no path and no offset.
abbrev pub ShowsFile : Kernel → Bool → ℕ → Option File → FileInfo → Type 0
ShowsFile k page vm_pgoff none f =
    (f.inode ≡ 0) × (f.major ≡ 0) × (f.minor ≡ 0) × (f.path ≡ []) × (f.offset ≡ 0)
ShowsFile k page vm_pgoff (some file) f =
    (f.inode ≡ file.i_ino)
    × (f.major ≡ k.major file.i_rdev)
    × (f.minor ≡ k.minor file.i_rdev)
    × (f.path ≡ shown_path page (k.d_path file.f_path 4096))
    × (f.offset ≡ vm_pgoff * 4096)

-- The mark of an area that has a file.
abbrev pub ShowsMapped : Option File → ℕ → Type 0
ShowsMapped none mapped = mapped ≡ 0
ShowsMapped (some file) mapped = mapped ≡ 1

pub record ShowsMemory (mm : Mm) (m : MmInfo) : Type 0 where
  pub pages : m.vmpages ≡ mm.total_vm
  pub data_pages : m.vmdata ≡ mm.data_vm
  pub exec_pages : m.vmexec ≡ mm.exec_vm
  pub stack_pages : m.vmstack ≡ mm.stack_vm
  pub areas : m.vmref ≡ mm.map_count
  pub resident : (m.vmresanon ≡ mm.anonpages) × (m.vmresfile ≡ mm.filepages)

-- What an answer says of an area and the memory map.
pub record Shows (k : Kernel) (mm : Mm) (page : Bool) (v : VmArea) (i : VmaInfo) : Type 0 where
  pub range : (i.start ≡ v.vm_start) × (i.end ≡ v.vm_end)
  pub permissions : ShowsPermissions v.vm_flags i.flags
  pub mapped : ShowsMapped v.vm_file i.flags.filemapped
  pub file : ShowsFile k page v.vm_pgoff v.vm_file i.file
  pub memory : ShowsMemory mm i.mm

abbrev pub Reports : Kernel → Mm → Bool → Bool → VmArea → Answer → Type 0
Reports k mm page copied v (info i) = (copied ≡ true) × Shows k mm page v i
Reports k mm page copied v einval = ⊥
Reports k mm page copied v efault = copied ≡ false
