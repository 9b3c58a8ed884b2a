-- ===== src/CheckAddr.antt =====
-- The system call check_addr of hw2/mm536.c. The memory map is read under its lock, so it is one
-- value; the kernel's structures hold the fields that are read.
pub mod Laws
pub mod Reports
mod Tests
use Prim.Native.Nat.{bit_and}
use advanced_unix_ceng.Base.{
  ℕ, ◌-◌, ◌*◌, ◌%◌, ◌^◌, List, [], Option, none, some, Bool, ◌&&◌, if◌then◌else◌, ◌==◌, ltb, take,
}

-- `i_ino`, `i_rdev` and `f_path` of a file and its inode; a path is a number for its object.
pub record File : Type 0 where
  pub i_ino : ℕ
  pub i_rdev : ℕ
  pub f_path : ℕ

pub record VmArea : Type 0 where
  pub vm_start : ℕ
  pub vm_end : ℕ
  pub vm_flags : ℕ
  pub vm_file : Option File
  pub vm_pgoff : ℕ

-- `vmas` are the areas of the memory map, in the order of their addresses; the last two fields are
-- the sums of the counters of resident pages.
pub record Mm : Type 0 where
  pub vmas : List VmArea
  pub start_stack : ℕ
  pub start_brk : ℕ
  pub brk : ℕ
  pub total_vm : ℕ
  pub data_vm : ℕ
  pub exec_vm : ℕ
  pub stack_vm : ℕ
  pub map_count : ℕ
  pub anonpages : ℕ
  pub filepages : ℕ

-- What the call uses of the kernel. `d_path` is given the size of its buffer, and `none` is an
-- error pointer.
pub record Kernel : Type 0 where
  pub find_vma : Mm → ℕ → Option VmArea
  pub major : ℕ → ℕ
  pub minor : ℕ → ℕ
  pub d_path : ℕ → ℕ → Option (List ℕ)
  pub vm_read : ℕ
  pub vm_write : ℕ
  pub vm_exec : ℕ
  pub vm_shared : ℕ
  pub page_shift : ℕ

pub record Flags : Type 0 where
  pub readable : ℕ
  pub writeable : ℕ
  pub executable : ℕ
  pub shared : ℕ
  pub filemapped : ℕ
  pub heap : ℕ
  pub stack : ℕ

pub record FileInfo : Type 0 where
  pub inode : ℕ
  pub major : ℕ
  pub minor : ℕ
  pub path : List ℕ
  pub offset : ℕ

pub record MmInfo : Type 0 where
  pub vmpages : ℕ
  pub vmdata : ℕ
  pub vmexec : ℕ
  pub vmstack : ℕ
  pub vmresanon : ℕ
  pub vmresfile : ℕ
  pub vmref : ℕ

-- struct vma_info
pub record VmaInfo : Type 0 where
  pub start : ℕ
  pub end : ℕ
  pub flags : Flags
  pub file : FileInfo
  pub mm : MmInfo

pub data Answer : Type 0 where
  info : VmaInfo → Answer
  einval efault : Answer

abbrev pub bit : Bool → ℕ
bit test = if test then 1 else 0

-- `(vma->vm_flags & flag) ? 1 : 0`
unfoldable pub flag_bit : ℕ → ℕ → ℕ
flag_bit flags flag = if bit_and flags flag == 0 then 0 else 1

abbrev pub file_bit : Option File → ℕ
file_bit none = 0
file_bit (some file) = 1

module _ (k : Kernel) where
  unfoldable pub flags_info : Mm → VmArea → Flags
  flags_info mm vma = record {
    readable = flag_bit vma.vm_flags k.vm_read;
    writeable = flag_bit vma.vm_flags k.vm_write;
    executable = flag_bit vma.vm_flags k.vm_exec;
    shared = flag_bit vma.vm_flags k.vm_shared;
    filemapped = file_bit vma.vm_file;
    heap = bit (vma.vm_start == mm.start_brk && vma.vm_end == mm.brk);
    stack = bit (vma.vm_start == mm.start_stack);
  }

  -- The path as a C string: `page` tells whether __get_free_page gives a page for the buffer.
  unfoldable pub resolved_path : Bool → ℕ → List ℕ
  resolved_path page path =
      if page
      then elim (k.d_path path (2 ^ k.page_shift)) [ none ↦ [] | some text ↦ take 255 text ]
      else []

  unfoldable pub file_info : Bool → VmArea → FileInfo
  file_info page vma = elim vma.vm_file [
    | none ↦ record { inode = 0; major = 0; minor = 0; path = []; offset = 0 }
    | some file ↦ record {
      inode = file.i_ino;
      major = k.major file.i_rdev;
      minor = k.minor file.i_rdev;
      path = resolved_path page file.f_path;
      offset = vma.vm_pgoff * 2 ^ k.page_shift % 2 ^ 64;
    }
  ]

  unfoldable pub mm_info : Mm → MmInfo
  mm_info mm = record {
    vmpages = mm.total_vm;
    vmdata = mm.data_vm;
    vmexec = mm.exec_vm;
    vmstack = mm.stack_vm;
    vmresanon = mm.anonpages;
    vmresfile = mm.filepages;
    vmref = mm.map_count;
  }

  unfoldable pub vma_info : Mm → Bool → VmArea → VmaInfo
  vma_info mm page vma = record {
    start = vma.vm_start;
    end = vma.vm_end;
    flags = flags_info mm vma;
    file = file_info page vma;
    mm = mm_info mm;
  }

  -- `copied` tells whether copy_to_user can write the whole of the structure.
  unfoldable pub check_addr : Mm → ℕ → Bool → Bool → Answer
  check_addr mm addr page copied = elim (k.find_vma mm addr) [
    | none ↦ einval
    | some vma ↦
        if ltb addr vma.vm_start
        then einval
        else if copied
        then info (vma_info mm page vma)
        else efault
  ]
