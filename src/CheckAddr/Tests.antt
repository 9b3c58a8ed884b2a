-- ===== src/CheckAddr/Tests.antt =====
-- check_addr of hw2/mm536.c on a small memory map.
use advanced_unix_ceng.Base.{
  ◌/◌, ◌%◌, ◌^◌, ◌≤◌, ◌<◌, ◌≡◌, refl, inl, inr, [], ◌∷◌, none, some, true, false, arith, length,
}
use advanced_unix_ceng.CheckAddr.{File, VmArea, Mm, Kernel, info, einval, vma_info, check_addr}
use advanced_unix_ceng.CheckAddr.Laws.{
  first_above, FindsFirst, IsLaidOut, HasPages, ShowsPlain, HasNoMark, check_addr-Unmapped,
  check_addr-unmarked, check_addr-bounds,
}
use advanced_unix_ceng.CheckAddr.Reports.{Reports}

-- Areas found by a walk; device numbers as Linux splits them.
abbrev linux : Kernel
linux = record {
  find_vma = λ mm addr. first_above addr mm.vmas;
  major = λ dev. dev / 1048576;
  minor = λ dev. dev % 1048576;
  d_path = λ path room. some (b'/' ∷ b'a' ∷ []);
  vm_read = 1;
  vm_write = 2;
  vm_exec = 4;
  vm_shared = 8;
  page_shift = 12;
}

abbrev program_file : File
program_file = record { i_ino = 77; i_rdev = 0; f_path = 5 }

abbrev program : VmArea
program = record {
  vm_start = 4096;
  vm_end = 8192;
  vm_flags = 5;
  vm_file = some program_file;
  vm_pgoff = 1;
}

abbrev heap_area : VmArea
heap_area = record { vm_start = 12288; vm_end = 20480; vm_flags = 3; vm_file = none; vm_pgoff = 0 }

abbrev stack_area : VmArea
stack_area = record { vm_start = 24576; vm_end = 32768; vm_flags = 3; vm_file = none; vm_pgoff = 0 }

-- The break lies within the last page of the heap, the stack's start within its area.
abbrev process : Mm
process = record {
  vmas = program ∷ heap_area ∷ stack_area ∷ [];
  start_stack = 30000;
  start_brk = 12288;
  brk = 20000;
  total_vm = 5;
  data_vm = 2;
  exec_vm = 1;
  stack_vm = 2;
  map_count = 3;
  anonpages = 2;
  filepages = 1;
}

linux-FindsFirst : FindsFirst linux
linux-FindsFirst mm addr = refl

process-IsLaidOut : IsLaidOut 0 process.vmas
process-IsLaidOut = omega arith

process-HasPages : HasPages 4096 process.vmas
process-HasPages = omega arith

runs :
    (check_addr linux process 5000 true true ≡ info (vma_info linux process true program))
    × (check_addr linux process 9000 true true ≡ einval)
unfolding check_addr
runs = (refl, refl)

check_addr-Unmapped_example : check_addr linux process 9000 true false ≡ einval
check_addr-Unmapped_example =
    check_addr-Unmapped linux process 9000 true false linux-FindsFirst
      (inr (omega arith), (inl (omega arith), (inl (omega arith), tt)))

check_addr-unmarked_example :
    ShowsPlain stack_area (check_addr linux process 30000 true true)
    × HasNoMark (check_addr linux process 15000 true true)
check_addr-unmarked_example =
    check_addr-unmarked linux process 4096 2 15000 true true stack_area linux-FindsFirst
      process-IsLaidOut process-HasPages (omega arith) refl (omega arith) (omega arith)

check_addr-bounds_example :
    let i = vma_info linux process true program in
    (i.start ≤ 5000) × (5000 < i.end) × (length i.file.path < 256) × (i.file.offset < 2 ^ 64)
check_addr-bounds_example =
    check_addr-bounds linux process 5000 true true (vma_info linux process true program)
      linux-FindsFirst runs.0
