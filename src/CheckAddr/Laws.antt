-- ===== src/CheckAddr/Laws.antt =====
-- Which area the system call check_addr of hw2/mm536.c reports, and what it says of it.
use mathlib.Core.Path.{subst, sym, ◌∙◌}
use advanced_unix_ceng.Base.{
  ℕ, zero, suc, ◌%◌, ◌^◌, ◌≤◌, ◌<◌, ◌≡◌, ◌≢◌, refl, ap, ◌⊎◌, inl, inr, List, [], ◌∷◌, Option, none,
  some, Bool, true, false, if◌then◌else◌, ltb, arith, length, length-take, get_elem?, Bool-cases,
  Option-cases,
}
use advanced_unix_ceng.CheckAddr.{
  VmArea, Mm, Kernel, VmaInfo, Answer, info, einval, efault, flags_info, resolved_path, file_info,
  vma_info, check_addr,
}

-- The first area that ends above an address.
abbrev pub first_above : ℕ → List VmArea → Option VmArea
first_above addr [] = none
first_above addr (v ∷ vs) =
    let rest = first_above addr vs in if ltb addr v.vm_end then some v else rest

-- What find_vma is documented to do.
abbrev pub FindsFirst : Kernel → Type 0
FindsFirst k = (mm : Mm) (addr : ℕ) → k.find_vma mm addr ≡ first_above addr mm.vmas

-- Areas from `low` on that do not overlap, in the order of their addresses.
abbrev pub IsLaidOut : ℕ → List VmArea → Type 0
IsLaidOut low [] = Unit {0}
IsLaidOut low (v ∷ vs) = (low ≤ v.vm_start) × (v.vm_start < v.vm_end) × IsLaidOut v.vm_end vs

-- An address in none of the areas.
abbrev pub Unmapped : ℕ → List VmArea → Type 0
Unmapped addr [] = Unit {0}
Unmapped addr (v ∷ vs) = ((addr < v.vm_start) ⊎ (v.vm_end ≤ addr)) × Unmapped addr vs

start-le :
    (low : ℕ) (vs : List VmArea) (n : ℕ) (v : VmArea)
    → IsLaidOut low vs
    → get_elem? vs n ≡ some v
    → low ≤ v.vm_start
start-le low [] n v h e = ground arith
start-le low (u ∷ vs) zero v h e = ground arith
start-le low (u ∷ vs) (suc n) v h e = ground (arith, start-le u.vm_end vs n v)

first_above-mapped :
    (low : ℕ) (vs : List VmArea) (n addr : ℕ) (v : VmArea)
    → IsLaidOut low vs
    → get_elem? vs n ≡ some v
    → v.vm_start ≤ addr
    → addr < v.vm_end
    → first_above addr vs ≡ some v
first_above-mapped low [] n addr v h e a b = ground arith
first_above-mapped low (u ∷ vs) zero addr v h e a b = ground arith
first_above-mapped low (u ∷ vs) (suc n) addr v h e a b =
    ground (arith, start-le u.vm_end vs n v, first_above-mapped u.vm_end vs n addr v)

first_above-Unmapped :
    (vs : List VmArea) (addr : ℕ) (v : VmArea)
    → Unmapped addr vs
    → first_above addr vs ≡ some v
    → addr < v.vm_start
first_above-Unmapped [] addr v h e = ground arith
first_above-Unmapped (u ∷ vs) addr v h e = ground (arith, first_above-Unmapped vs addr v)

-- An address in an area.
pub check_addr-mapped :
    (k : Kernel) (mm : Mm) (addr n : ℕ) (page copied : Bool) (v : VmArea)
    → FindsFirst k
    → IsLaidOut 0 mm.vmas
    → get_elem? mm.vmas n ≡ some v
    → v.vm_start ≤ addr
    → addr < v.vm_end
    → check_addr k mm addr page copied ≡ (if copied then info (vma_info k mm page v) else efault)
unfolding check_addr
check_addr-mapped k mm addr n page copied v finds laid here a b =
    let found = first_above-mapped 0 mm.vmas n addr v laid here a b in
    let inside : ltb addr v.vm_start ≡ false = ground arith in
    rw (finds mm addr, found, check_addr, inside) refl

-- If find_vma does what it is documented to do and the address lies in no area, then check_addr
-- fails with EINVAL, whatever the user's memory.
pub check_addr-Unmapped :
    (k : Kernel) (mm : Mm) (addr : ℕ) (page copied : Bool)
    → FindsFirst k
    → Unmapped addr mm.vmas
    → check_addr k mm addr page copied ≡ einval
unfolding check_addr
check_addr-Unmapped k mm addr page copied finds h = elim (Option-cases (first_above addr mm.vmas)) [
  | inl nothing ↦ rw (finds mm addr, nothing, check_addr) refl
  | inr (v, found) ↦
      let below : ltb addr v.vm_start ≡ true =
        ground (arith, first_above-Unmapped mm.vmas addr v) in
      rw (finds mm addr, found, check_addr, below) refl
]

first_above-lt :
    (addr : ℕ) (vs : List VmArea) (v : VmArea) → first_above addr vs ≡ some v → addr < v.vm_end
first_above-lt addr [] v e = ground arith
first_above-lt addr (u ∷ vs) v e = ground (arith, first_above-lt addr vs v)

-- Where an answer comes from.
check_addr-info :
    (k : Kernel) (mm : Mm) (addr : ℕ) (page copied : Bool) (i : VmaInfo)
    → check_addr k mm addr page copied ≡ info i
    → (v : VmArea) × (k.find_vma mm addr ≡ some v)
      × (v.vm_start ≤ addr)
      × (i ≡ vma_info k mm page v)
unfolding check_addr
check_addr-info k mm addr page copied i e = elim (Option-cases (k.find_vma mm addr)) [
  | inl nothing ↦ absurd (ground (arith, nothing))
  | inr (v, found) ↦ (v, found, ground (arith, found), ground (arith, found))
]

-- Every area ends at a multiple of `size`.
abbrev pub HasPages : ℕ → List VmArea → Type 0
HasPages size [] = Unit {0}
HasPages size (v ∷ vs) = (v.vm_end % size ≡ 0) × HasPages size vs

-- An address strictly within one area is not where an area starts.
start-ne_inner :
    (low at n m : ℕ) (vs : List VmArea) (s v : VmArea)
    → IsLaidOut low vs
    → get_elem? vs n ≡ some s
    → s.vm_start < at
    → at < s.vm_end
    → get_elem? vs m ≡ some v
    → v.vm_start ≢ at
start-ne_inner low at n m [] s v laid here a b there = ground (arith, here)
start-ne_inner low at zero zero (u ∷ vs) s v laid here a b there = ground (arith, here, there)
start-ne_inner low at zero (suc m) (u ∷ vs) s v laid here a b there =
    let beyond = start-le u.vm_end vs m v laid.2 there in ground (arith, here, beyond)
start-ne_inner low at (suc n) zero (u ∷ vs) s v laid here a b there =
    let beyond = start-le u.vm_end vs n s laid.2 here in ground (arith, there, beyond)
start-ne_inner low at (suc n) (suc m) (u ∷ vs) s v laid here a b there =
    start-ne_inner u.vm_end at n m vs s v laid.2 here a b there

-- The area that is found is one of the list, and its end is at a multiple of `size`.
first_above-HasPages :
    (size addr : ℕ) (vs : List VmArea) (v : VmArea)
    → HasPages size vs
    → first_above addr vs ≡ some v
    → (m : ℕ) × (get_elem? vs m ≡ some v) × (v.vm_end % size ≡ 0)
first_above-HasPages size addr [] v h e = absurd (ground (arith, e))
first_above-HasPages size addr (u ∷ vs) v h e = elim (Bool-cases (ltb addr u.vm_end)) [
  | inl below ↦
      let same : u ≡ v = ground (arith, below, e) in
      (0, ap some same, subst (λ w. w.vm_end % size ≡ 0) same h.0)
  | inr above ↦
      let (m, there, whole) = first_above-HasPages size addr vs v h.1 (ground (arith, above, e)) in
      (suc m, there, whole)
]

-- Neither mark is set in an answer.
abbrev pub HasNoMark : Answer → Type 0
HasNoMark (info i) = (i.flags.heap ≡ 0) × (i.flags.stack ≡ 0)
HasNoMark einval = Unit {0}
HasNoMark efault = Unit {0}

-- An answer that is about an area and does not mark it as the stack.
abbrev pub ShowsPlain : VmArea → Answer → Type 0
ShowsPlain s (info i) = (i.start ≡ s.vm_start) × (i.end ≡ s.vm_end) × (i.flags.stack ≡ 0)
ShowsPlain s einval = ⊥
ShowsPlain s efault = ⊥

vma_info-HasNoMark :
    (k : Kernel) (mm : Mm) (size : ℕ) (page : Bool) (v : VmArea)
    → v.vm_end % size ≡ 0
    → mm.brk % size ≢ 0
    → v.vm_start ≢ mm.start_stack
    → HasNoMark (info (vma_info k mm page v))
unfolding vma_info flags_info
vma_info-HasNoMark k mm size page v whole part inner =
    let apart : v.vm_end ≢ mm.brk = λ e. part (subst (λ a. a % size ≡ 0) e whole) in
    (ground (arith, apart), ground (arith, inner))

-- Let find_vma do what it is documented to do, and let the areas be in order, not overlap, and end
-- at multiples of the page size. Let the break of the heap not be at such a multiple, and the
-- stack's start lie within an area, above its first address. Then the answer for the stack's own
-- start is about that area and does not mark it as the stack, and no address is reported as heap or
-- as stack.
pub check_addr-unmarked :
    (k : Kernel) (mm : Mm) (size n addr : ℕ) (page copied : Bool) (s : VmArea)
    → FindsFirst k
    → IsLaidOut 0 mm.vmas
    → HasPages size mm.vmas
    → mm.brk % size ≢ 0
    → get_elem? mm.vmas n ≡ some s
    → s.vm_start < mm.start_stack
    → mm.start_stack < s.vm_end
    → ShowsPlain s (check_addr k mm mm.start_stack page true)
      × HasNoMark (check_addr k mm addr page copied)
unfolding check_addr vma_info flags_info
check_addr-unmarked k mm size n addr page copied s finds laid pages part here a b =
    let shown =
      check_addr-mapped k mm mm.start_stack n page true s finds laid here (omega arith) b in
    (
      rw shown (refl, refl, ground (arith, a)),
      elim (Option-cases (first_above addr mm.vmas)) [
        | inl nothing ↦ rw (finds mm addr, nothing, check_addr) tt
        | inr (v, found) ↦
            let (m, there, whole) = first_above-HasPages size addr mm.vmas v pages found in
            let inner = start-ne_inner 0 mm.start_stack n m mm.vmas s v laid here a b there in
            let plain = vma_info-HasNoMark k mm size page v whole part inner in
            rw (finds mm addr, found, check_addr)
              (elim (Bool-cases (ltb addr v.vm_start)) [
                | inl below ↦ rw below tt
                | inr above ↦ rw above (elim (Bool-cases copied) [
                  | inl yes_copied ↦ rw yes_copied plain
                  | inr not_copied ↦ rw not_copied tt
                ])
              ])
      ],
    )

length-resolved_path :
    (k : Kernel) (page : Bool) (path : ℕ) → length (resolved_path k page path) ≤ 255
unfolding resolved_path
length-resolved_path k false path = omega arith
length-resolved_path k true path = elim (Option-cases (k.d_path path (2 ^ k.page_shift))) [
  | inl e ↦ rw (e, resolved_path) (omega arith)
  | inr (text, e) ↦ rw (e, resolved_path) (omega (arith, length-take 255 text))
]

file_info-bounds :
    (k : Kernel) (page : Bool) (v : VmArea)
    → (length (file_info k page v).path ≤ 255) × ((file_info k page v).offset < 2 ^ 64)
unfolding file_info
file_info-bounds k page v = elim (Option-cases v.vm_file) [
  | inl e ↦ rw (e, file_info) (omega arith, omega arith)
  | inr (file, e) ↦ rw (e, file_info) (length-resolved_path k page file.f_path, omega arith)
]

-- If find_vma does what it is documented to do: what check_addr reports starts at or below the
-- address and ends above it, the path with its NUL fits its 256 bytes, and the offset fits 64 bits.
pub check_addr-bounds :
    (k : Kernel) (mm : Mm) (addr : ℕ) (page copied : Bool) (i : VmaInfo)
    → FindsFirst k
    → check_addr k mm addr page copied ≡ info i
    → (i.start ≤ addr) × (addr < i.end) × (length i.file.path < 256) × (i.file.offset < 2 ^ 64)
unfolding vma_info
check_addr-bounds k mm addr page copied i finds e =
    let (v, found, above, same) = check_addr-info k mm addr page copied i e in
    let below = first_above-lt addr mm.vmas v (sym (finds mm addr) ∙ found) in
    let f = file_info-bounds k page v in
    subst
      (λ r.
        (r.start ≤ addr) × (addr < r.end) × (length r.file.path < 256) × (r.file.offset < 2 ^ 64))
      (sym same) (above, below, omega (arith, f.0), f.1)
