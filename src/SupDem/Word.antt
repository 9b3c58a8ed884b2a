-- ===== src/SupDem/Word.antt =====
-- C `int` arithmetic of hw1/supdemserv.c, and its manhattan_distance.
use advanced_unix_ceng.Base.{ℕ, ◌+◌, ◌-◌, ◌%◌, ◌^◌, ◌<◌, ◌≡◌, if◌then◌else◌, ltb, arith}
use advanced_unix_ceng.Base.Int.{ℤ, pos, negsuc, pos_part, neg_part, ◌+ℤ◌, ◌-ℤ◌, ◌≤ℤ◌, ltb_ℤ}

-- The `int` that the low 32 bits of an integer stand for; 2^34 is above all that one operation
-- makes of two of them.
unfoldable pub wrap32 : ℤ → ℤ
wrap32 z =
    let bits = (pos_part z + 2 ^ 34 - neg_part z) % 2 ^ 32 in
    if ltb bits (2 ^ 31) then pos bits else negsuc (2 ^ 32 - bits - 1)

unfoldable pub add_int : ℤ → ℤ → ℤ
unfolding wrap32 ◌+ℤ◌
add_int a b = wrap32 (a +ℤ b)

unfoldable pub sub_int : ℤ → ℤ → ℤ
unfolding wrap32 ◌-ℤ◌
sub_int a b = wrap32 (a -ℤ b)

unfoldable pub abs_int : ℤ → ℤ
unfolding sub_int
abs_int a = if ltb_ℤ a (pos 0) then sub_int (pos 0) a else a

unfoldable pub manhattan_distance : ℤ → ℤ → ℤ → ℤ → ℤ
manhattan_distance x1 y1 x2 y2 = add_int (abs_int (sub_int x1 x2)) (abs_int (sub_int y1 y2))

-- 0 ≤ z < 2^31
pub record IsAmount (z : ℤ) : Type 0 where
  pub nonneg : neg_part z ≡ 0
  pub fits : pos_part z < 2 ^ 31

-- Taking away no more than there is neither wraps nor goes below 0.
pub sub_int_parts :
    (s d : ℤ)
    → IsAmount s
    → IsAmount d
    → d ≤ℤ s
    → (pos_part (sub_int s d) + pos_part d ≡ pos_part s) × (neg_part (sub_int s d) ≡ 0)
unfolding sub_int
sub_int_parts s d hs hd h = ground arith

-- -2^29 < z < 2^29
pub record IsCoord (z : ℤ) : Type 0 where
  pub low : neg_part z < 2 ^ 29
  pub high : pos_part z < 2 ^ 29

-- The distance of two numbers, as a natural number.
abbrev pub gap : ℤ → ℤ → ℕ
gap a b =
    (pos_part a + neg_part b - (pos_part b + neg_part a))
    + (pos_part b + neg_part a - (pos_part a + neg_part b))

abs_int-sub_int : (a b : ℤ) → IsCoord a → IsCoord b → abs_int (sub_int a b) ≡ pos (gap a b)
unfolding abs_int
abs_int-sub_int a b ha hb = ground arith

add_int-pos : (m n : ℕ) → m + n < 2 ^ 31 → add_int (pos m) (pos n) ≡ pos (m + n)
unfolding add_int
add_int-pos m n h = ground arith

-- For coordinates of size below 2^29 nothing overflows: the result is the sum of the
-- distances along the two axes.
manhattan_distance_lem :
    (x1 y1 x2 y2 : ℤ)
    → IsCoord x1
    → IsCoord y1
    → IsCoord x2
    → IsCoord y2
    → manhattan_distance x1 y1 x2 y2 ≡ pos (gap x1 x2 + gap y1 y2)
unfolding manhattan_distance
manhattan_distance_lem x1 y1 x2 y2 a b c d =
    rw (abs_int-sub_int x1 x2 a c, abs_int-sub_int y1 y2 b d)
      (add_int-pos (gap x1 x2) (gap y1 y2) (omega arith))
