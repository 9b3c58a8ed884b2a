-- ===== src/SupDem/Text.antt =====
-- The messages that hw1/supdemserv.c formats with snprintf, as lists of bytes.
use Prim.Native.Char.{code}
use Prim.Native.String.{String}
use advanced_unix_ceng.Base.{
  ℕ, zero, suc, ◌+◌, ◌-◌, ◌/◌, ◌%◌, List, [], ◌∷◌, ◌++◌, if◌then◌else◌, ltb, take,
}
use advanced_unix_ceng.Base.Int.{ℤ, pos, negsuc}
use advanced_unix_ceng.SupDem.State.{Supply, Demand}

abbrev pub codes : String → List ℕ
codes String.[] = []
codes (String.◌∷◌ c s) = code c ∷ codes s

-- The decimal digits of a number; ten are enough for an `int`.
unfoldable pub digits : ℕ → ℕ → List ℕ
digits zero n = []
digits (suc fuel) n =
    let rest = digits fuel (n / 10) in
    let digit = (n % 10 + b'0') ∷ [] in if ltb n 10 then digit else rest ++ digit

-- `%d`
unfoldable pub decimal : ℤ → List ℕ
unfolding digits
decimal (pos n) = digits 10 n
decimal (negsuc n) = b'-' ∷ digits 10 (suc n)

-- snprintf into a buffer of `size` bytes keeps `size - 1` of them.
abbrev pub snprintf : ℕ → List ℕ → List ℕ
snprintf size text = take (size - 1) text

abbrev pub pair_text : ℤ → ℤ → List ℕ
pair_text x y = codes "(" ++ (decimal x ++ (codes "," ++ (decimal y ++ codes ")")))

abbrev pub triple_text : ℤ → ℤ → ℤ → List ℕ
triple_text a b c =
    codes "["
    ++ (decimal a ++ (codes "," ++ (decimal b ++ (codes "," ++ (decimal c ++ codes "]")))))

unfoldable pub demand_message : Demand → Supply → List ℕ
demand_message d s = snprintf 256 (
    codes "Your demand at "
    ++ (pair_text d.x d.y
        ++ (codes ", "
            ++ (triple_text d.a_amount d.b_amount d.c_amount
                ++ (codes " is fulfilled by a supply at " ++ (pair_text s.x s.y ++ codes ".\n"))))))

unfoldable pub supply_message : Demand → Supply → List ℕ
supply_message d s = snprintf 256 (
    codes "Your supply at "
    ++ (pair_text s.x s.y
        ++ (codes ", "
            ++ (triple_text s.a_amount s.b_amount s.c_amount
                ++ (codes " with distance "
                    ++ (decimal s.distance
                        ++ (codes " is delivered to a demand at "
                            ++ (pair_text d.x d.y
                                ++ (codes " "
                                    ++ (triple_text d.a_amount d.b_amount d.c_amount
                                        ++ codes ".\n"))))))))))

unfoldable pub removed_message : List ℕ
removed_message = snprintf 256 (codes "Your supply is removed from map.\n")

unfoldable pub watch_message : Supply → List ℕ
watch_message s = snprintf 256 (
    codes "A supply "
    ++ (triple_text s.a_amount s.b_amount s.c_amount
        ++ (codes " is inserted at " ++ (pair_text s.x s.y ++ codes ".\n"))))
