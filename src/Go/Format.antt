-- ===== src/Go/Format.antt =====
-- The verb `%d` of fmt: an integer in decimal.
use Prim.Native.String.{◌++◌}
use stdgo.Base.{ℕ, zero, suc, String, ltb, ◌==◌, if◌then◌else◌, ◌/◌, ◌%◌, ◌≡◌, refl}
use stdgo.Base.Int.{ℤ, pos, negsuc}

abbrev digit : ℕ → String
digit n =
    if n == 0
    then "0"
    else if n == 1
    then "1"
    else if n == 2
    then "2"
    else if n == 3
    then "3"
    else if n == 4
    then "4"
    else if n == 5
    then "5"
    else if n == 6
    then "6"
    else if n == 7
    then "7"
    else if n == 8
    then "8"
    else "9"

-- Fuel `n + 1` is enough for `n`, which has at most as many digits.
digits : ℕ → ℕ → String
digits zero n = ""
digits (suc f) n =
    let rest = digits f (n / 10) in if ltb n 10 then digit n else rest ++ digit (n % 10)

unfoldable pub format_int : ℤ → String
unfolding digits
format_int (pos n) = digits (suc n) n
format_int (negsuc n) = "-" ++ digits (suc (suc n)) (suc n)

format_int_tests : format_int (pos 20350) ++ format_int (negsuc 6) ≡ "20350-7"
unfolding format_int
format_int_tests = refl
