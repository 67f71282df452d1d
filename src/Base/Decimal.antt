-- ===== src/Base/Decimal.antt =====
-- Go's `strconv.FormatInt(n, 10)`, which `fmt.Sprintf("%d", n)` agrees with on an int64.
use Prim.Native.Char.{Char}
use Prim.Native.Nat.{ℕ, zero, suc, ◌/◌, ◌%◌}
use Prim.Native.String.{String}
use mathlib.Core.Path.{◌≡◌, refl}
use mesh_cart.Base.Tests.{ltb, if◌then◌else◌}
use mesh_cart.Base.Int.{ℤ, pos, negsuc}

digit_char : ℕ → Char
digit_char zero = "0"
digit_char (suc zero) = "1"
digit_char (suc (suc zero)) = "2"
digit_char (suc (suc (suc zero))) = "3"
digit_char (suc (suc (suc (suc zero)))) = "4"
digit_char (suc (suc (suc (suc (suc zero))))) = "5"
digit_char (suc (suc (suc (suc (suc (suc zero)))))) = "6"
digit_char (suc (suc (suc (suc (suc (suc (suc zero))))))) = "7"
digit_char (suc (suc (suc (suc (suc (suc (suc (suc zero)))))))) = "8"
digit_char (suc (suc (suc (suc (suc (suc (suc (suc (suc n))))))))) = "9"

-- The digits of `n` in front of `acc`; a number below the fuel has fewer digits than that.
format_from : ℕ → ℕ → String → String
unfolding digit_char
format_from zero n acc = acc
format_from (suc fuel) n acc =
    let rest = format_from fuel (n / 10) (String.◌∷◌ (digit_char (n % 10)) acc) in
    if ltb n 10 then String.◌∷◌ (digit_char n) acc else rest

unfoldable pub format_int : ℤ → String
unfolding format_from
format_int (pos n) = format_from (suc n) n ""
format_int (negsuc n) = String.◌∷◌ "-" (format_from (suc (suc n)) (suc n) "")

format_int_test : format_int (negsuc 1204) ≡ "-1205"
unfolding format_int
format_int_test = refl
