-- ===== src/Prelude/Text.antt =====
-- Texts: joining, and the decimal form that `%d` and strconv print.
use Prim.Native.Nat.{ℕ, zero, suc, ◌+◌, ◌/◌, ◌%◌}
use Prim.Native.String.{String, ◌++◌}
use mathlib.Core.Path.{◌≡◌, refl}
use gfire.Prelude.Tests.{ltb, if◌then◌else◌}
use gfire.Prelude.Int.{ℤ, pos, negsuc}

digit : ℕ → String
digit zero = "0"
digit (suc zero) = "1"
digit (suc (suc zero)) = "2"
digit (suc (suc (suc zero))) = "3"
digit (suc (suc (suc (suc zero)))) = "4"
digit (suc (suc (suc (suc (suc zero))))) = "5"
digit (suc (suc (suc (suc (suc (suc zero)))))) = "6"
digit (suc (suc (suc (suc (suc (suc (suc zero))))))) = "7"
digit (suc (suc (suc (suc (suc (suc (suc (suc zero)))))))) = "8"
digit (suc (suc (suc (suc (suc (suc (suc (suc (suc n))))))))) = "9"

decimal_fuel : ℕ → ℕ → String
unfolding digit
decimal_fuel zero n = ""
decimal_fuel (suc fuel) n =
    let rest = decimal_fuel fuel (n / 10) ++ digit (n % 10) in if ltb n 10 then digit n else rest

-- A number has at most 20 digits up to 2 ^ 66, and the numbers printed are below 2 ^ 64.
unfoldable pub decimal : ℕ → String
unfolding decimal_fuel
decimal n = decimal_fuel 20 n

infixr 65 ◌<>◌
abbrev pub ◌<>◌ : String → String → String
s <> t = s ++ t

unfoldable pub decimal_int : ℤ → String
unfolding decimal
decimal_int (pos n) = decimal n
decimal_int (negsuc n) = "-" <> decimal (n + 1)

decimal_runs : decimal 1207 ≡ "1207"
unfolding decimal
decimal_runs = refl
