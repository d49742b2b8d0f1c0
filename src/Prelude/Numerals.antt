-- ===== src/Prelude/Numerals.antt =====
-- Decimal numerals, and the padded ones of Python's format `{n:02d}`.
use Prim.Native.String.{String, count, ◌++◌}
use Prim.Native.Nat.{ℕ, zero, suc, ◌/◌, ◌%◌, ◌-◌}
use mathlib.Core.Path.{◌≡◌, refl}
use world_class_seo_agent_sy.Prelude.Tests.{ltb, if◌then◌else◌}

digit : ℕ → String
digit zero = "0"
digit (suc zero) = "1"
digit (suc (suc zero)) = "2"
digit (suc (suc (suc zero))) = "3"
digit (suc (suc (suc (suc zero)))) = "4"
digit (suc (suc (suc (suc (suc zero))))) = "5"
digit (suc (suc (suc (suc (suc (suc zero)))))) = "6"
digit (suc (suc (suc (suc (suc (suc (suc zero))))))) = "7"
digit (suc (suc (suc (suc (suc (suc (suc (suc zero)))))))) = "8"
digit _ = "9"

-- The digits of `n`, at most `fuel` of them.
digits_from : ℕ → ℕ → String
digits_from zero n = ""
digits_from (suc fuel) n =
    let rest = digits_from fuel (n / 10) in if ltb n 10 then digit n else rest ++ digit (n % 10)

-- `str(n)`: a number has at most `n + 1` digits.
unfoldable pub decimal : ℕ → String
unfolding digits_from digit
decimal n = digits_from (suc n) n

zeros : ℕ → String
zeros zero = ""
zeros (suc n) = "0" ++ zeros n

-- `f"{n:0{width}d}"`
unfoldable pub padded : ℕ → ℕ → String
unfolding decimal zeros
padded width n = zeros (width - count (decimal n)) ++ decimal n

padded_tests :
    (padded 2 7 ≡ "07") × (padded 2 12 ≡ "12") × (padded 4 103 ≡ "0103") × (padded 2 100 ≡ "100")
unfolding padded
padded_tests = (refl, refl, refl, refl)
