-- ===== src/Date/Timezone.antt =====
-- apps/date65.c: the timezone.
use ip.Common.{
  ℕ, ◌+◌, ◌/◌, ◌%◌, ◌<◌, ◌≡◌, refl, ap, true, [], ◌∷◌, ◌==◌, bit_and, if◌then◌else◌, arith,
}
use ip.Common.{==_iff}
use ip.Common.Bits.{table, table_lem}
use ip.Common.Int.{pos}
use ip.Date.{timezone, hours, negated}

digit_table : table 10 (λ d. bit_and (b'0' + d) 0xCF == d) ≡ true
unfolding table
digit_table = refl

-- The mask leaves the value of a digit.
digit_lem : (d : ℕ) → d < 10 → bit_and (b'0' + d) 0xCF ≡ d
digit_lem d h = (==_iff _ _).0 (table_lem 10 _ digit_table d h)

-- A file of a sign, of which the highest bit does not count, and two digits is read as the number of
-- hours that the digits stand for, which is negative for a minus and positive for any other sign.
pub timezone_lem :
    (sign h : ℕ)
    → h < 100
    → timezone (sign ∷ (b'0' + h / 10) ∷ (b'0' + h % 10) ∷ [])
      ≡ (if bit_and sign 0x7F == b'-' then negated h else pos h)
unfolding timezone hours
timezone_lem sign h below =
    ap (λ n. if bit_and sign 0x7F == b'-' then negated n else pos n)
      (omega (arith, digit_lem (h / 10) (omega arith), digit_lem (h % 10) (omega arith)))
