-- ===== src/Wget/Drive.antt =====
-- apps/wget65.c: a drive argument such as `!S6,D1`, and the device number that it stands for.
mod Tests
use ip.Common.{
  ℕ, ◌+◌, ◌-◌, ◌*◌, ◌/◌, ◌%◌, ◌^◌, ◌<◌, ◌≤◌, ◌≡◌, refl, sym, ◌∙◌, ap, ◌≢◌, ◌↔◌, Bool, true, false,
  zero, suc,
}
use ip.Common.{
  ◌&&◌, ◌||◌, Option, none, some, List, [], ◌∷◌, ◌++◌, map, arith, ltb, leb, ◌==◌, Option-cases,
}
use ip.Common.{if◌then◌else◌, length, Bool-cases, inl, inr, bit_and, bit_or, ==_iff}
use ip.Common.Chars.{codes, to_upper}
use ip.Common.Bits.{table, table_lem}
use ip.Wget.Completion.{drive_text, decimal}

-- !S[1..7],D[1|2]
well_formed : ℕ → ℕ → ℕ → ℕ → ℕ → Bool
well_formed s slot comma d drive =
    to_upper s == b'S'
    && leb b'1' slot
    && leb slot b'7'
    && comma == b','
    && to_upper d == b'D'
    && leb b'1' drive
    && leb drive b'2'

-- The device of a drive argument, and none where `main` answers "Malformed drive spec". The first
-- character is the `!` that `main` has tested.
unfoldable pub parse_drive : List ℕ → Option ℕ
unfolding well_formed
parse_drive (_ ∷ s ∷ slot ∷ comma ∷ d ∷ drive ∷ []) =
    if well_formed s slot comma d drive
    then some (bit_or (slot - b'0') ((drive - b'1') * 8))
    else none
parse_drive _ = none

-- A ProDOS device number: the slot, 1 to 7, and the drive, 0 or 1, in bit 3.
abbrev pub IsDevice : ℕ → Type 0
IsDevice device = (device < 16) × (device % 8 ≢ 0)

abbrev digit_bits : ℕ → ℕ → Bool
digit_bits a b = bit_or a (b * 8) == a + b * 8

bit_or_table : table 8 (λ a. digit_bits a 0 && digit_bits a 1) ≡ true
unfolding table
bit_or_table = refl

masked_digits : table 16 (λ d. bit_and d 7 == d % 8) ≡ true
unfolding table
masked_digits = refl

slot-bit_or-drive : (a b : ℕ) → a < 8 → b < 2 → bit_or a (b * 8) ≡ a + b * 8
slot-bit_or-drive a zero h k = ground (arith, table_lem 8 _ bit_or_table a h)
slot-bit_or-drive a (suc zero) h k = ground (arith, table_lem 8 _ bit_or_table a h)
slot-bit_or-drive a (suc (suc b)) h k = absurd (omega arith)

device-bit_and-7 : (d : ℕ) → d < 16 → bit_and d 7 ≡ d % 8
device-bit_and-7 d h = (==_iff _ _).0 (table_lem 16 _ masked_digits d h)

drive_text_lem :
    (d : ℕ)
    → d < 16
    → drive_text d ≡ b'!' ∷ b'S' ∷ (b'0' + d % 8) ∷ b',' ∷ b'D' ∷ (b'1' + d / 8) ∷ []
unfolding drive_text
drive_text_lem d h = rw (device-bit_and-7 d h) (ground arith)

parse_drive→text :
    (s slot comma d drive device : ℕ)
    → parse_drive (b'!' ∷ s ∷ slot ∷ comma ∷ d ∷ drive ∷ []) ≡ some device
    → IsDevice device
      × (map to_upper (b'!' ∷ s ∷ slot ∷ comma ∷ d ∷ drive ∷ []) ≡ drive_text device)
unfolding parse_drive to_upper
parse_drive→text s slot comma d drive device h =
    let e = slot-bit_or-drive (slot - b'0') (drive - b'1') in
    (ground (arith, e), ground (arith, e, drive_text_lem device))

text→parse_drive :
    (s slot comma d drive device : ℕ)
    → IsDevice device
    → map to_upper (b'!' ∷ s ∷ slot ∷ comma ∷ d ∷ drive ∷ []) ≡ drive_text device
    → parse_drive (b'!' ∷ s ∷ slot ∷ comma ∷ d ∷ drive ∷ []) ≡ some device
unfolding parse_drive to_upper
text→parse_drive s slot comma d drive device v h =
    ground (arith, slot-bit_or-drive (slot - b'0') (drive - b'1'), drive_text_lem device v.0)

-- A drive argument is accepted for a device exactly when the device is a slot 1 to 7 with a drive
-- bit, and the argument is, but for case, the text that completion offers for the device. In
-- particular an accepted device is never 0, which `main` takes for a file.
pub parse_drive_iff :
    (text : List ℕ) (device : ℕ)
    → (parse_drive (b'!' ∷ text) ≡ some device)
      ↔ (IsDevice device × (map to_upper (b'!' ∷ text) ≡ drive_text device))
unfolding parse_drive
parse_drive_iff (s ∷ slot ∷ comma ∷ d ∷ drive ∷ []) device = (
  parse_drive→text s slot comma d drive device,
  λ (v, h). text→parse_drive s slot comma d drive device v h,
)
parse_drive_iff _ device = (λ h. cc, λ (v, h). absurd (ground (arith, drive_text_lem device v.0)))
