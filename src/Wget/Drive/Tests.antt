-- ===== src/Wget/Drive/Tests.antt =====
-- Drive arguments at concrete data.
use ip.Common.{◌≡◌, ◌↔◌, refl, some, none, map}
use ip.Common.Chars.{codes, to_upper}
use ip.Wget.Completion.{drive_text}
use ip.Wget.Drive.{parse_drive, IsDevice, parse_drive_iff}

slot_6_drive_2 : parse_drive (codes "!s6,d2") ≡ some 14
unfolding parse_drive to_upper
slot_6_drive_2 = refl

slot_8 : parse_drive (codes "!S8,D1") ≡ none
unfolding parse_drive to_upper
slot_8 = refl

parse_drive_iff_example :
    (parse_drive (codes "!s6,d2") ≡ some 14)
    ↔ (IsDevice 14 × (map to_upper (codes "!s6,d2") ≡ drive_text 14))
parse_drive_iff_example = parse_drive_iff (codes "s6,d2") 14
