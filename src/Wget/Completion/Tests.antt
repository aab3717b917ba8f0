-- ===== src/Wget/Completion/Tests.antt =====
-- Completions at concrete data.
use ip.Common.{ℕ, ◌≡◌, ◌↔◌, refl, some, none, map, List, [], ◌∷◌, if◌then◌else◌, ◌==◌, true, ◌++◌}
use ip.Common.Chars.{codes, to_upper}
use ip.Wget.Completion.{Disks, file_completion, url_completion, match}
use ip.Wget.Completion.Prefix.{Extend, file_completion-Extend, match_iff}

abbrev drives : Disks
drives = record {
  devices = 6 ∷ 14 ∷ [];
  sectcount = λ d. if d == 6 then some 280 else none;
  devicedir = λ d. if d == 6 then some (codes "/DISK") else none;
  entries = λ path. some (codes "GAMES" ∷ codes "TOOLS" ∷ []);
}

complete_entry :
    file_completion drives (codes "GOLF.DSK") (codes "/DISK/g")
    ≡ codes "/DISK/GOLF.DSK" ∷ codes "/DISK/GAMES" ∷ []
unfolding file_completion to_upper
complete_entry = refl

complete_drive : file_completion drives [] (codes "!s") ≡ codes "!S6,D1" ∷ []
unfolding file_completion to_upper
complete_drive = refl

complete_url : url_completion (codes "HTTP://w") ≡ codes "http://www." ∷ []
unfolding url_completion to_upper
complete_url = refl

file_completion-Extend_example :
    Extend (codes "/DISK/g") (file_completion drives (codes "GOLF.DSK") (codes "/DISK/g"))
file_completion-Extend_example = file_completion-Extend drives (codes "GOLF.DSK") (codes "/DISK/g")

match_iff_example :
    (match (codes "ab") (codes "ABc") ≡ true)
    ↔ ((rest : List ℕ) × (map to_upper (codes "ABc") ≡ map to_upper (codes "ab") ++ rest))
match_iff_example = match_iff (codes "ab") (codes "ABc")
