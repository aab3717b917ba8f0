-- ===== src/Wget/Completion.antt =====
-- apps/wget65.c: `match`, `url_completion` and `file_completion`.
pub mod Prefix
mod Tests
use ip.Common.{
  ℕ, ◌+◌, ◌-◌, ◌*◌, ◌/◌, ◌%◌, ◌^◌, ◌<◌, ◌≤◌, ◌≡◌, refl, sym, ◌∙◌, ap, ◌≢◌, ◌↔◌, Bool, true, false,
}
use ip.Common.{◌&&◌, ◌||◌, Option, none, some, List, [], ◌∷◌, ◌++◌, map, arith, ltb, leb, ◌==◌}
use ip.Common.{
  if◌then◌else◌, length, length-append, Bool-cases, inl, inr, drop, All, append_assoc, bit_and,
}
use ip.Common.Chars.{codes, to_upper}

-- Does the text begin with the filter, in whatever case?
unfoldable pub match : List ℕ → List ℕ → Bool
match [] string = true
match (f ∷ filter) [] = false
match (f ∷ filter) (c ∷ string) = (to_upper f == to_upper c) && match filter string

-- `linenoiseAddCompletion` under a test, in front of the completions that follow.
abbrev pub offer : Bool → List ℕ → List (List ℕ) → List (List ℕ)
offer test text rest = if test then text ∷ rest else rest

pub url_completion : List ℕ → List (List ℕ)
unfolding match
url_completion line =
    offer (match line (codes "http://")) (codes "http://")
      (offer (match line (codes "http://www.")) (codes "http://www.") [])

-- What the program asks of the disks: the devices in the order of `getfirstdevice` and
-- `getnextdevice`, the sector count if `dio_open` succeeds (0 if there is no formatted disk), the
-- volume's name, and the names in a directory if it can be opened (`.` is the current one).
pub record Disks : Type 0 where
  pub devices : List ℕ
  pub sectcount : ℕ → Option ℕ
  pub devicedir : ℕ → Option (List ℕ)
  pub entries : List ℕ → Option (List (List ℕ))

-- `%d` for a number below 100.
pub decimal : ℕ → List ℕ
decimal n = if ltb n 10 then (b'0' + n) ∷ [] else (b'0' + n / 10) ∷ (b'0' + n % 10) ∷ []

-- `sprintf(buffer, "!S%d,D%d", device & 7, (device >> 3) + 1)`
unfoldable pub drive_text : ℕ → List ℕ
unfolding decimal
drive_text device =
    (codes "!S" ++ decimal (bit_and device 7)) ++ (codes ",D" ++ decimal (device / 8 + 1))

-- Does `dio_open` succeed, and `dio_query_sectcount` find a disk?
abbrev has_disk : Option ℕ → Bool
has_disk none = false
has_disk (some n) = ltb 0 n

module _ (line : List ℕ) where
  -- The loop over the devices for a line that begins with `!`.
  pub drive_names : Disks → List ℕ → List (List ℕ)
  unfolding match drive_text
  drive_names disks [] = []
  drive_names disks (device ∷ devices) =
      offer (has_disk (disks.sectcount device) && match line (drive_text device))
        (drive_text device) (drive_names disks devices)

  -- The loop over the devices for a line with its only slash in front.
  pub volume_names : Disks → List ℕ → List (List ℕ)
  unfolding match
  volume_names disks [] = []
  volume_names disks (device ∷ devices) =
      let rest = volume_names disks devices in
      elim (disks.devicedir device) [ none ↦ rest | some dir ↦ offer (match line dir) dir rest ]

-- The loop over a directory: what stands up to the last slash, with each name that matches.
pub entry_names : List ℕ → List ℕ → List (List ℕ) → List (List ℕ)
unfolding match
entry_names path partial [] = []
entry_names path partial (ent ∷ ents) =
    offer (match partial ent) (path ++ ent) (entry_names path partial ents)

-- `strrchr(line, '/')`: the text before the last slash and the text behind it.
abbrev slash_at : ℕ → List ℕ → Option (List ℕ × List ℕ) → Option (List ℕ × List ℕ)
slash_at c s (some (a, b)) = some (c ∷ a, b)
slash_at c s none = if c == b'/' then some ([], s) else none

unfoldable pub last_slash : List ℕ → Option (List ℕ × List ℕ)
last_slash [] = none
last_slash (c ∷ s) = slash_at c s (last_slash s)

-- The name that was derived from the URL, and the directory, if it can be opened.
abbrev path_names : List ℕ → List ℕ → List ℕ → Option (List (List ℕ)) → List (List ℕ)
path_names path partial name none =
    offer (ltb 0 (length name) && match partial name) (path ++ name) []
path_names path partial name (some ents) =
    offer (ltb 0 (length name) && match partial name) (path ++ name) (entry_names path partial ents)

-- The branches behind the test for `!`, by what `strrchr` found.
pub slash_completion : Disks → List ℕ → List ℕ → Option (List ℕ × List ℕ) → List (List ℕ)
unfolding entry_names volume_names match
slash_completion disks name line none = path_names [] line name (disks.entries (codes "."))
slash_completion disks name line (some ([], partial)) = volume_names line disks disks.devices
slash_completion disks name line (some (c ∷ dir, partial)) =
    path_names ((c ∷ dir) ++ b'/' ∷ []) partial name (disks.entries (c ∷ dir))

pub file_completion : Disks → List ℕ → List ℕ → List (List ℕ)
unfolding slash_completion last_slash drive_names
file_completion disks name [] = slash_completion disks name [] none
file_completion disks name (c ∷ line) =
    if c == b'!'
    then drive_names (c ∷ line) disks disks.devices
    else slash_completion disks name (c ∷ line) (last_slash (c ∷ line))
