-- ===== src/Hfs/Page.antt =====
-- apps/hfs65.c: the texts of `root` and `directory`, each the text of one call of `send`.
use ip.Common.{
  ℕ, zero, suc, ◌+◌, ◌/◌, ◌%◌, Bool, true, false, List, [], ◌∷◌, ◌++◌, ◌==◌, if◌then◌else◌,
}
use ip.Common.{Option, none, some, drop}
use ip.Common.Chars.{codes}

-- `%u`: at most five digits.
pub decimal : ℕ → List ℕ
decimal n = digits 5 n []
  where
    digits : ℕ → ℕ → List ℕ → List ℕ
    digits zero n more = more
    digits (suc fuel) n more =
        let text = (b'0' + n % 10) ∷ more in
        let rest = digits fuel (n / 10) text in if n / 10 == 0 then text else rest

-- A device as `root` finds it: the name of its directory, if it has one, with its leading slash, and
-- its number of sectors, if it can be opened.
pub record Device : Type 0 where
  pub dir : Option (List ℕ)
  pub sectors : Option ℕ

unfoldable pub table_head : List ℕ → List ℕ
table_head title = codes "<h2>" ++ title ++ codes "</h2><table style='border-spacing: 1em 0em'>"

abbrev pub table_foot : List ℕ
table_foot = codes "</table>"

-- `root` in front of the loop.
pub root_head : List ℕ
unfolding table_head
root_head = table_head (codes "/")

unfoldable pub image_row : List ℕ → Option ℕ → List (List ℕ)
unfolding decimal
image_row rootdir none = []
image_row rootdir (some count) =
    (codes "<tr><td>Image</td><td><a href='"
      ++ rootdir
      ++ codes ".PO'>"
      ++ rootdir
      ++ codes ".PO</a></td><td align=right>"
      ++ decimal count
      ++ codes "</td></tr>")
    ∷ []

unfoldable pub disk_rows : Option (List ℕ) → Option ℕ → List (List ℕ)
unfolding image_row
disk_rows none sectors = []
disk_rows (some diskdir) sectors =
    let rootdir = drop 1 diskdir in
    (codes "<tr><td>Disk</td><td><a href='"
      ++ rootdir
      ++ codes "'>"
      ++ rootdir
      ++ codes "</a></td></tr>")
    ∷ image_row rootdir sectors

-- `while (disk != INVALID_DEVICE)` over the devices in the order of `getnextdevice`.
unfoldable pub root_rows : List Device → List (List ℕ)
unfolding disk_rows
root_rows [] = []
root_rows (d ∷ ds) = disk_rows d.dir d.sectors ++ root_rows ds

pub data Kind : Type 0 where
  regular subdirectory other : Kind

pub record Entry : Type 0 where
  pub d_name : List ℕ
  pub d_type : Kind
  pub d_blocks : ℕ

-- `strrchr`: what is in front of the last such character, and what is behind it.
unfoldable pub split_last : ℕ → List ℕ → Option (List ℕ × List ℕ)
split_last c [] = none
split_last c (x ∷ xs) = elim (split_last c xs) [
  | some (front, back) ↦ some (x ∷ front, back)
  | none ↦ if x == c then some ([], xs) else none
]

abbrev pub is_nil : List ℕ → Bool
is_nil [] = true
is_nil (x ∷ xs) = false

-- `delimiter && delimiter != path`: the last slash, unless there is none or it is the first character.
unfoldable pub split_path : List ℕ → Option (List ℕ × List ℕ)
unfolding split_last
split_path path = elim (split_last b'/' path) [
  | none ↦ none
  | some (front, back) ↦ if is_nil front then none else some (front, back)
]

unfoldable pub parent_row : List ℕ → List ℕ
unfolding split_path
parent_row path = elim (split_path path) [
  | none ↦ codes "<tr><td>Disk</td><td><a href='/'>..</a></td></tr>"
  | some (front, back) ↦
      codes "<tr><td>Directory</td><td><a href='" ++ front ++ codes "'>..</a></td></tr>"
]

unfoldable pub entry_row : List ℕ → Entry → Kind → List (List ℕ)
unfolding decimal
entry_row path e regular =
    (codes "<tr><td>File</td><td><a href='"
      ++ path
      ++ codes "/"
      ++ e.d_name
      ++ codes "'>"
      ++ e.d_name
      ++ codes "</a></td><td align=right>"
      ++ decimal e.d_blocks
      ++ codes "</td></tr>")
    ∷ []
entry_row path e subdirectory =
    (codes "<tr><td>Directory</td><td><a href='"
      ++ path
      ++ codes "/"
      ++ e.d_name
      ++ codes "'>"
      ++ e.d_name
      ++ codes "</a></td></tr>")
    ∷ []
entry_row path e other = []

-- `while (ent = readdir(dir))`
unfoldable pub entry_rows : List ℕ → List Entry → List (List ℕ)
unfolding entry_row
entry_rows path [] = []
entry_rows path (e ∷ es) = entry_row path e e.d_type ++ entry_rows path es

-- The texts behind the first one of `directory`.
unfoldable pub directory_rows : List ℕ → List Entry → List (List ℕ)
unfolding parent_row entry_rows
directory_rows path entries = parent_row path ∷ entry_rows path entries
