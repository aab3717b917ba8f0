-- ===== src/Hfs/Server.antt =====
-- apps/hfs65.c: `http_server` and the handlers it calls.
pub mod Answers
mod Tests
use ip.Common.{ℕ, Bool, true, false, ◌&&◌, ◌||◌, not, List, [], ◌∷◌, ◌++◌, ◌==◌, map, if◌then◌else◌}
use ip.Common.{Option, none, some, get_or}
use ip.Common.Chars.{codes, to_upper}
use ip.Hfs.Send.{
  Response, html, file_data, noheader, not_found, server_error, Call, Sender, send_page,
}
use ip.Common.Buffers.{blit}
use ip.Hfs.Page.{
  Device, Entry, root_head, root_rows, table_head, table_foot, directory_rows, split_path,
  split_last,
}

-- The disks: the current directory is in the state.
pub record Disks : Type 1 where
  pub State : Type 0
  -- `chdir`: true if it fails.
  pub chdir : List ℕ → State → Bool × State
  -- The devices in order, and the entries of the current directory, if it can be opened.
  pub devices : State → List Device
  pub entries : State → Option (List Entry)
  -- A file of the current directory, if it can be opened: the results of the reads.
  pub reads : List ℕ → State → Option (List (List ℕ))
  -- The current device, if it can be opened: the sectors.
  pub sector_size : State → ℕ
  pub sectors : State → Option (List (List ℕ))

-- The end of `http_server`, and `error`.
abbrev pub plain : Response → List Call
plain r = record { response = r; bytes = [] } ∷ []

-- `while ((size = read(…)) > 0)`: the first part is sent with a header.
unfoldable pub send_parts : List (List ℕ) → Sender → Sender × List Call
send_parts [] b = (b, [])
send_parts (part ∷ parts) b =
    let next = record b { send_buffer = blit 0 part b.send_buffer; send_type = noheader } in
    let (b1, calls) = send_parts parts next in
    (b1, record { response = b.send_type; bytes = part } ∷ calls)

unfoldable pub file_parts : List (List ℕ) → List (List ℕ)
file_parts [] = []
file_parts ([] ∷ parts) = []
file_parts ((b ∷ bs) ∷ parts) = (b ∷ bs) ∷ file_parts parts

-- Equal texts but for the case.
unfoldable pub same_word : List ℕ → List ℕ → Bool
unfolding to_upper
same_word [] [] = true
same_word (x ∷ xs) (y ∷ ys) = (to_upper x == to_upper y) && same_word xs ys
same_word _ _ = false

module _ (D : Disks) where
  unfoldable pub root : Sender → D.State → Sender × List Call
  root b s = send_page root_head (root_rows (D.devices s)) table_foot b

  unfoldable pub directory : List ℕ → Sender → D.State → Sender × List Call
  directory path b s = elim (D.entries s) [
    | none ↦ (b, plain server_error)
    | some es ↦ send_page (table_head path) (directory_rows path es) table_foot b
  ]

  -- None if the file cannot be opened.
  unfoldable pub file : List ℕ → Sender → D.State → Option (Sender × List Call)
  unfolding send_parts file_parts
  file name b s = elim (D.reads name s) [
    | none ↦ none
    | some parts ↦ some (send_parts (file_parts parts) (record b { send_type = file_data }))
  ]

  unfoldable pub image : Sender → D.State → Sender × List Call
  unfolding send_parts
  image b s = elim (D.sectors s) [
    | none ↦ (b, plain server_error)
    | some parts ↦
        send_parts parts (record b { send_size = D.sector_size s; send_type = file_data })
  ]

  -- Behind the first `chdir`: a file in a directory, or the image of a volume.
  unfoldable pub file_or_image : List ℕ → Sender → D.State → (Sender × List Call) × D.State
  unfolding file image
  file_or_image path b s = elim (split_path path) [
    | some (front, name) ↦
        let (failed, s1) = D.chdir front s in
        if failed
        then ((b, plain not_found), s1)
        else (elim (file name b s1) [ none ↦ ((b, plain not_found), s1) | some r ↦ (r, s1) ])
    | none ↦ elim (split_last b'.' path) [
      | none ↦ ((b, plain not_found), s)
      | some (front, back) ↦
          let (failed, s1) = D.chdir front s in
          if failed then ((b, plain not_found), s1) else (image b s1, s1)
    ]
  ]

  -- The calls of `httpd_send_response` for a request, with the sender and the disks behind it.
  unfoldable pub http_server :
      (method path : List ℕ) → Sender → D.State → (Sender × List Call) × D.State
  unfolding root directory file_or_image same_word
  http_server method path b s =
      if not (same_word method (codes "get")) || not (get_or path 0 0 == b'/')
      then ((b, plain server_error), s)
      else (if get_or path 1 0 == 0
          then (root b s, s)
          else (let (failed, s1) = D.chdir path s in
              if not failed then (directory path b s1, s1) else file_or_image path b s1))
