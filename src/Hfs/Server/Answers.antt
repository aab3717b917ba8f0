-- ===== src/Hfs/Server/Answers.antt =====
-- apps/hfs65.c: every request is answered.
use ip.Common.{
  Bool, ltb, ℕ, ◌≡◌, refl, true, false, not, ◌||◌, ◌==◌, ◌≢◌, List, [], ◌∷◌, none, some, Option,
  Bool-cases, inl, inr, get_or, Option-cases,
}
use ip.Common.Chars.{codes}
use ip.Common.Words.{sub16}
use ip.Hfs.Send.{
  flush, send, send_all, begin, append, Sender, Call, Response, html, file_data, not_found,
  server_error, noheader, buffer_size, send_page,
}
use ip.Hfs.Send.Whole.{Marks, Marks-append}
use ip.Hfs.Page.{
  table_head, table_foot, root_head, root_rows, directory_rows, split_path, split_last,
}
use ip.Hfs.Server.{
  Disks, plain, send_parts, file_parts, same_word, root, directory, file, image, file_or_image,
  http_server,
}

abbrev pub is_header : Response → Bool
is_header noheader = false
is_header r = true

-- The first call has a header, and no other.
unfoldable pub Answered : List Call → Type 0
Answered calls = (r : Response) × (is_header r ≡ true) × Marks r calls noheader

flush-Marks :
    (last : Bool) (b : Sender) → Marks b.send_type (flush last b).1 (flush last b).0.send_type
unfolding flush Marks
flush-Marks last b = elim (Bool-cases (last || ltb (sub16 buffer_size b.send_size) 256)) [
  | inl e ↦ rw e (refl, refl)
  | inr e ↦ rw e refl
]

send_all-Marks :
    (texts : List (List ℕ)) (b : Sender)
    → Marks b.send_type (send_all texts b).1 (send_all texts b).0.send_type
unfolding send_all send begin append Marks
send_all-Marks [] b = refl
send_all-Marks (text ∷ texts) b =
    Marks-append _ _ _ _ _ (flush-Marks false (append text b)) (send_all-Marks texts _)

send_page-Marks :
    (head : List ℕ) (texts : List (List ℕ)) (foot : List ℕ) (b : Sender)
    → Marks html (send_page head texts foot b).1 noheader
unfolding send_page send begin append
send_page-Marks head texts foot b =
    Marks-append _ _ _ _ _ (flush-Marks false _)
      (Marks-append _ _ _ _ _ (send_all-Marks texts _) (flush-Marks true _))

parts-Marks :
    (part : List ℕ) (parts : List (List ℕ)) (b : Sender)
    → Marks b.send_type (send_parts (part ∷ parts) b).1 noheader
unfolding send_parts Marks
parts-Marks part [] b = (refl, refl)
parts-Marks part (next ∷ parts) b = (refl, parts-Marks next parts _)

filled-Marks :
    (parts : List (List ℕ)) (b : Sender)
    → parts ≢ []
    → Marks b.send_type (send_parts parts b).1 noheader
filled-Marks [] b h = absurd (h refl)
filled-Marks (part ∷ parts) b h = parts-Marks part parts b

module _ (D : Disks)
    (full_files : (name : List ℕ) (s : D.State) (parts : List (List ℕ))
      → D.reads name s ≡ some parts
      → file_parts parts ≢ [])
    (full_disks : (s : D.State) (parts : List (List ℕ))
      → D.sectors s ≡ some parts
      → parts ≢ []) where
  plain-Answered : (r : Response) → is_header r ≡ true → Answered (plain r)
  unfolding Answered Marks
  plain-Answered r h = (r, h, (refl, refl))

  directory-Answered :
      (path : List ℕ) (b : Sender) (s : D.State) → Answered (directory D path b s).1
  unfolding Answered directory Marks
  directory-Answered path b s = elim (Option-cases (D.entries s)) [
    | inl e ↦ rw (e, directory) (plain-Answered server_error refl)
    | inr (es, e) ↦
        rw (e, directory)
          (html, refl, send_page-Marks (table_head path) (directory_rows path es) table_foot b)
  ]

  image-Answered : (b : Sender) (s : D.State) → Answered (image D b s).1
  unfolding Answered image Marks
  image-Answered b s = elim (Option-cases (D.sectors s)) [
    | inl e ↦ rw (e, image) (plain-Answered server_error refl)
    | inr (parts, e) ↦
        rw (e, image)
          (
            file_data,
            refl,
            filled-Marks parts (record b { send_size = D.sector_size s; send_type = file_data })
                (full_disks s parts e),
          )
  ]

  AnswersFile : Option (Sender × List Call) → Type 0
  AnswersFile none = Unit
  AnswersFile (some (b, calls)) = Answered calls

  file_answers : (name : List ℕ) (b : Sender) (s : D.State) → AnswersFile (file D name b s)
  unfolding Answered AnswersFile file
  file_answers name b s = elim (Option-cases (D.reads name s)) [
    | inl e ↦ rw (e, file) tt
    | inr (parts, e) ↦
        rw (e, file)
          (
            file_data,
            refl,
            filled-Marks (file_parts parts) (record b { send_type = file_data })
                (full_files name s parts e),
          )
  ]

  file_or_error :
      (r : Option (Sender × List Call)) (b : Sender) (s : D.State)
      → AnswersFile r
      → Answered
          (elim r as (λ x. (Sender × List Call) × D.State) [
            | none ↦ ((b, plain not_found), s)
            | some r ↦ (r, s)
          ]).0.1
  unfolding AnswersFile
  file_or_error none b s h = plain-Answered not_found refl
  file_or_error (some (c, calls)) b s h = h

  file_or_image-Answered :
      (path : List ℕ) (b : Sender) (s : D.State) → Answered (file_or_image D path b s).0.1
  unfolding file_or_image
  file_or_image-Answered path b s = elim (Option-cases (split_path path)) [
    | inr ((front, name), e) ↦ elim (Bool-cases (D.chdir front s).0) [
      | inl f ↦ rw (e, f, file_or_image) (plain-Answered not_found refl)
      | inr f ↦
          rw (e, f, file_or_image) (file_or_error _ b _ (file_answers name b (D.chdir front s).1))
    ]
    | inl e ↦ elim (Option-cases (split_last b'.' path)) [
      | inl f ↦ rw (e, f, file_or_image) (plain-Answered not_found refl)
      | inr ((front, back), f) ↦ elim (Bool-cases (D.chdir front s).0) [
        | inl g ↦ rw (e, f, g, file_or_image) (plain-Answered not_found refl)
        | inr g ↦ rw (e, f, g, file_or_image) (image-Answered b (D.chdir front s).1)
      ]
    ]
  ]

  root-Answered : (b : Sender) (s : D.State) → Answered (root D b s).1
  unfolding Answered root
  root-Answered b s = (html, refl, send_page-Marks root_head (root_rows (D.devices s)) table_foot b)

  -- On disks on which no file is empty (its first read brings a byte) and every image has a sector,
  -- the server answers every request with one response: the first call of `httpd_send_response` has
  -- a header, and those behind it have none.
  pub http_server-Answered :
      (method path : List ℕ) (b : Sender) (s : D.State)
      → Answered (http_server D method path b s).0.1
  unfolding http_server
  http_server-Answered method path b s =
      elim (Bool-cases (not (same_word method (codes "get")) || not (get_or path 0 0 == b'/'))) [
        | inl e ↦ rw e (plain-Answered server_error refl)
        | inr e ↦ rw e (elim (Bool-cases (get_or path 1 0 == 0)) [
          | inl f ↦ rw f (root-Answered b s)
          | inr f ↦ rw f (elim (Bool-cases (D.chdir path s).0) [
            | inl g ↦ rw g (file_or_image-Answered path b (D.chdir path s).1)
            | inr g ↦ rw g (directory-Answered path b (D.chdir path s).1)
          ])
        ])
      ]
