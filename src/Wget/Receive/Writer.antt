-- ===== src/Wget/Receive/Writer.antt =====
-- What `write_file` relies on in the C library's files.
use ip.Common.{ℕ, ◌≡◌, sym, ◌∙◌, ap, List, [], ◌++◌}
use ip.Common.{some, take, drop, length, append_assoc, take-append-drop}
use ip.Wget.Receive.{Files}

-- What the C library says of a file that is written from its begin.
pub record IsWriter (F : Files) : Type 0 where
  pub contents : ℕ → F.State → List ℕ
  pub contents-open :
      (name : List ℕ) (f : F.State) {file : ℕ}
      → (F.open_file name f).0 ≡ some file
      → contents file (F.open_file name f).1 ≡ []
  -- A complete write appends, and any write appends a part.
  pub contents-write :
      (file : ℕ) (bytes : List ℕ) (f : F.State)
      → (F.write_file file bytes f).0 ≡ length bytes
      → contents file (F.write_file file bytes f).1 ≡ contents file f ++ bytes
  pub contents-write_part :
      (file : ℕ) (bytes : List ℕ) (f : F.State)
      → (n : ℕ) × (contents file (F.write_file file bytes f).1 ≡ contents file f ++ take n bytes)
  pub contents-close :
      (file : ℕ) (f : F.State) → contents file (F.close_file file f).1 ≡ contents file f

-- The one list is the begin of the other.
abbrev pub Begins : List ℕ → List ℕ → Type 0
Begins part whole = (rest : List ℕ) × (part ++ rest ≡ whole)

-- A part of what comes next still makes a begin.
pub Begins-part :
    (base part tail whole : List ℕ) (n : ℕ)
    → base ++ (part ++ tail) ≡ whole
    → Begins (base ++ take n part) whole
Begins-part base part tail whole n e = (
  drop n part ++ tail,
  append_assoc base (take n part) (drop n part ++ tail)
      ∙ (ap (λ r. base ++ r)
            (sym (append_assoc (take n part) (drop n part) tail)
              ∙ ap (λ r. r ++ tail) (take-append-drop n part))
          ∙ e),
)
