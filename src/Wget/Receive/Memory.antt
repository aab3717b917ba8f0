-- ===== src/Wget/Receive/Memory.antt =====
-- A disk with one file in memory, which shows that the laws of Wget.Receive.Writer can be met.
use ip.Common.{ℕ, ◌≡◌, refl, sym, ap, false, List, [], ◌∷◌, ◌++◌}
use ip.Common.{some, take, length}
use ip.Wget.Receive.{Files}
use ip.Wget.Receive.Writer.{IsWriter}

-- One file, with the handle 3, on a disk with room for all of it.
abbrev pub memory : Files
memory = record {
  State = List ℕ;
  open_file = λ name f. (some 3, []);
  write_file = λ file bytes f. (length bytes, f ++ bytes);
  close_file = λ file f. (false, f);
}

take_whole : (xs : List ℕ) → take (length xs) xs ≡ xs
take_whole [] = refl
take_whole (x ∷ xs) = ap (λ r. x ∷ r) (take_whole xs)

pub memory-IsWriter : IsWriter memory
memory-IsWriter = record {
  contents = λ file f. f;
  contents-open = λ name f opened. refl;
  contents-write = λ file bytes f full. refl;
  contents-write_part = λ file bytes f. (length bytes, ap (λ r. f ++ r) (sym (take_whole bytes)));
  contents-close = λ file f. refl;
}
