-- ===== src/Hfs/Server/Tests.antt =====
-- apps/hfs65.c: requests to a disk with one directory that holds one file.
use ip.Common.{
  ℕ, ◌≡◌, ◌≢◌, refl, ap, ◌∙◌, Option, length, arith, true, false, List, [], ◌∷◌, none, some,
  replicate, if◌then◌else◌,
}
use ip.Common.Chars.{codes}
use ip.Hfs.Send.{Sender, noheader, file_data, not_found, server_error, buffer_size}
use ip.Hfs.Page.{Kind}
use ip.Hfs.Server.{Disks, http_server, same_word, plain, file_parts}
use ip.Hfs.Server.Answers.{Answered, http_server-Answered}

abbrev disks : Disks
disks = record {
  State = ℕ;
  chdir = λ path s. if same_word path (codes "/d") then (false, 1) else (true, s);
  devices = λ s. [];
  entries = λ s. some [];
  reads = λ name s. if same_word name (codes "f") then some (codes "xyz" ∷ [] ∷ []) else none;
  sector_size = λ s. 512;
  sectors = λ s. none;
}

abbrev idle : Sender
idle = record { send_buffer = replicate buffer_size 0; send_size = 0; send_type = noheader }

serves_file :
    (http_server disks (codes "GET") (codes "/d/f") idle 0).0.1
    ≡ record { response = file_data; bytes = codes "xyz" } ∷ []
unfolding http_server ip.Hfs.Page.split_path
serves_file = refl

misses_file : (http_server disks (codes "GET") (codes "/d/g") idle 0).0.1 ≡ plain not_found
unfolding http_server ip.Hfs.Page.split_path
misses_file = refl

refuses_post : (http_server disks (codes "POST") (codes "/d/f") idle 0).0.1 ≡ plain server_error
unfolding http_server ip.Hfs.Page.split_path
refuses_post = refl

-- A disk on which every file can be opened.
abbrev open_disks : Disks
open_disks = record {
  State = ℕ;
  chdir = λ path s. if same_word path (codes "/d") then (false, 1) else (true, s);
  devices = λ s. [];
  entries = λ s. some [];
  reads = λ name s. some (codes "xyz" ∷ [] ∷ []);
  sector_size = λ s. 512;
  sectors = λ s. some (replicate 512 0 ∷ []);
}

abbrev parts_of : Option (List (List ℕ)) → List (List ℕ)
parts_of none = []
parts_of (some parts) = parts

full_files :
    (name : List ℕ) (s : ℕ) (parts : List (List ℕ))
    → open_disks.reads name s ≡ some parts
    → file_parts parts ≢ []
unfolding file_parts
full_files name s parts e h =
    let size : 1 ≡ 0 = ap (λ o. length (file_parts (parts_of o))) e ∙ ap length h in
    absurd (omega (arith, size))

full_disks : (s : ℕ) (parts : List (List ℕ)) → open_disks.sectors s ≡ some parts → parts ≢ []
full_disks s parts e h =
    let size : 1 ≡ 0 = ap (λ o. length (parts_of o)) e ∙ ap length h in absurd (omega (arith, size))

http_server-Answered_example :
    Answered (http_server open_disks (codes "GET") (codes "/d/f") idle 0).0.1
http_server-Answered_example =
    http_server-Answered open_disks full_files full_disks (codes "GET") (codes "/d/f") idle 0
