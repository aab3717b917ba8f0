-- ===== src/Hfs/Program/Tests.antt =====
-- apps/hfs65.c: a run of the server with two requests.
use ip.Common.{
  ℕ, ◌≡◌, ◌≢◌, refl, ap, ◌∙◌, Option, length, arith, false, List, [], ◌∷◌, none, some, replicate,
}
use ip.Common.Chars.{codes}
use ip.Startup.{System}
use ip.Hfs.Send.{Sender, noheader, buffer_size}
use ip.Hfs.Server.{Disks, file_parts}
use ip.Hfs.Program.{Request, Host, main}
use ip.Hfs.Program.Session.{session, IsHost, Served, main-Served}

-- The state is the current directory: "/" or "/d".
abbrev disks : Disks
disks = record {
  State = List ℕ;
  chdir = λ path s. (false, path);
  devices = λ s. [];
  entries = λ s. some [];
  reads = λ name s. some (codes "xyz" ∷ [] ∷ []);
  sector_size = λ s. 512;
  sectors = λ s. some (replicate 512 0 ∷ []);
}

abbrev parts_of : Option (List (List ℕ)) → List (List ℕ)
parts_of none = []
parts_of (some parts) = parts

full_files :
    (name s : List ℕ) (parts : List (List ℕ))
    → disks.reads name s ≡ some parts
    → file_parts parts ≢ []
unfolding file_parts
full_files name s parts e h =
    let size : 1 ≡ 0 = ap (λ o. length (file_parts (parts_of o))) e ∙ ap length h in
    absurd (omega (arith, size))

full_disks : (s : List ℕ) (parts : List (List ℕ)) → disks.sectors s ≡ some parts → parts ≢ []
full_disks s parts e h =
    let size : 1 ≡ 0 = ap (λ o. length (parts_of o)) e ∙ ap length h in absurd (omega (arith, size))

abbrev requests : List Request
requests =
    record { method = codes "GET"; path = codes "/d/f" }
    ∷ record { method = codes "POST"; path = codes "/" }
    ∷ []

abbrev host : Host disks
host = record { getcwd = λ s. s; httpd_start = λ port f s. session disks f requests s }

host-IsHost : IsHost disks host
host-IsHost = record {
  requests = λ s. requests;
  httpd_start-session = λ port f s. refl;
  getcwd-chdir = λ t t' fine. refl;
}

abbrev system : System
system = record {
  State = ℕ;
  open_file = λ name s. (none, s);
  read_file = λ file count s. ([], s);
  close_file = λ file s. s;
  ip65_init = λ slot s. (false, s);
  dhcp_init = λ s. (false, s);
}

abbrev idle : Sender
idle = record { send_buffer = replicate buffer_size 0; send_size = 0; send_type = noheader }

main-Served_example :
    Served disks host (codes "/home") (main system disks host 3 idle 0 (codes "/home"))
main-Served_example =
    main-Served disks full_files full_disks system host host-IsHost 3 idle 0 (codes "/home")
      (λ t'. refl)

comes_home : (main system disks host 3 idle 0 (codes "/home")).1 ≡ codes "/home"
unfolding main ip.Startup.start
comes_home = refl
