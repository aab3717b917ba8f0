-- ===== src/Wget/Arguments/Tests.antt =====
-- apps/wget65.c: arguments of a command line without a user.
use ip.Common.{ℕ, ◌+◌, ◌≡◌, refl, true, false, Bool, List, [], ◌∷◌, none, some}
use ip.Common.Chars.{codes}
use ip.Wget.Device.Memory.{disk}
use ip.Wget.Arguments.{Terminal, choose_url, choose_file, check_drive}
use ip.Wget.Arguments.Chosen.{Chosen, choose_file-Chosen}
use ip.Wget.Arguments.Endless.{choose_url-refused, choose_file-malformed}

-- It counts the arguments that are entered in the history; no URL is accepted, every disk has a
-- ProDOS volume, and the key is always "y".
abbrev terminal : Terminal
terminal = record {
  State = ℕ;
  linenoise = λ prompt u. (none, u);
  history_reset = λ u. u;
  history_load = λ name u. u;
  history_save = λ name u. u;
  history_add = λ val u. u + 1;
  url_parse = λ url resolve u. (none, u);
  device_dir = λ device u. some (codes "/DISK/");
  get_char = λ u. (b'y', u);
}

abbrev argv : List (List ℕ)
argv = codes "WGET65" ∷ codes "no url" ∷ codes "!S9" ∷ []

choose_url-refused_example : choose_url terminal argv 50 false 0 ≡ none
choose_url-refused_example =
    choose_url-refused terminal argv (codes "no url") 50 false 0 refl (λ u'. refl)

choose_file-malformed_example : choose_file terminal argv disk 50 (λ num. []) 0 ≡ none
unfolding ip.Wget.Drive.parse_drive
choose_file-malformed_example =
    choose_file-malformed terminal argv (codes "!S9") disk 50 (λ num. []) 0 refl refl refl

clobbered : (check_drive terminal disk 1 (λ num. []) 0).0 ≡ true
unfolding check_drive ip.Common.Chars.to_upper
clobbered = refl

asked : choose_url terminal [] 1 false 0 ≡ some (none, 0)
unfolding choose_url
asked = refl

abbrev drive_argv : List (List ℕ)
drive_argv = codes "WGET65" ∷ codes "peer" ∷ codes "!S6,D1" ∷ []

choose_file-Chosen_example :
    Chosen terminal drive_argv disk (choose_file terminal drive_argv disk 2 (λ num. []) 0)
choose_file-Chosen_example = choose_file-Chosen terminal drive_argv disk 2 (λ num. []) 0
