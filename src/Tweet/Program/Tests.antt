-- ===== src/Tweet/Program/Tests.antt =====
-- apps/tweet65.c: a run in which the key and the text are typed.
use ip.Common.{ℕ, ◌≤◌, ◌≡◌, refl, false, List, [], ◌∷◌, ◌++◌, none, some, arith, length}
use ip.Common.Chars.{codes}
use ip.Startup.{System}
use ip.Tweet.Program.{Saver, main, no_text, no_key, key_size}
use ip.Tweet.Typing.{c_string}
use ip.Tweet.Program.Request.{HasUrl, main-HasUrl}

-- The state is what has been saved.
abbrev system : System
system = record {
  State = List ℕ;
  open_file = λ name s. (none, s);
  read_file = λ file count s. (codes "k", s);
  close_file = λ file s. s;
  ip65_init = λ slot s. (false, s);
  dhcp_init = λ s. (false, s);
}

abbrev saver : Saver system
saver = record {
  create_file = λ name s. (some 4, s);
  write_file = λ file bytes s. s ++ bytes;
  url_download = λ s url. ((15, codes "HTTP/1.1 200 OK"), none);
}

abbrev ascii : ℕ → ℕ
ascii c = c

abbrev typing : List ℕ
typing = codes "secret" ++ (13 ∷ codes "hi!" ++ 13 ∷ [])

key_file :
    (file : ℕ) (s : List ℕ)
    → (length (system.read_file file key_size s).0 ≤ key_size)
      × (length (c_string (system.read_file file key_size s).0) ≤ 80)
unfolding c_string
key_file file s = (omega arith, omega arith)

main-HasUrl_example :
    HasUrl system saver 127 13 key_file ascii (main system saver 127 13 ascii 3 [] typing [])
main-HasUrl_example = main-HasUrl system saver 127 13 key_file ascii 3 [] typing []

no_key_typed : main system saver 127 13 ascii 3 [] (13 ∷ []) [] ≡ some no_key
unfolding main ip.Tweet.input
no_key_typed = refl

no_text_typed : main system saver 127 13 ascii 3 [] (codes "k" ++ (13 ∷ 13 ∷ [])) [] ≡ some no_text
unfolding main ip.Startup.start ip.Tweet.input
no_text_typed = refl
