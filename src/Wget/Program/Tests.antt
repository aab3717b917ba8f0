-- ===== src/Wget/Program/Tests.antt =====
-- apps/wget65.c: transfers over the socket of Socket.Script, into a file in memory.
use ip.Common.{ℕ, ◌≡◌, refl, true, false, List, [], ◌∷◌, ◌++◌}
use ip.Common.{replicate, arith, length-replicate}
use ip.Common.Chars.{codes}
use ip.Socket.Script.{
  Script, script_socket, script_socket-IsReceiver, script_socket-IsSender, script_socket-IsDuplex,
}
use ip.Wget.Receive.{buffer_size}
use ip.Wget.Receive.Memory.{memory, memory-IsWriter}
use ip.Wget.Device.Memory.{disk}
use ip.Common.{some, none}
use ip.Common.{◌+◌}
use ip.Startup.{System}
use ip.Wget.Arguments.{Url, Terminal}
use ip.Wget.Program.{main}
use ip.Wget.Program.Whole.{EndCloses, main-EndCloses}
use ip.Wget.Program.{Network, transfer, program_path}
use ip.Wget.Program.Body.{TransferSaves, transfer-TransferSaves}

-- A W5100 that is always connected at once.
abbrev network : Network script_socket
network = record {
  w5100_init = λ slot s. (false, s);
  w5100_config = λ s. s;
  w5100_connect_addr = λ addr port s. (true, s);
  w5100_connect_name = λ name length port s. (true, s);
}

abbrev url : Url
url = record { url_host = codes "peer"; url_ip = 5; url_port = 80; url_selector = codes "GET /" }

abbrev server : Script
server = record {
  incoming = codes "HTTP/1.1 200" ++ ((13 ∷ 10 ∷ 13 ∷ 10 ∷ []) ++ codes "body");
  position = 0;
  pauses = 0;
  sent = [];
  hung_up = false;
}

abbrev before : List ℕ
before = 0 ∷ 0 ∷ 0 ∷ []

abbrev room : List ℕ
room = replicate buffer_size 0

abbrev blank : ℕ → List ℕ
blank num = []

transfer-TransferSaves_example :
    TransferSaves script_socket script_socket-IsReceiver script_socket-IsSender
      script_socket-IsDuplex network memory memory-IsWriter disk before 3 server.incoming
      (transfer script_socket network memory disk 60 false url 0
        (codes "F")
        before
        (codes "F")
        before
        room
        server
        []
        blank)
unfolding script_socket-IsReceiver script_socket-IsSender ip.Http.is_end ip.Wget.Program.connect_url
transfer-TransferSaves_example =
    transfer-TransferSaves script_socket script_socket-IsReceiver script_socket-IsSender
      script_socket-IsDuplex network memory memory-IsWriter disk 60 16 3 false url (codes "F")
      before (codes "F") before room server server [] blank refl refl tt tt (omega arith)
      (length-replicate {A = ℕ} buffer_size 0) (omega arith) (omega arith) refl (omega arith)
      (omega arith)

path_of_program : program_path (codes "/IP65/WGET65") ≡ codes "/IP65/"
unfolding program_path
path_of_program = refl

path_of_file : program_path (codes "WGET65") ≡ []
unfolding program_path
path_of_file = refl

abbrev system : System
system = record {
  State = ℕ;
  open_file = λ name y. (some 3, y);
  read_file = λ file count y. (5 ∷ [], y);
  close_file = λ file y. y;
  ip65_init = λ slot y. (false, y);
  dhcp_init = λ y. (false, y);
}

-- Every URL is accepted.
abbrev terminal : Terminal
terminal = record {
  State = ℕ;
  linenoise = λ prompt u. (none, u);
  history_reset = λ u. 0;
  history_load = λ name u. u;
  history_save = λ name u. u;
  history_add = λ val u. u + 1;
  url_parse = λ text resolve u. (some url, u);
  device_dir = λ device u. none;
  get_char = λ u. (b'y', u);
}

abbrev argv : List (List ℕ)
argv = codes "WGET65" ∷ codes "peer/f" ∷ codes "F" ∷ []

main-EndCloses_example : EndCloses system script_socket network memory disk terminal argv (
    main system script_socket network memory disk terminal argv 60 3 0
      (codes "/IP65/WGET65")
      before
      before
      room
      0
      server
      []
      blank
      0)
main-EndCloses_example =
    main-EndCloses system script_socket network memory disk terminal argv 60 3 0
      (codes "/IP65/WGET65") before before room 0 server [] blank 0
