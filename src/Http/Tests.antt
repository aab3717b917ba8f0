-- ===== src/Http/Tests.antt =====
-- A response over the socket of Socket.Script.
use ip.Common.{ℕ, ◌≡◌, refl, false, List, [], ◌∷◌, ◌++◌}
use ip.Common.{replicate, arith}
use ip.Common.Chars.{codes}
use ip.Socket.Script.{Script, script_socket}
use ip.Http.{opened, status, judge, fill}
use ip.Common.{none, true, ◌+◌}
use ip.Socket.{Socket}
use ip.Socket.Script.{script_socket-IsReceiver, script_socket-IsSender}
use ip.Http.{receive_header, is_end, send_selector}
use ip.Http.Response.{Receives, receive_header_lem}
use ip.Http.Endless.{StaysUp, receive_header-full}
use ip.Http.Request.{Sends, send_selector-Sends}
use ip.Http.{w5100_http_open_connected}
use ip.Http.Opening.{Opens, w5100_http_open-Opens}
use ip.Socket.Script.{script_socket-IsDuplex}
use ip.Http.Header.{FillsHeader, fill-FillsHeader}

abbrev crlf : List ℕ
crlf = 13 ∷ 10 ∷ []

abbrev server : Script
server = record {
  incoming = codes "HTTP/1.1 200" ++ crlf ++ crlf ++ codes "body";
  position = 0;
  pauses = 0;
  sent = [];
  hung_up = false;
}

abbrev before : List ℕ
before = 0 ∷ 0 ∷ 0 ∷ []

fill-FillsHeader_example :
    FillsHeader script_socket before 20 0
      (replicate 32 0)
      server
      (fill script_socket before 20 0 (replicate 32 0) server)
fill-FillsHeader_example =
    fill-FillsHeader script_socket before 20 0 (replicate 32 0) server (omega arith)

fill_stops : (fill script_socket before 20 0 (replicate 32 0) server).1 ≡ 16
unfolding fill
fill_stops = refl

judge_ok : (judge (codes "HTTP/1.1 200 OK" ++ crlf)).0 ≡ opened
unfolding judge
judge_ok = refl

judge_missing : (judge (codes "HTTP/1.1 404 No" ++ crlf)).0 ≡ status (codes " 404 No")
unfolding judge
judge_missing = refl

abbrev room : List ℕ
room = replicate 32 0

receive_header_lem_example :
    Receives script_socket script_socket-IsReceiver before server.incoming 32 32 20
      (omega arith)
      (receive_header script_socket 30 before 32 0 room server)
unfolding script_socket-IsReceiver is_end
receive_header_lem_example =
    receive_header_lem script_socket script_socket-IsReceiver before 32 30 16 room server
      (omega arith) tt (omega arith) (omega arith) (omega arith) refl (omega arith)

-- A peer that sends the same byte for ever.
abbrev endless : Socket
endless = record {
  State = ℕ;
  abort_key = λ s. (false, s);
  connected = λ s. (true, s);
  receive_request = λ s. (7, s);
  send_request = λ s. (7, s);
  read = λ s. (65, s + 1);
  write = λ b s. s;
  receive_commit = λ n s. s;
  send_commit = λ n s. s;
  disconnect = λ s. s;
}

endless-StaysUp : StaysUp endless
endless-StaysUp = record { no_key = λ s. refl; up = λ s. refl }

receive_header-full_example : receive_header endless 100 before 32 32 room 0 ≡ none
receive_header-full_example =
    receive_header-full endless endless-StaysUp before 32 100 room 0 (omega arith) (omega arith)

send_selector-Sends_example :
    Sends script_socket script_socket-IsSender
      (codes "GET /")
      server.sent
      (send_selector script_socket 9 (codes "GET /") 0 5 server)
unfolding script_socket-IsSender
send_selector-Sends_example =
    send_selector-Sends script_socket script_socket-IsSender 9 (codes "GET /") server tt
      (omega arith) (omega arith)

w5100_http_open-Opens_example :
    Opens script_socket script_socket-IsReceiver before 32 20 server.incoming
      (w5100_http_open_connected script_socket 30 (codes "GET /") before room 32 (true, server))
unfolding script_socket-IsReceiver script_socket-IsSender is_end
w5100_http_open-Opens_example =
    w5100_http_open-Opens script_socket script_socket-IsReceiver script_socket-IsSender
      script_socket-IsDuplex before 32 30 16 (codes "GET /") room server tt tt (omega arith)
      (omega arith) refl (omega arith) (omega arith) refl (omega arith) (omega arith)
