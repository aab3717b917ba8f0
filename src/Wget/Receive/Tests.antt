-- ===== src/Wget/Receive/Tests.antt =====
-- A download over the socket of Socket.Script into one file in memory.
use ip.Common.{ℕ, refl, false, List, []}
use ip.Common.{replicate, arith, length-replicate}
use ip.Common.Chars.{codes}
use ip.Socket.Script.{Script, script_socket, script_socket-IsReceiver}
use ip.Wget.Receive.{buffer_size, write_file}
use ip.Wget.Receive.Memory.{memory, memory-IsWriter}
use ip.Wget.Receive.Laws.{Finishes, write_file-Finishes}

abbrev peer : Script
peer = record {
  incoming = codes "hello, world";
  position = 0;
  pauses = 2;
  sent = [];
  hung_up = false;
}

abbrev empty_buffer : List ℕ
empty_buffer = replicate buffer_size 0

write_file-Finishes_example :
    Finishes script_socket script_socket-IsReceiver memory memory-IsWriter 3
      (codes "hello, world")
      (write_file script_socket memory 20 (codes "F") empty_buffer peer [])
unfolding script_socket-IsReceiver
write_file-Finishes_example =
    write_file-Finishes script_socket script_socket-IsReceiver memory memory-IsWriter 20 (codes "F")
      empty_buffer peer [] 3 tt (length-replicate {A = ℕ} buffer_size 0) refl (omega arith)
