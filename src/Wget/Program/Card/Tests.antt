-- ===== src/Wget/Program/Card/Tests.antt =====
-- apps/wget65.c: a transfer over the driver and the card of W5100.Ring.
use ip.Common.{ℕ, false, List, [], ◌∷◌, ◌++◌}
use ip.Common.{replicate, arith}
use ip.Common.Chars.{codes}
use ip.Common.{◌<◌, ◌==◌, ◌||◌, if◌then◌else◌}
use ip.W5100.Interface.{driver_socket}
use ip.W5100.Ring.{Card, driver, card}
use ip.Wget.Receive.{buffer_size}
use ip.Wget.Receive.Memory.{memory}
use ip.Wget.Device.Memory.{disk}
use ip.Wget.Arguments.{Url}
use ip.Wget.Program.{Network, connect_url}
use ip.Wget.Program.Card.{driver_network}

abbrev url : Url
url = record { url_host = codes "peer"; url_ip = 5; url_port = 80; url_selector = codes "GET /" }

abbrev incoming : List ℕ
incoming = codes "HTTP/1.1 200" ++ ((13 ∷ 10 ∷ 13 ∷ 10 ∷ []) ++ codes "body")

-- The pointers stand in front of the end of the memory, so that the response goes on at its begin.
abbrev fresh : Card
fresh = record {
  at = 0;
  regs = λ a.
      if a == 0x0524 || a == 0x0528 then 0x1F else (if a == 0x0525 || a == 0x0529 then 0xFA else 0);
  status = 0;
  alive = 30;
  incoming = incoming;
  rx_base = 0x1FFA;
  sent = [];
  tx_base = 0x1FFA;
}

abbrev before : List ℕ
before = 0 ∷ 0 ∷ 0 ∷ []

abbrev room : List ℕ
room = replicate buffer_size 0

abbrev blank : ℕ → List ℕ
blank num = []

abbrev N : Network (driver_socket card driver 4)
N = driver_network card driver 4 (λ eth_init c. (false, c)) (λ c. c)

abbrev open_card : Card
open_card = (connect_url (driver_socket card driver 4) N memory disk false url fresh).1

abbrev four : 2 < 4
four = omega arith
