-- ===== src/W5100/Ring/Tests.antt =====
-- The driver over the card in memory, where the pointers stand in front of the end of its memory.
use ip.Common.{◌^◌, ◌<◌, ◌≤◌, ◌≡◌, ◌==◌, ◌||◌, if◌then◌else◌, refl, [], ◌∷◌}
use ip.Common.{arith}
use ip.Socket.{fetch, put}
use ip.W5100.Card.{socket, Rested}
use ip.W5100.Exchange.{Exchange, Queues, received, start, next, receives, sends, exchange-Queues}
use ip.W5100.Ring.{Card, driver, card}
use ip.W5100.Ring.Receives.{card-IsReceivingCard}
use ip.W5100.Ring.Sends.{card-IsSendingCard}
use ip.W5100.Ring.Answers.{card-IsSocketCard}

-- Both pointers are 0x1FFE.
abbrev at_end : Card
at_end = record {
  at = 0;
  regs = λ a.
      if a == 0x0524 || a == 0x0528 then 0x1F else (if a == 0x0525 || a == 0x0529 then 0xFE else 0);
  status = 0x17;
  alive = 30;
  incoming = 1 ∷ 2 ∷ 3 ∷ 4 ∷ [];
  rx_base = 0x1FFE;
  sent = 9 ∷ [];
  tx_base = 0x1FFE;
}

abbrev enough : 2 < 3
enough = omega arith

abbrev X : ip.W5100.Card.IsSocketCard card driver 3
X = card-IsSocketCard 3 enough

-- The first request grants the two bytes in front of the end of the memory, the next one the rest.
granted_at_end : ((socket card driver 3 X).receive_request at_end).0 ≡ 2
unfolding ip.W5100.w5100_data_request
granted_at_end = refl

abbrev half_read : Card
half_read = (fetch (socket card driver 3 X) 2 ((socket card driver 3 X).receive_request at_end).1).1

granted_at_begin : ((socket card driver 3 X).receive_request half_read).0 ≡ 2
unfolding ip.W5100.w5100_data_request ip.W5100.w5100_data_commit ip.W5100.Ring.write fetch
granted_at_begin = refl

read_at_begin :
    (fetch (socket card driver 3 X) 2 ((socket card driver 3 X).receive_request half_read).1).0
    ≡ 3 ∷ 4 ∷ []
unfolding ip.W5100.w5100_data_request ip.W5100.w5100_data_commit ip.W5100.Ring.write fetch
read_at_begin = refl

small_hi : 0x1F < 2 ^ 8
small_hi = omega arith

small_lo : 0xFE < 2 ^ 8
small_lo = omega arith

rested : Rested card driver 3 X at_end
unfolding card-IsSocketCard card-IsReceivingCard card-IsSendingCard
rested = (
  record { at_base = refl; byte_hi = small_hi; byte_lo = small_lo },
  record { at_base = refl; byte_hi = small_hi; byte_lo = small_lo },
)

read_granted : 2 ≤ ((socket card driver 3 X).receive_request at_end).0
unfolding ip.W5100.w5100_data_request
read_granted = omega arith

room_there : 1 ≤ 2
room_there = omega arith

two : 2 ≤ 2
two = omega arith

-- Two bytes, then one is sent, then the other two.
abbrev answered : Card
answered = put (socket card driver 3 X) (7 ∷ []) half_read

abbrev drained : Card
drained = (received card driver 3 X 2 answered).1

room_half : 1 ≤ ((socket card driver 3 X).send_request half_read).0
unfolding ip.W5100.w5100_data_request ip.W5100.w5100_data_commit ip.W5100.Ring.write fetch
room_half = room_there

granted_answered : 2 ≤ ((socket card driver 3 X).receive_request answered).0
unfolding ip.W5100.w5100_data_request ip.W5100.w5100_data_commit ip.W5100.Ring.write fetch
    ip.Socket.write_bytes
granted_answered = two

session : Exchange card driver 3 X at_end drained (1 ∷ 2 ∷ 3 ∷ 4 ∷ []) (7 ∷ [])
unfolding ip.W5100.w5100_data_request ip.W5100.w5100_data_commit ip.W5100.Ring.write fetch
    ip.Socket.write_bytes
session =
    next (next (next start (receives 2 at_end read_granted)) (sends (7 ∷ []) half_read room_half))
      (receives 2 answered granted_answered)

exchange-Queues_example : Queues card driver 3 X at_end drained (1 ∷ 2 ∷ 3 ∷ 4 ∷ []) (7 ∷ [])
exchange-Queues_example = exchange-Queues card driver 3 X rested session
