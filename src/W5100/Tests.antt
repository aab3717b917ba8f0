-- ===== src/W5100/Tests.antt =====
-- A card in memory, and the driver's theorems on it.
use ip.Common.{ℕ, ◌+◌, ◌*◌, ◌/◌, ◌%◌, ◌≡◌, refl, Bool, true, false, ◌==◌, if◌then◌else◌}
use ip.Common.{Option, none, some, arith, ◌&&◌}
use ip.W5100.{Machine, Driver, set_ports, settle}
use ip.W5100.{w5100_connect_addr, w5100_data_request}
use ip.W5100.{w5100_data_commit}
use ip.W5100.Bus.{IsChip}
use ip.W5100.Commit.{KeepsPointers, Commits, w5100_data_commit-Commits}
use ip.Common.{◌<◌}
use ip.W5100.Ports.{set_ports_lem}
use ip.W5100.Window.{IsArea, Granted, w5100_data_request-Granted, Agrees, settle-Agrees}
use ip.W5100.Configuration.{IsSplit, IsBehind, Address, w5100_config-Configures}
use ip.W5100.Receiving.Receiver.{IsReceivingArea}
use ip.W5100.Sending.Sender.{IsSendingArea}
use ip.W5100.{w5100_config}
use ip.Common.{◌||◌}
use ip.W5100.Connection.{Requested, w5100_connect_addr-Requested}

record Card : Type 0 where
  at : ℕ
  mem : ℕ → ℕ

-- The ports of slot 3.
abbrev card_driver : Driver
card_driver = record {
  w5100_mode = 0xC0B4;
  w5100_addr_hi = 0xC0B5;
  w5100_addr_lo = 0xC0B6;
  w5100_data = 0xC0B7;
  receiving = record { basis = 0x7000; limit = 0x8000; mask = 0x0FFF };
  sending = record { basis = 0x5000; limit = 0x6000; mask = 0x0FFF };
}

-- OPEN and CONNECT change the status register at once.
abbrev written : ℕ → ℕ → (ℕ → ℕ) → ℕ → ℕ
written a v mem x =
    if a == x
    then v
    else (if a == 0x0501 && x == 0x0503 then (if v == 4 then 0x17 else 0x13) else mem x)

abbrev card_store : ℕ → ℕ → Card → Card
card_store port v c =
    if port == 0xC0B5
    then record c { at = v * 256 + c.at % 256 }
    else (if port == 0xC0B6
        then record c { at = c.at / 256 * 256 + v }
        else (if port == 0xC0B7 then record { at = c.at + 1; mem = written c.at v c.mem } else c))

abbrev card : Machine
card = record {
  State = Card;
  load = λ port c. (c.mem c.at, record c { at = c.at + 1 });
  store = card_store;
  abort_key = λ c. (false, c);
  random_word = λ c. (0x1234, c);
}

card-IsChip : IsChip card card_driver
card-IsChip = record {
  address = λ c. c.at;
  memory = λ c. c.mem;
  address-store_hi = λ v c h. refl;
  address-store_lo = λ v c h. refl;
  load-data = λ c. refl;
  address-load = λ c h. refl;
  address-store = λ v c h. refl;
  memory-store_hi = λ v c a h. refl;
  memory-store_lo = λ v c a h. refl;
  memory-load = λ c a h. refl;
  memory-store = λ v c a h. ground arith;
  memory-abort_key = λ c a h. refl;
  memory-random_word = λ c a h. refl;
}

-- 0x60 bytes have been received from the pointer 0x1FE0 on: 32 of them up to the end of the memory.
abbrev contents : ℕ → ℕ
contents a =
    if a == 0x0527 then 0x60 else (if a == 0x0528 then 0x1F else (if a == 0x0529 then 0xE0 else 0))

abbrev fresh : Card
fresh = record { at = 0; mem = contents }

set_ports_lem_example :
    let p = set_ports 3 card_driver in
    (p.w5100_mode ≡ 0xC0B4)
    × (p.w5100_addr_hi ≡ 0xC0B5)
    × (p.w5100_addr_lo ≡ 0xC0B6)
    × (p.w5100_data ≡ 0xC0B7)
set_ports_lem_example = set_ports_lem 3 card_driver (omega arith)

-- 4 KB for socket 0 and 2 KB for socket 1.
abbrev split : Card
split = record { at = 0; mem = λ a. if a == 0x001A || a == 0x001B then 0x06 else 0 }

six-IsSplit : IsSplit 0x06
six-IsSplit = record { is_byte = omega arith; order = omega arith; fits = omega arith }

w5100_config-Configures_example :
    let (d1, c1) = w5100_config card 0x0100A8C0 0x00FFFFFF 0xFE00A8C0 card_driver split in
    IsReceivingArea d1
    × IsBehind 0x6000 0x06 d1.receiving
    × IsSendingArea d1
    × IsBehind 0x4000 0x06 d1.sending
    × (record d1 { receiving = card_driver.receiving; sending = card_driver.sending } ≡ card_driver)
    × Address card card_driver card-IsChip 0x000F 0x0100A8C0 c1
    × Address card card_driver card-IsChip 0x0005 0x00FFFFFF c1
    × Address card card_driver card-IsChip 0x0001 0xFE00A8C0 c1
unfolding card-IsChip
w5100_config-Configures_example =
    w5100_config-Configures card card_driver card-IsChip 0x0100A8C0 0x00FFFFFF 0xFE00A8C0 split
      six-IsSplit six-IsSplit

receiving-IsArea : IsArea card_driver.receiving
receiving-IsArea = record {
  bits = 12;
  index = 7;
  mask_is = refl;
  basis_is = refl;
  limit_is = refl;
  limit-lt = omega arith;
}

w5100_data_request-Granted_example :
    Granted card card_driver card-IsChip card_driver.receiving 0x20
      (record { at = 0x7FE0; mem = contents })
unfolding w5100_data_request settle
w5100_data_request-Granted_example =
    w5100_data_request-Granted card card_driver card-IsChip 3 false fresh 0x20
      (record { at = 0x7FE0; mem = contents }) receiving-IsArea refl (omega arith)

settle-Agrees_example :
    Agrees card card_driver card-IsChip 0x0526 0 fresh 0x60 (record { at = 0x0528; mem = contents })
unfolding settle
settle-Agrees_example =
    settle-Agrees card card_driver card-IsChip 3 0x0526 0 fresh 0x60
      (record { at = 0x0528; mem = contents }) refl

abbrev state_of : Option (Bool × Card) → Card
state_of none = fresh
state_of (some (connected, c)) = c

-- The card after connecting to 192.168.0.1, port 80.
connected_card : Card
unfolding w5100_connect_addr
connected_card = state_of (w5100_connect_addr card card_driver 2 0x0100A8C0 80 fresh)

connects : w5100_connect_addr card card_driver 2 0x0100A8C0 80 fresh ≡ some (true, connected_card)
unfolding w5100_connect_addr connected_card
connects = refl

w5100_connect_addr-Requested_example :
    Requested card card_driver card-IsChip 0x0100A8C0 80 connected_card
w5100_connect_addr-Requested_example =
    w5100_connect_addr-Requested card card_driver card-IsChip 2 0x0100A8C0 80 fresh true
      connected_card connects

card-KeepsPointers : KeepsPointers card card_driver card-IsChip
unfolding card-IsChip
card-KeepsPointers = record {
  pointer-store_hi = λ v c a h. refl;
  pointer-store_lo = λ v c a h. refl;
  pointer-load = λ c a h. refl;
  pointer-store = λ v c a h elsewhere. ground arith;
}

contents-lt : (a : ℕ) → contents a < 256
contents-lt a = ground arith

w5100_data_commit-Commits_example :
    Commits card card_driver card-IsChip card-KeepsPointers false 0x20 fresh
      (w5100_data_commit card card_driver false 0x20 fresh)
unfolding card-IsChip
w5100_data_commit-Commits_example =
    w5100_data_commit-Commits card card_driver card-IsChip card-KeepsPointers false 0x20 fresh
      contents-lt
