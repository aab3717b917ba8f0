-- ===== src/W5100/Waiting/Tests.antt =====
-- A card in memory that takes two rounds to open a socket, to connect it and to take a command, and a
-- user who never presses the abort key.
use ip.Common.{
  ℕ, ◌+◌, ◌-◌, ◌*◌, ◌/◌, ◌%◌, ◌<◌, ◌≡◌, ◌≢◌, refl, ap, false, ◌==◌, if◌then◌else◌, ◌&&◌, ◌||◌,
}
use ip.Common.{arith, bit_or, sym, Option, none, some, Bool, true, ◌∙◌, inl, inr}
use ip.Common.Chars.{codes}
use ip.W5100.{Machine, Driver, byte, sock_reg, get_byte, set_byte, get_word, set_addr}
use ip.W5100.Mode.{IsTcp}
use ip.W5100.{w5100_connect_addr, w5100_connect_name, w5100_disconnect, w5100_data_request}
use ip.W5100.Bus.{IsChip}
use ip.W5100.Window.{IsArea}
use ip.W5100.Waiting.{
  SettlesWithin, TakesWithin, ConnectsWithin, Connects, w5100_connect-Connects, Disconnects,
  w5100_disconnect-Disconnects, Answers, w5100_data_request-Answers,
}

record Card : Type 0 where
  at : ℕ
  mem : ℕ → ℕ
  status : ℕ
  next : ℕ
  delay : ℕ

-- The ports of slot 3.
abbrev driver : Driver
driver = record {
  w5100_mode = 0xC0B4;
  w5100_addr_hi = 0xC0B5;
  w5100_addr_lo = 0xC0B6;
  w5100_data = 0xC0B7;
  receiving = record { basis = 0x7000; limit = 0x8000; mask = 0x0FFF };
  sending = record { basis = 0x5000; limit = 0x6000; mask = 0x0FFF };
}

-- What is read: the status register shows the next status, and the command register is clear, once
-- the delay is over.
abbrev shown : Card → ℕ → ℕ
shown c a =
    if a == 0x0503
    then (if c.delay % 3 == 0 then c.next else c.status)
    else (if a == 0x0501 then c.delay % 3 else c.mem a)

abbrev remember : ℕ → ℕ → (ℕ → ℕ) → ℕ → ℕ
remember a v mem x = if a == x then v else mem x

-- OPEN leads a TCP socket to SOCK_INIT; CONNECT leads from there to SOCK_ESTABLISHED.
abbrev command : ℕ → Card → Card
command v c =
    if v == 0x01 && (c.mem 0x0500 == 0x21 || c.mem 0x0500 == 0x29)
    then record c { at = c.at + 1; status = shown c 0x0503; next = 0x13; delay = 2 }
    else (if v == 0x04 && shown c 0x0503 == 0x13
        then record c { at = c.at + 1; status = 0x13; next = 0x17; delay = 2 }
        else record c { at = c.at + 1; status = shown c 0x0503; next = shown c 0x0503; delay = 2 })

abbrev card_store : ℕ → ℕ → Card → Card
card_store port v c =
    if port == 0xC0B5
    then record c { at = v * 256 + c.at % 256 }
    else (if port == 0xC0B6
        then record c { at = c.at / 256 * 256 + v }
        else (if port == 0xC0B7
            then (if c.at == 0x0501
                then command v c
                else record c { at = c.at + 1; mem = remember c.at v c.mem })
            else c))

abbrev card : Machine
card = record {
  State = Card;
  load = λ port c. (shown c c.at, record c { at = c.at + 1 });
  store = card_store;
  abort_key = λ c. (false, record c { delay = c.delay - 1 });
  random_word = λ c. (0x1234, c);
}

card-IsChip : IsChip card driver
card-IsChip = record {
  address = λ c. c.at;
  memory = shown;
  address-store_hi = λ v c h. refl;
  address-store_lo = λ v c h. refl;
  load-data = λ c. refl;
  address-load = λ c h. refl;
  address-store = λ v c h. ground arith;
  memory-store_hi = λ v c a h. refl;
  memory-store_lo = λ v c a h. refl;
  memory-load = λ c a h. refl;
  memory-store = λ v c a h. ground arith;
  memory-abort_key = λ c a h. ground arith;
  memory-random_word = λ c a h. refl;
}

-- A word of the memory.
abbrev word : ℕ → (ℕ → ℕ) → ℕ
word reg mem = let a = byte (reg / 256) * 256 + byte reg in bit_or (mem a * 256) (mem (a + 1))

at-set_addr :
    (reg : ℕ) (c : Card) → (set_addr card driver reg c).at ≡ byte (reg / 256) * 256 + byte reg
unfolding set_addr
at-set_addr reg c = omega arith

word_lem : (reg : ℕ) (c : Card) → (get_word card driver reg c).0 ≡ word reg (shown c)
unfolding get_word set_addr
word_lem reg c = ap (λ a. bit_or (shown c a * 256) (shown c (a + 1))) (at-set_addr reg c)

shown-get_word : (reg : ℕ) (c : Card) → shown (get_word card driver reg c).1 ≡ shown c
unfolding get_word set_addr
shown-get_word reg c = refl

-- The size is read as it is, so that the second reading gives the first.
abbrev unsettled : (reg size : ℕ) → Card → ℕ
unsettled reg size c = if word reg (shown c) == size then 0 else 1

unsettled-get_word :
    (reg size : ℕ) (c : Card)
    → (get_word card driver reg c).0 ≢ size
    → unsettled reg (get_word card driver reg c).0 (get_word card driver reg c).1
      < unsettled reg size c
unsettled-get_word reg size c differs =
    ground (arith, word_lem reg c, ap (word reg) (shown-get_word reg c))

card-SettlesWithin : SettlesWithin card driver 3
card-SettlesWithin = record {
  unsettled = unsettled;
  unsettled-le = λ reg size c. ground arith;
  unsettled-wait = unsettled-get_word;
}

card-TakesWithin : TakesWithin card driver 2
unfolding get_byte set_addr
card-TakesWithin = record {
  pending = λ c. c.delay % 3;
  pending-le = λ c. omega arith;
  pending-wait = λ c waits calm. ground arith;
}

set_byte-command :
    (v : ℕ) (c : Card)
    → set_byte card driver (sock_reg 0x01) v c
      ≡ command (byte v) (set_addr card driver (sock_reg 0x01) c)
unfolding set_byte
set_byte-command v c = rw (at-set_addr (sock_reg 0x01) c) refl

next-open : (c : Card) → IsTcp (c.mem 0x0500) → (command 0x01 c).next ≡ 0x13
next-open c (inl plain) = rw plain refl
next-open c (inr named) = rw named refl

next-connect : (c : Card) → shown c 0x0503 ≡ 0x13 → (command 0x04 c).next ≡ 0x17
next-connect c ready = rw ready refl

card-ConnectsWithin : ConnectsWithin card driver card-IsChip 2
unfolding get_byte set_addr card-IsChip
card-ConnectsWithin = record {
  Opening = λ c. c.next ≡ 0x13;
  opening = λ c. c.delay % 3;
  opening-command = λ c tcp.
      ap Card.next (set_byte-command 0x01 c)
      ∙ next-open (set_addr card driver (sock_reg 0x01) c) tcp;
  opening-le = λ c o. omega arith;
  opening-wait = λ c o waits calm. (o, ground arith);
  Connecting = λ c. c.next ≡ 0x17;
  connecting = λ c. c.delay % 3;
  connecting-command = λ c ready.
      let c1 = (get_byte card driver (sock_reg 0x03) c).1 in
      ap Card.next (set_byte-command 0x04 c1)
      ∙ next-connect (set_addr card driver (sock_reg 0x01) c1)
          (sym (ap (shown c) (at-set_addr (sock_reg 0x03) c)) ∙ ready);
  connecting-le = λ c o. omega arith;
  connecting-wait = λ c o alive waits calm. (o, ground arith);
}

-- 0x60 bytes have been received from the pointer 0x1FE0 on.
abbrev contents : ℕ → ℕ
contents a =
    if a == 0x0527 then 0x60 else (if a == 0x0528 then 0x1F else (if a == 0x0529 then 0xE0 else 0))

abbrev fresh : Card
fresh = record { at = 0; mem = contents; status = 0; next = 0; delay = 0 }

receiving-IsArea : IsArea driver.receiving
receiving-IsArea = record {
  bits = 12;
  index = 7;
  mask_is = refl;
  basis_is = refl;
  limit_is = refl;
  limit-lt = omega arith;
}

w5100_connect-Connects_example :
    Connects card driver (w5100_connect_addr card driver 3 0x0100A8C0 80 fresh)
    × Connects card driver (w5100_connect_name card driver 3 (codes "host") 4 80 fresh)
w5100_connect-Connects_example =
    w5100_connect-Connects card driver card-IsChip 2 card-ConnectsWithin 3 0x0100A8C0 80
      (codes "host") 4 fresh (omega arith) (omega arith)

w5100_disconnect-Disconnects_example :
    Disconnects card driver (w5100_disconnect card driver 3 fresh)
w5100_disconnect-Disconnects_example =
    w5100_disconnect-Disconnects card driver 2 card-TakesWithin 3 fresh (omega arith)

w5100_data_request-Answers_example :
    Answers card driver 3 card-SettlesWithin card-IsChip false
      (w5100_data_request card driver 4 false fresh)
w5100_data_request-Answers_example =
    w5100_data_request-Answers card driver 3 card-SettlesWithin card-IsChip 4 false fresh
      receiving-IsArea (omega arith)

-- The attempt succeeds, after one wait for each command.
abbrev succeeds : Option (Bool × Card) → Bool
succeeds none = false
succeeds (some (connected, c)) = connected

connects : succeeds (w5100_connect_addr card driver 3 0x0100A8C0 80 fresh) ≡ true
unfolding w5100_connect_addr
connects = refl
