-- ===== src/W5100/Ring.antt =====
-- A W5100 in memory, with 4 KB for each direction of socket 1.
pub mod Chip
pub mod Receives
pub mod Sends
pub mod Answers
mod Tests
use ip.Common.{
  ℕ, zero, suc, ◌+◌, ◌-◌, ◌*◌, ◌/◌, ◌%◌, ◌^◌, Bool, true, false, List, [], ◌∷◌, ◌++◌, ◌==◌, leb,
  ltb, ◌&&◌, if◌then◌else◌, min,
}
use ip.Common.{bit_and, bit_or, get_or, length, drop}
use ip.W5100.{Machine, Driver}

-- `at` is the address register, `incoming` what the peer sends behind the bytes that have been acknowledged up
-- to `rx_base`, `sent` what has been sent up to `tx_base`, and `alive` how often an address can still be
-- set before the peer hangs up.
pub record Card : Type 0 where
  pub at : ℕ
  pub regs : ℕ → ℕ
  pub status : ℕ
  pub alive : ℕ
  pub incoming : List ℕ
  pub rx_base : ℕ
  pub sent : List ℕ
  pub tx_base : ℕ

-- The ports of slot 3.
abbrev pub driver : Driver
driver = record {
  w5100_mode = 0xC0B4;
  w5100_addr_hi = 0xC0B5;
  w5100_addr_lo = 0xC0B6;
  w5100_data = 0xC0B7;
  receiving = record { basis = 0x7000; limit = 0x8000; mask = 0x0FFF };
  sending = record { basis = 0x5000; limit = 0x6000; mask = 0x0FFF };
}

-- The size registers.
abbrev pub received : Card → ℕ
received c = if ltb 0x1000 (length c.incoming) then 0x1000 else length c.incoming

abbrev pub memory : Card → ℕ → ℕ
memory c a =
    if leb 0x7000 a && ltb a 0x8000
    then get_or c.incoming ((a + 0x1000 - c.rx_base % 0x1000) % 0x1000) 0
    else (if a == 0x0501
        then 0
        else (if a == 0x0503
            then (if c.alive == 0 then 0x1C else c.status)
            else (if a == 0x0520
                then 0x10
                else (if a == 0x0521
                    then 0
                    else (if a == 0x0526
                        then received c / 256
                        else (if a == 0x0527 then received c % 256 else c.regs a))))))

abbrev pub register : ℕ → Card → ℕ
register a c = c.regs a * 2 ^ 8 + c.regs (a + 1)

-- How far a pointer register is ahead.
abbrev pub ahead : ℕ → ℕ → ℕ
ahead pointer base = (pointer + 2 ^ 16 - base % 2 ^ 16) % 2 ^ 16

-- The bytes that stand in the sending memory.
unfoldable pub outgoing : ℕ → (p base : ℕ) → (ℕ → ℕ) → List ℕ
outgoing zero p base regs = []
outgoing (suc k) p base regs =
    regs (bit_or (bit_and (base + p) 0x0FFF) 0x5000) ∷ outgoing k (suc p) base regs

-- OPEN, CONNECT, DISCON, SEND and RECV.
unfoldable pub command : ℕ → Card → Card
unfolding outgoing
command v c =
    if v == 0x01
    then record c { status = 0x13 }
    else (if v == 0x04
        then record c { status = 0x17 }
        else (if v == 0x08
            then record c { status = 0x00 }
            else (if v == 0x20
                then record c {
                  sent =
                      c.sent ++ outgoing (ahead (register 0x0524 c) c.tx_base) 0 c.tx_base c.regs;
                  tx_base = register 0x0524 c;
                }
                else (if v == 0x40
                    then record c {
                      incoming = drop (ahead (register 0x0528 c) c.rx_base) c.incoming;
                      rx_base = register 0x0528 c;
                    }
                    else c))))

unfoldable pub write : ℕ → Card → Card
unfolding command
write v c =
    if c.at == 0x0501
    then command v c
    else record c { regs = λ a. if c.at == a then v else c.regs a }

abbrev pub card_store : ℕ → ℕ → Card → Card
card_store port v c =
    if port == 0xC0B5
    then record c { at = v * 256 + c.at % 256; alive = c.alive - 1 }
    else (if port == 0xC0B6
        then record c { at = c.at / 256 * 256 + v }
        else record (write v c) { at = c.at + 1 })

abbrev pub card : Machine
card = record {
  State = Card;
  load = λ port c. (memory c c.at, record c { at = c.at + 1 });
  store = card_store;
  abort_key = λ c. (false, c);
  random_word = λ c. (0x1234, c);
}
