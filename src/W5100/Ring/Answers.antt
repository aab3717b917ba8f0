-- ===== src/W5100/Ring/Answers.antt =====
-- How long the card in memory lets the driver wait.
use ip.Common.{
  ℕ, ◌+◌, ◌-◌, ◌*◌, ◌/◌, ◌%◌, ◌^◌, ◌<◌, ◌≤◌, ◌≡◌, refl, sym, ap, ◌∙◌, Bool, true, false, ◌==◌, leb,
  if◌then◌else◌,
}
use ip.Common.{arith, Bool-cases, inl, inr, bit_or, ◌⊎◌}
use ip.W5100.{byte, get_byte, get_word, set_addr, w5100_connected}
use ip.W5100.Waiting.{SettlesWithin}
use ip.W5100.Patience.{IsPatient}
use ip.W5100.Interface.{granted}
use ip.W5100.Falling.{Falls, falls-request}
use ip.W5100.Card.{IsSocketCard}
use ip.W5100.Ring.{Card, driver, card, memory, write, command}
use ip.W5100.Ring.Chip.{card-IsChip, card-KeepsPointers}
use ip.W5100.Ring.Receives.{at-set_addr, receiving-IsArea, card-IsReceivingCard}
use ip.W5100.Ring.Sends.{sending-IsArea, card-IsSendingCard, card-IsDuplexCard}

alive-write : (v : ℕ) (c : Card) → (write v c).alive ≡ c.alive
unfolding write command
alive-write v c = elim (Bool-cases (c.at == 0x0501)) [
  | inl e ↦ rw e (ground arith)
  | inr e ↦ rw e refl
]

pub card-Falls : Falls card (λ c. c.alive)
card-Falls = record {
  falls-load = λ port c. omega arith;
  falls-store = λ port v c. ground (arith, alive-write v c);
  falls-abort_key = λ c. omega arith;
}

-- The peer is there only while addresses can be set.
pub alive-connected :
    (c : Card)
    → (w5100_connected card driver c).0 ≡ true
    → (w5100_connected card driver c).1.alive < c.alive
unfolding w5100_connected get_byte set_addr
alive-connected c up =
    let status = memory (set_addr card driver 0x0503 c) 0x0503 in
    let read : (w5100_connected card driver c).0 ≡ (status == 0x17) =
      ap (λ a. memory (set_addr card driver 0x0503 c) a == 0x17)
        (at-set_addr 0x0503 c (omega arith)) in
    ground (arith, read, up)

unfoldable pub card-IsPatient :
    (fuel : ℕ) (Waits : Card → Type 0) (do_send : Bool) → IsPatient card driver fuel Waits do_send
card-IsPatient fuel Waits do_send = record {
  patience = λ c. c.alive;
  falls = card-Falls;
  patience-idle = λ c c1 waits none_yet up.
      let less : c1.alive ≤ c.alive = omega (
        arith,
        falls-request card driver (λ c. c.alive) card-Falls fuel do_send c,
        ap (λ r. (granted c r).1.alive) none_yet,
      ) in
      omega (arith, alive-connected c1 up);
}

-- What a register gives with the next reading.
abbrev pub reading : ℕ → Card → ℕ
reading reg c = (get_word card driver reg c).0

-- Only the status changes by itself, and that once.
abbrev pub unsettled : (reg size : ℕ) → Card → ℕ
unsettled reg size c = (if reading reg c == size then 0 else 1) + (if leb c.alive 1 then 0 else 1)

-- The memory depends on `alive` in the status alone.
memory-alive :
    (c : Card) (x y m n a : ℕ)
    → (m == 0) ≡ (n == 0)
    → memory (record c { at = x; alive = m }) a ≡ memory (record c { at = y; alive = n }) a
memory-alive c x y m n a h = rw h refl

reading_lem :
    (reg : ℕ) (c : Card) (y n : ℕ)
    → (c.alive - 1 == 0) ≡ (n == 0)
    → reading reg c ≡ (
        let a = byte (reg / 2 ^ 8) * 2 ^ 8 + byte reg in
        bit_or
          (memory (record c { at = y; alive = n }) a * 2 ^ 8)
          (memory (record c { at = y; alive = n }) (a + 1)))
unfolding get_word set_addr
reading_lem reg c y n h =
    let a = byte (reg / 2 ^ 8) * 2 ^ 8 + byte reg in
    let at = (byte (reg / 2 ^ 8) * 2 ^ 8 + c.at % 256) / 256 * 256 + byte reg in
    let m = c.alive - 1 in
    ap
      (λ b.
        bit_or (memory (record c { at = at; alive = m }) b * 2 ^ 8)
          (memory (record c { at = at + 1; alive = m }) (b + 1)))
      {x = at} {y = a} (omega arith)
    ∙ (λ i.
        bit_or (memory-alive c at y m n a h i * 2 ^ 8) (memory-alive c (at + 1) y m n (a + 1) h i))

reading-again :
    (reg : ℕ) (c : Card)
    → (c.alive ≤ 1) ⊎ (2 < c.alive)
    → reading reg (get_word card driver reg c).1 ≡ reading reg c
unfolding get_word set_addr
reading-again reg c h =
    let c1 = (get_word card driver reg c).1 in
    reading_lem reg c1 0 (c.alive - 1) (ground arith) ∙ sym (reading_lem reg c 0 (c.alive - 1) refl)

alive-get_word : (reg : ℕ) (c : Card) → (get_word card driver reg c).1.alive ≡ c.alive - 1
unfolding get_word set_addr
alive-get_word reg c = refl

pub card-SettlesWithin : SettlesWithin card driver 2
card-SettlesWithin = record {
  unsettled = unsettled;
  unsettled-le = λ reg size c. ground arith;
  unsettled-wait = λ reg size c differs. ground (arith, reading-again reg c, alive-get_word reg c);
}

unfoldable pub card-IsSocketCard : (fuel : ℕ) → 2 < fuel → IsSocketCard card driver fuel
card-IsSocketCard fuel enough = record {
  chip = card-IsChip;
  pointers = card-KeepsPointers;
  receives = card-IsReceivingCard;
  sends = card-IsSendingCard;
  apart = card-IsDuplexCard;
  receiving_area = receiving-IsArea;
  sending_area = sending-IsArea;
  limit = 2;
  settles = card-SettlesWithin;
  enough = enough;
  receiving_patience = card-IsPatient fuel _ false;
  sending_patience = card-IsPatient fuel _ true;
}
