-- ===== src/W5100/Ring/Sends.antt =====
-- The sending side of the card in memory.
use ip.Common.{
  ℕ, zero, suc, ◌+◌, ◌*◌, ◌%◌, ◌^◌, ◌<◌, ◌≤◌, ◌≡◌, ◌≢◌, refl, sym, ap, ◌∙◌, true, ◌∷◌, ◌++◌, ◌==◌,
  if◌then◌else◌,
}
use ip.Common.{arith, Bool-cases, inl, inr, bit_and, bit_or}
use ip.W5100.{sock_reg, get_word, set_addr}
use ip.W5100.Commit.{is_pointer, word_of_bytes}
use ip.W5100.Window.{address_in_area}
use ip.W5100.Sending.{Kept, waiting, IsSendingCard}
use ip.W5100.Sending.Sender.{IsSendingArea}
use ip.W5100.Receiving.Same.{is_read_pointer}
use ip.W5100.Sending.Same.{is_write_pointer}
use ip.W5100.Duplex.{IsDuplexCard}
use ip.W5100.Ring.{Card, driver, card, card_store, memory, register, outgoing, write, command}
use ip.W5100.Ring.Chip.{
  card-IsChip, card-KeepsPointers, regs-write, regs-command, memory-plain, plain-write,
}
use ip.W5100.Ring.Receives.{
  low_twelve, at-set_addr, pointer_word, pointer-command, write-command, write-other, Kept_same,
  card-IsReceivingCard,
}

abbrev pub sending-IsArea : IsSendingArea driver
sending-IsArea = record {
  area = record {
    bits = 12;
    index = 5;
    mask_is = refl;
    basis_is = refl;
    limit_is = refl;
    limit-lt = omega arith;
  };
  above = omega arith;
  below = omega arith;
}

low_place : (b : ℕ) → bit_or (bit_and b 0x0FFF) 0x5000 ≡ 0x5000 + b % 4096
low_place b = address_in_area driver.sending b sending-IsArea.area ∙ omega (arith, low_twelve b)

abbrev pub room : Card → ℕ
room c = 0x1000

abbrev pub KeptBy : Card → Card → Type 0
KeptBy = Kept card driver card-IsChip (λ c. c.sent) (λ c. c.tx_base) room

pub Kept_sent :
    (c c' : Card)
    → c'.sent ≡ c.sent
    → c'.tx_base ≡ c.tx_base
    → ((a : ℕ) → 0x5000 ≤ a → a < 0x6000 → c'.regs a ≡ c.regs a)
    → KeptBy c c'
Kept_sent c c' same base regs = record {
  sent-is = same;
  base-is = base;
  room-le = omega arith;
  window = λ a low high.
      memory-plain c' a (ground arith) ∙ regs a low high ∙ sym (memory-plain c a (ground arith));
}

-- A write that is no command.
pub sent-write :
    (v : ℕ) (c : Card)
    → c.at ≢ 0x0501
    → ((write v c).sent ≡ c.sent) × ((write v c).tx_base ≡ c.tx_base)
unfolding write
sent-write v c h = elim (Bool-cases (c.at == 0x0501)) [
  | inl e ↦ absurd (h (ground arith))
  | inr e ↦ rw e (refl, refl)
]

pub outgoing-waiting :
    (k p : ℕ) (c : Card)
    → outgoing k p c.tx_base c.regs
      ≡ waiting card driver card-IsChip (λ c. c.sent) (λ c. c.tx_base) room k p c
unfolding outgoing waiting
outgoing-waiting zero p c = refl
outgoing-waiting (suc k) p c =
    ap (λ x. x ∷ outgoing k (suc p) c.tx_base c.regs)
      (sym (
        memory-plain c (bit_or (bit_and (c.tx_base + p) 0x0FFF) 0x5000)
          (ground (arith, low_place (c.tx_base + p)))))
    ∙ ap (λ xs. memory c (bit_or (bit_and (c.tx_base + p) 0x0FFF) 0x5000) ∷ xs)
        (outgoing-waiting k (suc p) c)

-- The TX Free Size Register.
pub size_lem : (c : Card) → (get_word card driver (sock_reg 0x20) c).0 ≡ 0x1000
unfolding get_word set_addr
size_lem c =
    ap
      (λ a.
        bit_or (memory (set_addr card driver 0x0520 c) a * 2 ^ 8)
          (memory (set_addr card driver 0x0520 c) (a + 1)))
      (at-set_addr 0x0520 c (omega arith))
    ∙ word_of_bytes 16 0 (omega arith)

-- SEND
pub sends_command :
    (k : ℕ) (c : Card)
    → c.at ≡ 0x0501
    → k ≤ 0x1000
    → register 0x0524 c ≡ (c.tx_base + k) % 2 ^ 16
    → ((write 0x20 c).sent ≡ c.sent ++ outgoing k 0 c.tx_base c.regs)
      × ((write 0x20 c).tx_base ≡ register 0x0524 c)
      × ((write 0x20 c).regs ≡ c.regs)
      × ((write 0x20 c).incoming ≡ c.incoming)
      × ((write 0x20 c).rx_base ≡ c.rx_base)
unfolding command
sends_command k c at small on = rw (write-command 0x20 c at) (
  ap (λ i. c.sent ++ outgoing i 0 c.tx_base c.regs) {y = k} (omega arith),
  refl,
  refl,
  refl,
  refl,
)

-- What is written to a pointer register, and to the memory.
pub pointer-sent : (v : ℕ) (c : Card) → is_pointer c.at ≡ true → KeptBy c (card_store 0xC0B7 v c)
pointer-sent v c h =
    let same = sent-write v c (ground arith) in
    Kept_sent c (card_store 0xC0B7 v c) same.0 same.1
      (λ a low high. regs-write v c a (omega arith) ∙ ground arith)

pub window-write :
    (v : ℕ) (c : Card) (a : ℕ)
    → 0x5000 ≤ a
    → a < 0x6000
    → memory (card_store 0xC0B7 v c) a ≡ (if c.at == a then v else memory c a)
window-write v c a low high = plain-write v c a (ground arith)

unfoldable pub card-IsSendingCard : IsSendingCard card driver card-IsChip card-KeepsPointers
card-IsSendingCard = record {
  sent = λ c. c.sent;
  base = λ c. c.tx_base;
  room = room;
  store_hi-Kept = λ v c. Kept_sent c (card_store 0xC0B5 v c) refl refl (λ a low high. refl);
  store_lo-Kept = λ v c. Kept_sent c (card_store 0xC0B6 v c) refl refl (λ a low high. refl);
  load-Kept = λ c. Kept_sent c (record c { at = c.at + 1 }) refl refl (λ a low high. refl);
  abort_key-Kept = λ c. Kept_sent c c refl refl (λ a low high. refl);
  pointer-Kept = pointer-sent;
  pointer-abort_key = λ c a h. refl;
  window-store = λ v c low high.
      let same = sent-write v c (omega arith) in (same.0, same.1, omega arith, window-write v c);
  settled-room =
      λ n c0 c1 c2 some_room first again idle. omega (arith, size_lem c1, ap (λ r. r.0) again);
  transmitted = λ k c at few on.
      let word = pointer_word 0x0524 c refl refl in
      let done = sends_command k c at few (sym word ∙ on) in
      (
        done.0 ∙ ap (λ xs. c.sent ++ xs) (outgoing-waiting k 0 c),
        done.1 ∙ sym word,
        λ a h. pointer-command 0x20 a c h done.2,
      );
}

incoming-send :
    (c : Card) → ((command 0x20 c).incoming ≡ c.incoming) × ((command 0x20 c).rx_base ≡ c.rx_base)
unfolding command
incoming-send c = (refl, refl)

sent-receive :
    (c : Card) → ((command 0x40 c).sent ≡ c.sent) × ((command 0x40 c).tx_base ≡ c.tx_base)
unfolding command
sent-receive c = (refl, refl)

write_pointer-IsPointer : (a : ℕ) → is_write_pointer a ≡ true → is_pointer a ≡ true
write_pointer-IsPointer a h = ground arith

read_pointer-IsPointer : (a : ℕ) → is_read_pointer a ≡ true → is_pointer a ≡ true
read_pointer-IsPointer a h = ground arith

pub card-IsDuplexCard :
    IsDuplexCard card driver card-IsChip card-KeepsPointers card-IsReceivingCard card-IsSendingCard
unfolding card-IsReceivingCard card-IsSendingCard
card-IsDuplexCard = record {
  window-Kept = λ v c low high.
      let same = write-other v c (omega arith) in Kept_same c (card_store 0xC0B7 v c) same.0 same.1;
  send-Kept = λ c at.
      let e = write-command 0x20 c at in
      let same = incoming-send c in
      Kept_same c (card_store 0xC0B7 0x20 c) (ap (λ t. t.incoming) e ∙ same.0)
        (ap (λ t. t.rx_base) e ∙ same.1);
  send-pointer = λ c a at h.
      pointer-command 0x20 a c (read_pointer-IsPointer a h)
        (ap (λ t. t.regs) (write-command 0x20 c at) ∙ regs-command 0x20 c);
  recv-Kept = λ c at.
      let e = write-command 0x40 c at in
      let same = sent-receive c in
      Kept_sent c (card_store 0xC0B7 0x40 c) (ap (λ t. t.sent) e ∙ same.0)
        (ap (λ t. t.tx_base) e ∙ same.1)
        (λ a low high. ap (λ t. t.regs a) e ∙ ap (λ r. r a) (regs-command 0x40 c));
  recv-pointer = λ c a at h.
      pointer-command 0x40 a c (write_pointer-IsPointer a h)
        (ap (λ t. t.regs) (write-command 0x40 c at) ∙ regs-command 0x40 c);
}
