-- ===== src/W5100/Ring/Receives.antt =====
-- The receiving side of the card in memory.
use ip.Common.{ℕ, ◌+◌, ◌-◌, ◌*◌, ◌/◌, ◌%◌, ◌^◌, ◌<◌, ◌≡◌, ◌≢◌, refl, sym, ap, ◌∙◌, true, ◌==◌}
use ip.Common.{arith, Bool-cases, inl, inr, bit_and, bit_or, get_or, length, drop}
use mathlib.Core.Path.{subst}
use ip.Common.Bits.{low}
use ip.W5100.{sock_reg, get_word, set_addr}
use ip.W5100.Commit.{is_pointer, word_of_bytes}
use ip.W5100.Window.{address_in_area}
use ip.W5100.Receiving.{Held, Kept, IsReceivingCard}
use ip.W5100.Receiving.Receiver.{IsReceivingArea}
use ip.W5100.Ring.{Card, driver, card, card_store, memory, received, register, write, command}
use ip.W5100.Ring.Chip.{card-IsChip, card-KeepsPointers}

pub low_twelve : (x : ℕ) → low 12 x ≡ x % 4096
low_twelve x = omega arith

abbrev pub receiving-IsArea : IsReceivingArea driver
receiving-IsArea = record {
  area = record {
    bits = 12;
    index = 7;
    mask_is = refl;
    basis_is = refl;
    limit_is = refl;
    limit-lt = omega arith;
  };
  above = omega arith;
  below = omega arith;
}

low_place : (b : ℕ) → bit_or (bit_and b 0x0FFF) 0x7000 ≡ 0x7000 + b % 4096
low_place b = address_in_area driver.receiving b receiving-IsArea.area ∙ omega (arith, low_twelve b)

window :
    (c : Card) (a : ℕ)
    → a < 4096
    → memory c (0x7000 + a) ≡ get_or c.incoming ((a + 0x1000 - c.rx_base % 0x1000) % 0x1000) 0
window c a h = ground arith

at_place :
    (c : Card) (j : ℕ)
    → memory c (bit_or (bit_and (c.rx_base + j) 0x0FFF) 0x7000) ≡ get_or c.incoming (j % 4096) 0
at_place c j =
    ap (memory c) (low_place (c.rx_base + j))
    ∙ window c ((c.rx_base + j) % 4096) (omega arith)
    ∙ ap (λ i. get_or c.incoming i 0) {y = j % 4096} (omega arith)

abbrev pub HeldAt : ℕ → Card → Type 0
HeldAt = Held card driver card-IsChip (λ c. c.incoming) (λ c. c.rx_base)

abbrev pub KeptBy : Card → Card → Type 0
KeptBy = Kept card driver card-IsChip (λ c. c.incoming) (λ c. c.rx_base)

-- What is held depends on what the peer sends and on where it begins alone.
pub Kept_same : (c c' : Card) → c'.incoming ≡ c.incoming → c'.rx_base ≡ c.rx_base → KeptBy c c'
Kept_same c c' same base = record {
  stream-is = same;
  base-is = base;
  held = λ n w. record {
    fits = omega (arith, w.fits, ap length same);
    bytes = λ j h.
        at_place c' j
        ∙ ap (λ xs. get_or xs (j % 4096) 0) same
        ∙ sym (at_place c j)
        ∙ w.bytes j h
        ∙ ap (λ xs. get_or xs j 0) (sym same);
  };
}

-- A write that is no command.
pub write-other :
    (v : ℕ) (c : Card)
    → c.at ≢ 0x0501
    → ((write v c).incoming ≡ c.incoming) × ((write v c).rx_base ≡ c.rx_base)
unfolding write
write-other v c h = elim (Bool-cases (c.at == 0x0501)) [
  | inl e ↦ absurd (h (ground arith))
  | inr e ↦ rw e (refl, refl)
]

pub write-command : (v : ℕ) (c : Card) → c.at ≡ 0x0501 → write v c ≡ command v c
unfolding write
write-command v c h = ground arith

pub at-set_addr : (reg : ℕ) (c : Card) → reg < 2 ^ 16 → (set_addr card driver reg c).at ≡ reg
unfolding set_addr
at-set_addr reg c h = omega arith

-- The RX Received Size Register.
size_lem : (c : Card) → (get_word card driver (sock_reg 0x26) c).0 ≡ received c
unfolding get_word set_addr
size_lem c =
    ap
      (λ a.
        bit_or (memory (set_addr card driver 0x0526 c) a * 2 ^ 8)
          (memory (set_addr card driver 0x0526 c) (a + 1)))
      (at-set_addr 0x0526 c (omega arith))
    ∙ word_of_bytes (received c / 256) (received c % 256) (omega arith)
    ∙ omega arith

kept-get_word :
    (reg : ℕ) (c : Card)
    → ((get_word card driver reg c).1.incoming ≡ c.incoming)
      × ((get_word card driver reg c).1.rx_base ≡ c.rx_base)
unfolding get_word set_addr
kept-get_word reg c = (refl, refl)

received-Held : (c : Card) → HeldAt (received c) c
received-Held c = record {
  fits = ground arith;
  bytes = λ j h. at_place c j ∙ ap (λ i. get_or c.incoming i 0) {y = j} (ground arith);
}

pub settled-Held :
    (n : ℕ) (c1 c2 : Card) → get_word card driver (sock_reg 0x26) c1 ≡ (n, c2) → HeldAt n c2
settled-Held n c1 c2 e =
    let same = kept-get_word (sock_reg 0x26) c1 in
    let n_is : received c1 ≡ n = sym (size_lem c1) ∙ ap (λ r. r.0) e in
    let from : HeldAt n c1 = subst (λ k. HeldAt k c1) n_is (received-Held c1) in
    subst (λ c. HeldAt n c) (ap (λ r. r.1) e)
      ((Kept_same c1 (get_word card driver (sock_reg 0x26) c1).1 same.0 same.1).held n from)

pub register-pointer : (a : ℕ) (c : Card) → is_pointer a ≡ true → memory c a ≡ c.regs a
register-pointer a c h = ground arith

-- RECV
pub receives_command :
    (k : ℕ) (c : Card)
    → c.at ≡ 0x0501
    → k < 2 ^ 16
    → register 0x0528 c ≡ (c.rx_base + k) % 2 ^ 16
    → ((write 0x40 c).incoming ≡ drop k c.incoming)
      × ((write 0x40 c).rx_base ≡ register 0x0528 c)
      × ((write 0x40 c).regs ≡ c.regs)
unfolding command
receives_command k c at small on =
    rw (write-command 0x40 c at) (ap (λ i. drop i c.incoming) {y = k} (omega arith), refl, refl)

-- What is written to a pointer register.
pub pointer-write : (v : ℕ) (c : Card) → is_pointer c.at ≡ true → KeptBy c (card_store 0xC0B7 v c)
pointer-write v c h =
    let same = write-other v c (ground arith) in Kept_same c (card_store 0xC0B7 v c) same.0 same.1

pub pointer_word :
    (a : ℕ) (c : Card)
    → is_pointer a ≡ true
    → is_pointer (a + 1) ≡ true
    → memory c a * 2 ^ 8 + memory c (a + 1) ≡ register a c
pointer_word a c h h' = omega (arith, register-pointer a c h, register-pointer (a + 1) c h')

pub pointer-command :
    (v a : ℕ) (c : Card)
    → is_pointer a ≡ true
    → (write v c).regs ≡ c.regs
    → memory (card_store 0xC0B7 v c) a ≡ memory c a
pointer-command v a c h same =
    register-pointer a (card_store 0xC0B7 v c) h ∙ ap (λ r. r a) same ∙ sym (register-pointer a c h)

unfoldable pub card-IsReceivingCard : IsReceivingCard card driver card-IsChip card-KeepsPointers
card-IsReceivingCard = record {
  stream = λ c. c.incoming;
  base = λ c. c.rx_base;
  store_hi-Kept = λ v c. Kept_same c (card_store 0xC0B5 v c) refl refl;
  store_lo-Kept = λ v c. Kept_same c (card_store 0xC0B6 v c) refl refl;
  load-Kept = λ c. Kept_same c (record c { at = c.at + 1 }) refl refl;
  abort_key-Kept = λ c. Kept_same c c refl refl;
  pointer-Kept = pointer-write;
  pointer-abort_key = λ c a h. refl;
  settled-Held = λ n c0 c1 c2 some_data first again rests. settled-Held n c1 c2 again;
  received = λ n k c at w few small on.
      let word = pointer_word 0x0528 c refl refl in
      let done = receives_command k c at small (sym word ∙ on) in
      (done.0, done.1 ∙ sym word, λ a h. pointer-command 0x40 a c h done.2);
}
