-- ===== src/W5100/Ring/Chip.antt =====
-- The card in memory keeps to the laws of the bus and of the pointer registers.
use ip.Common.{
  ℕ, ◌+◌, ◌≡◌, ◌≢◌, refl, ap, ◌∙◌, Bool, true, ◌==◌, leb, ltb, ◌&&◌, ◌||◌, if◌then◌else◌,
}
use ip.Common.{arith, Bool-cases, inl, inr}
use ip.W5100.Bus.{IsChip, is_host_register}
use ip.W5100.Commit.{KeepsPointers, is_pointer}
use ip.W5100.Ring.{Card, driver, card, card_store, memory, write, command}

-- A command changes neither the registers nor the address register.
pub regs-command : (v : ℕ) (c : Card) → (command v c).regs ≡ c.regs
unfolding command
regs-command v c = elim (Bool-cases (v == 0x01)) [
  | inl e ↦ rw e refl
  | inr e ↦ rw e (elim (Bool-cases (v == 0x04)) [
    | inl e ↦ rw e refl
    | inr e ↦ rw e (elim (Bool-cases (v == 0x08)) [
      | inl e ↦ rw e refl
      | inr e ↦ rw e (elim (Bool-cases (v == 0x20)) [
        | inl e ↦ rw e refl
        | inr e ↦ rw e (elim (Bool-cases (v == 0x40)) [ inl e ↦ rw e refl | inr e ↦ rw e refl ])
      ])
    ])
  ])
]

-- A register that only the host writes.
abbrev pub is_plain : ℕ → Bool
is_plain a =
    ltb a 0x0501
    || a == 0x0502
    || (leb 0x0504 a && ltb a 0x0520)
    || (leb 0x0522 a && ltb a 0x0526)
    || (leb 0x0528 a && ltb a 0x7000)

pub memory-plain : (c : Card) (a : ℕ) → is_plain a ≡ true → memory c a ≡ c.regs a
memory-plain c a h = ground arith

pub regs-write :
    (v : ℕ) (c : Card) (a : ℕ)
    → a ≢ 0x0501
    → (write v c).regs a ≡ (if c.at == a then v else c.regs a)
unfolding write
regs-write v c a h = elim (Bool-cases (c.at == 0x0501)) [
  | inl e ↦ rw e (ap (λ r. r a) (regs-command v c) ∙ ground arith)
  | inr e ↦ rw e refl
]

pub plain-write :
    (v : ℕ) (c : Card) (a : ℕ)
    → is_plain a ≡ true
    → memory (record (write v c) { at = c.at + 1 }) a ≡ (if c.at == a then v else memory c a)
plain-write v c a h =
    memory-plain (record (write v c) { at = c.at + 1 }) a h
    ∙ regs-write v c a (ground arith)
    ∙ ground (arith, memory-plain c a h)

pub host-plain : (a : ℕ) → is_host_register a ≡ true → is_plain a ≡ true
host-plain a h = ground arith

pub pointer-plain : (a : ℕ) → is_pointer a ≡ true → is_plain a ≡ true
pointer-plain a h = ground arith

pub plain_same :
    (c c' : Card) (a : ℕ) → is_plain a ≡ true → c'.regs ≡ c.regs → memory c' a ≡ memory c a
plain_same c c' a h e = ground (arith, memory-plain c a h, memory-plain c' a h, ap (λ r. r a) e)

abbrev pub card-IsChip : IsChip card driver
card-IsChip = record {
  address = λ c. c.at;
  memory = memory;
  address-store_hi = λ v c h. refl;
  address-store_lo = λ v c h. refl;
  load-data = λ c. refl;
  address-load = λ c h. refl;
  address-store = λ v c h. refl;
  memory-store_hi = λ v c a h. plain_same c (card_store 0xC0B5 v c) a (host-plain a h) refl;
  memory-store_lo = λ v c a h. plain_same c (card_store 0xC0B6 v c) a (host-plain a h) refl;
  memory-load = λ c a h. plain_same c (record c { at = c.at + 1 }) a (host-plain a h) refl;
  memory-store = λ v c a h. plain-write v c a (host-plain a h);
  memory-abort_key = λ c a h. refl;
  memory-random_word = λ c a h. refl;
}

abbrev pub card-KeepsPointers : KeepsPointers card driver card-IsChip
card-KeepsPointers = record {
  pointer-store_hi = λ v c a h. plain_same c (card_store 0xC0B5 v c) a (pointer-plain a h) refl;
  pointer-store_lo = λ v c a h. plain_same c (card_store 0xC0B6 v c) a (pointer-plain a h) refl;
  pointer-load = λ c a h. plain_same c (record c { at = c.at + 1 }) a (pointer-plain a h) refl;
  pointer-store = λ v c a h other. plain-write v c a (pointer-plain a h);
}
