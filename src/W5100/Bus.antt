-- ===== src/W5100/Bus.antt =====
-- The indirect bus mode of the W5100, as its data sheet describes it, and what the accessors of the
-- driver do with it.
use ip.Common.{
  ℕ, ◌+◌, ◌*◌, ◌/◌, ◌%◌, ◌^◌, ◌<◌, ◌≡◌, ◌≢◌, ◌∙◌, Bool, true, ◌==◌, ltb, leb, if◌then◌else◌,
}
use ip.Common.{arith, ◌&&◌, ◌||◌}
use ip.W5100.{Machine, Driver, byte, set_addr, get_byte, set_byte, set_word, set_quad}

-- Registers that only the host writes: the mode byte's neighbours up to the source IP address, the
-- two memory size registers, and of socket 1 the mode, source port, destination IP and destination
-- port registers.
abbrev pub is_host_register : ℕ → Bool
is_host_register a =
    (leb 0x0001 a && ltb a 0x0013)
    || a == 0x001A
    || a == 0x001B
    || a == 0x0500
    || (leb 0x0504 a && ltb a 0x0506)
    || (leb 0x050C a && ltb a 0x0512)

-- The ends of the transmit and the receive memory, where the address does not count on.
abbrev pub CountsOn : ℕ → Type 0
CountsOn a = (a < 0x7FFF) × (a ≢ 0x5FFF)

-- The address register counts on with each access to the data port. Reading and the abort key leave
-- the host's registers alone; a write changes the one that is addressed.
pub record IsChip (M : Machine) (d : Driver) : Type 0 where
  pub address : M.State → ℕ
  pub memory : M.State → ℕ → ℕ
  pub address-store_hi :
      (v : ℕ) (s : M.State)
      → v < 2 ^ 8
      → address (M.store d.w5100_addr_hi v s) ≡ v * 2 ^ 8 + address s % 2 ^ 8
  pub address-store_lo :
      (v : ℕ) (s : M.State)
      → v < 2 ^ 8
      → address (M.store d.w5100_addr_lo v s) ≡ address s / 2 ^ 8 * 2 ^ 8 + v
  pub load-data : (s : M.State) → (M.load d.w5100_data s).0 ≡ memory s (address s)
  pub address-load :
      (s : M.State) → CountsOn (address s) → address (M.load d.w5100_data s).1 ≡ address s + 1
  pub address-store :
      (v : ℕ) (s : M.State)
      → CountsOn (address s)
      → address (M.store d.w5100_data v s) ≡ address s + 1
  pub memory-store_hi :
      (v : ℕ) (s : M.State) (a : ℕ)
      → is_host_register a ≡ true
      → memory (M.store d.w5100_addr_hi v s) a ≡ memory s a
  pub memory-store_lo :
      (v : ℕ) (s : M.State) (a : ℕ)
      → is_host_register a ≡ true
      → memory (M.store d.w5100_addr_lo v s) a ≡ memory s a
  pub memory-load :
      (s : M.State) (a : ℕ)
      → is_host_register a ≡ true
      → memory (M.load d.w5100_data s).1 a ≡ memory s a
  pub memory-store :
      (v : ℕ) (s : M.State) (a : ℕ)
      → is_host_register a ≡ true
      → memory (M.store d.w5100_data v s) a ≡ (if address s == a then v else memory s a)
  pub memory-abort_key :
      (s : M.State) (a : ℕ) → is_host_register a ≡ true → memory (M.abort_key s).1 a ≡ memory s a
  pub memory-random_word :
      (s : M.State) (a : ℕ) → is_host_register a ≡ true → memory (M.random_word s).1 a ≡ memory s a

module _ (M : Machine) (d : Driver) (C : IsChip M d) where
  open C use {address, memory}

  -- The two writes set the whole address.
  pub address-set_addr :
      (addr : ℕ) (s : M.State) → addr < 2 ^ 16 → address (set_addr M d addr s) ≡ addr
  unfolding set_addr
  address-set_addr addr s h = omega (
    arith,
    C.address-store_lo (byte addr) (M.store d.w5100_addr_hi (byte (addr / 2 ^ 8)) s) (omega arith),
    C.address-store_hi (byte (addr / 2 ^ 8)) s (omega arith),
  )

  -- A host register keeps its contents while an address is set.
  pub memory-set_addr :
      (addr : ℕ) (s : M.State) (a : ℕ)
      → is_host_register a ≡ true
      → memory (set_addr M d addr s) a ≡ memory s a
  unfolding set_addr
  memory-set_addr addr s a h = C.memory-store_lo _ _ a h ∙ C.memory-store_hi _ s a h

  pub memory-get_byte :
      (addr : ℕ) (s : M.State) (a : ℕ)
      → is_host_register a ≡ true
      → memory (get_byte M d addr s).1 a ≡ memory s a
  unfolding get_byte
  memory-get_byte addr s a h = C.memory-load _ a h ∙ memory-set_addr addr s a h

  pub memory-set_byte :
      (addr v : ℕ) (s : M.State) (a : ℕ)
      → addr < 2 ^ 16
      → is_host_register a ≡ true
      → memory (set_byte M d addr v s) a ≡ (if addr == a then byte v else memory s a)
  unfolding set_byte
  memory-set_byte addr v s a small h =
      C.memory-store (byte v) (set_addr M d addr s) a h
      ∙ rw (address-set_addr addr s small, memory-set_addr addr s a h)

  pub memory-set_word :
      (addr v : ℕ) (s : M.State) (a : ℕ)
      → addr < 0x5FFE
      → is_host_register a ≡ true
      → memory (set_word M d addr v s) a
        ≡ (if addr + 1 == a then byte v else (if addr == a then byte (v / 2 ^ 8) else memory s a))
  unfolding set_word
  memory-set_word addr v s a small h =
      let s0 = set_addr M d addr s in
      let e0 : address s0 ≡ addr = address-set_addr addr s (omega arith) in
      let s1 = M.store d.w5100_data (byte (v / 2 ^ 8)) s0 in
      let e1 : address s1 ≡ addr + 1 = omega (arith, C.address-store (byte (v / 2 ^ 8)) s0) in
      C.memory-store (byte v) s1 a h
      ∙ rw (e1, C.memory-store (byte (v / 2 ^ 8)) s0 a h, e0, memory-set_addr addr s a h)

  -- The four bytes of an address stand in the order of the network, the lowest of the number first.
  pub memory-set_quad :
      (addr v : ℕ) (s : M.State) (a : ℕ)
      → addr < 0x5FFC
      → is_host_register a ≡ true
      → memory (set_quad M d addr v s) a ≡ (
          if addr + 3 == a
          then byte (v / 2 ^ 24)
          else (if addr + 2 == a
              then byte (v / 2 ^ 16)
              else (if addr + 1 == a
                  then byte (v / 2 ^ 8)
                  else (if addr == a then byte v else memory s a))))
  unfolding set_quad
  memory-set_quad addr v s a small h =
      let s0 = set_addr M d addr s in
      let e0 : address s0 ≡ addr = address-set_addr addr s (omega arith) in
      let s1 = M.store d.w5100_data (byte v) s0 in
      let e1 : address s1 ≡ addr + 1 = omega (arith, C.address-store (byte v) s0) in
      let s2 = M.store d.w5100_data (byte (v / 2 ^ 8)) s1 in
      let e2 : address s2 ≡ addr + 2 = omega (arith, C.address-store (byte (v / 2 ^ 8)) s1) in
      let s3 = M.store d.w5100_data (byte (v / 2 ^ 16)) s2 in
      let e3 : address s3 ≡ addr + 3 = omega (arith, C.address-store (byte (v / 2 ^ 16)) s2) in
      C.memory-store (byte (v / 2 ^ 24)) s3 a h
      ∙ rw (
        e3,
        C.memory-store (byte (v / 2 ^ 16)) s2 a h,
        e2,
        C.memory-store (byte (v / 2 ^ 8)) s1 a h,
        e1,
        C.memory-store (byte v) s0 a h,
        e0,
        memory-set_addr addr s a h,
      )
