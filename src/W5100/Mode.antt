-- ===== src/W5100/Mode.antt =====
-- The mode register of socket 1 in front of the command OPEN (apps/w5100.c: w5100_connect_addr,
-- w5100_connect_name, w5100_connect).
use ip.Common.{
  ℕ, ◌+◌, ◌<◌, ◌^◌, ◌≡◌, refl, ◌∙◌, List, [], ◌∷◌, length, length-take, take, arith, ◌⊎◌,
}
use ip.W5100.{Machine, Driver, sock_reg, byte, set_addr, set_byte, set_word, set_quad, store_name}
use ip.W5100.Bus.{IsChip, address-set_addr, memory-set_byte, memory-set_word, memory-set_quad}

-- TCP without delayed ACK, with or without DNS offloading.
abbrev pub IsTcp : ℕ → Type 0
IsTcp mode = (mode ≡ 0x21) ⊎ (mode ≡ 0x29)

module _ (M : Machine) (d : Driver) (C : IsChip M d) where
  open C use {address, memory}

  pub memory-ports :
      (port : ℕ) (s : M.State)
      → memory
          (set_word M d
            (sock_reg 0x10)
            port
            (set_word M d (sock_reg 0x04) (M.random_word s).0 (M.random_word s).1))
          0x0500
        ≡ memory s 0x0500
  memory-ports port s =
      memory-set_word M d C (sock_reg 0x10) port _ 0x0500 (omega arith) refl
      ∙ memory-set_word M d C (sock_reg 0x04) _ (M.random_word s).1 0x0500 (omega arith) refl
      ∙ C.memory-random_word s 0x0500 refl

  pub memory-addr :
      (addr : ℕ) (s : M.State)
      → memory (set_quad M d (sock_reg 0x0C) addr (set_byte M d (sock_reg 0x00) 0x21 s)) 0x0500
        ≡ 0x21
  memory-addr addr s =
      memory-set_quad M d C (sock_reg 0x0C) addr _ 0x0500 (omega arith) refl
      ∙ memory-set_byte M d C (sock_reg 0x00) 0x21 s 0x0500 (omega arith) refl

  -- The bytes of a name go to the addresses from that of the first on.
  memory-store_name :
      (name : List ℕ) (s : M.State)
      → 0x0500 < address s
      → address s + length name < 0x5FFF
      → memory (store_name M d name s) 0x0500 ≡ memory s 0x0500
  unfolding store_name
  memory-store_name [] s behind small = refl
  memory-store_name (c ∷ name) s behind small =
      let t = M.store d.w5100_data (byte c) s in
      let e : address t ≡ address s + 1 = C.address-store (byte c) s (omega arith, omega arith) in
      memory-store_name name t (omega (arith, e)) (omega (arith, e))
      ∙ ground (arith, C.memory-store (byte c) s 0x0500 refl)

  pub memory-name :
      (name : List ℕ) (n : ℕ) (s : M.State)
      → n < 2 ^ 8
      → memory
          (store_name M d
            (take n name)
            (set_byte M d (sock_reg 0x2A) n (set_byte M d (sock_reg 0x00) 0x29 s)))
          0x0500
        ≡ 0x29
  unfolding set_byte
  memory-name name n s small =
      let s1 = set_byte M d (sock_reg 0x00) 0x29 s in
      let s2 = set_addr M d (sock_reg 0x2A) s1 in
      let e2 : address s2 ≡ sock_reg 0x2A =
        address-set_addr M d C (sock_reg 0x2A) s1 (omega arith) in
      let e : address (set_byte M d (sock_reg 0x2A) n s1) ≡ 0x052B =
        omega (arith, C.address-store (byte n) s2, e2) in
      memory-store_name (take n name) (set_byte M d (sock_reg 0x2A) n s1) (omega (arith, e))
        (omega (arith, e, length-take n name))
      ∙ memory-set_byte M d C (sock_reg 0x2A) n s1 0x0500 (omega arith) refl
      ∙ memory-set_byte M d C (sock_reg 0x00) 0x29 s 0x0500 (omega arith) refl
