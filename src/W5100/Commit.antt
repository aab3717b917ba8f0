-- ===== src/W5100/Commit.antt =====
-- apps/w5100.c: `w5100_data_commit` and the pointer registers of socket 1.
use ip.Common.{
  ℕ, ◌+◌, ◌*◌, ◌/◌, ◌%◌, ◌^◌, ◌<◌, ◌≤◌, ◌≡◌, ◌≢◌, refl, ap, ◌∙◌, Bool, true, false, ◌==◌, ltb, leb,
  if◌then◌else◌,
}
use ip.Common.{arith, ◌&&◌, ◌||◌, bit_or}
use ip.Common.Words.{add16}
use ip.Common.Bits.{low, shift, shift-bit_or}
use ip.W5100.{
  Machine, Driver, byte, pick, sock_reg, set_addr, get_word, set_word, set_byte, w5100_data_commit,
}
use ip.W5100.Bus.{IsChip, address-set_addr}

-- The TX Write Pointer and the RX Read Pointer Register of socket 1.
abbrev pub is_pointer : ℕ → Bool
is_pointer a = (leb 0x0524 a && ltb a 0x0526) || (leb 0x0528 a && ltb a 0x052A)

-- The pointer registers change only when they are written, or by a command.
pub record KeepsPointers (M : Machine) (d : Driver) (C : IsChip M d) : Type 0 where
  pub pointer-store_hi :
      (v : ℕ) (s : M.State) (a : ℕ)
      → is_pointer a ≡ true
      → C.memory (M.store d.w5100_addr_hi v s) a ≡ C.memory s a
  pub pointer-store_lo :
      (v : ℕ) (s : M.State) (a : ℕ)
      → is_pointer a ≡ true
      → C.memory (M.store d.w5100_addr_lo v s) a ≡ C.memory s a
  pub pointer-load :
      (s : M.State) (a : ℕ)
      → is_pointer a ≡ true
      → C.memory (M.load d.w5100_data s).1 a ≡ C.memory s a
  pub pointer-store :
      (v : ℕ) (s : M.State) (a : ℕ)
      → is_pointer a ≡ true
      → C.address s ≢ 0x0501
      → C.memory (M.store d.w5100_data v s) a ≡ (if C.address s == a then v else C.memory s a)

-- Two bytes as a word, the high byte first.
pub word_of_bytes : (hi lo : ℕ) → lo < 2 ^ 8 → bit_or (hi * 2 ^ 8) lo ≡ hi * 2 ^ 8 + lo
word_of_bytes hi lo small =
    ap (λ x. bit_or x lo) {y = shift 8 hi} (omega arith)
    ∙ ap (λ y. bit_or (shift 8 hi) y) {y = low 8 lo} (omega arith)
    ∙ shift-bit_or 8 lo hi
    ∙ omega arith

module _ (M : Machine) (d : Driver) (C : IsChip M d) (K : KeepsPointers M d C) where
  open C use {address, memory}

  -- A word of the memory, its high byte first.
  abbrev pub word : ℕ → M.State → ℕ
  word reg s = memory s reg * 2 ^ 8 + memory s (reg + 1)

  -- The pointer register for one direction.
  abbrev pub pointer : Bool → M.State → ℕ
  pointer do_send s = word (pick do_send 0x0528 0x0524) s

  pub pointer-set_addr :
      (addr : ℕ) (s : M.State) (a : ℕ)
      → is_pointer a ≡ true
      → memory (set_addr M d addr s) a ≡ memory s a
  unfolding set_addr
  pointer-set_addr addr s a h = K.pointer-store_lo _ _ a h ∙ K.pointer-store_hi _ s a h

  pub pointer-get_word :
      (reg : ℕ) (s : M.State) (a : ℕ)
      → is_pointer a ≡ true
      → memory (get_word M d reg s).1 a ≡ memory s a
  unfolding get_word
  pointer-get_word reg s a h =
      K.pointer-load _ a h ∙ K.pointer-load _ a h ∙ pointer-set_addr reg s a h

  pub get_word-word :
      (reg : ℕ) (s : M.State)
      → reg < 0x5FFE
      → is_pointer reg ≡ true
      → is_pointer (reg + 1) ≡ true
      → memory s (reg + 1) < 2 ^ 8
      → (get_word M d reg s).0 ≡ word reg s
  unfolding get_word
  get_word-word reg s small h h' is_byte =
      let s0 = set_addr M d reg s in
      let e0 : address s0 ≡ reg = address-set_addr M d C reg s (omega arith) in
      let s1 = (M.load d.w5100_data s0).1 in
      let e1 : address s1 ≡ reg + 1 = omega (arith, C.address-load s0) in
      let hi : (M.load d.w5100_data s0).0 ≡ memory s reg =
        C.load-data s0 ∙ ap (memory s0) e0 ∙ pointer-set_addr reg s reg h in
      let lo : (M.load d.w5100_data s1).0 ≡ memory s (reg + 1) =
        C.load-data s1
        ∙ ap (memory s1) e1
        ∙ K.pointer-load s0 (reg + 1) h'
        ∙ pointer-set_addr reg s (reg + 1) h' in
      rw (hi, lo) (word_of_bytes (memory s reg) (memory s (reg + 1)) is_byte)

  -- The two bytes of a word that is written to a pointer register.
  pub bytes-set_word :
      (reg v : ℕ) (s : M.State)
      → 0x0502 ≤ reg
      → reg < 0x5FFE
      → is_pointer reg ≡ true
      → is_pointer (reg + 1) ≡ true
      → (memory (set_word M d reg v s) reg ≡ byte (v / 2 ^ 8))
        × (memory (set_word M d reg v s) (reg + 1) ≡ byte v)
  unfolding set_word
  bytes-set_word reg v s behind small h h' =
      let s0 = set_addr M d reg s in
      let e0 : address s0 ≡ reg = address-set_addr M d C reg s (omega arith) in
      let s1 = M.store d.w5100_data (byte (v / 2 ^ 8)) s0 in
      let e1 : address s1 ≡ reg + 1 = omega (arith, C.address-store (byte (v / 2 ^ 8)) s0) in
      ground (
        arith,
        K.pointer-store (byte v) s1 reg h (omega arith),
        K.pointer-store (byte v) s1 (reg + 1) h' (omega arith),
        K.pointer-store (byte (v / 2 ^ 8)) s0 reg h (omega arith),
      )

  pub word-set_word :
      (reg v : ℕ) (s : M.State)
      → 0x0502 ≤ reg
      → reg < 0x5FFE
      → is_pointer reg ≡ true
      → is_pointer (reg + 1) ≡ true
      → v < 2 ^ 16
      → word reg (set_word M d reg v s) ≡ v
  word-set_word reg v s behind small h h' fits =
      omega (arith, bytes-set_word reg v s behind small h h')

  -- The command has been given behind a state in which the pointer is further on by the size, and
  -- wraps around.
  abbrev pub Commits : Bool → ℕ → M.State → M.State → Type 0
  Commits do_send size s s' =
      (s1 : M.State) × (pointer do_send s1 ≡ (pointer do_send s + size) % 2 ^ 16)
      × (s' ≡ set_byte M d (sock_reg 0x01) (pick do_send 0x40 0x20) s1)

  -- When the registers hold bytes, a commit moves the pointer register of its direction on by the size, modulo 2 ^ 16, before it gives the
  -- command: RECV for data, SEND for room.
  pub w5100_data_commit-Commits :
      (do_send : Bool) (size : ℕ) (s : M.State)
      → ((a : ℕ) → memory s a < 2 ^ 8)
      → Commits do_send size s (w5100_data_commit M d do_send size s)
  unfolding w5100_data_commit
  w5100_data_commit-Commits do_send size s bytes = go do_send
    where
      moved :
          (reg : ℕ)
          → 0x0502 ≤ reg
          → reg < 0x5FFE
          → is_pointer reg ≡ true
          → is_pointer (reg + 1) ≡ true
          → word reg (set_word M d reg (add16 (get_word M d reg s).0 size) (get_word M d reg s).1)
            ≡ (word reg s + size) % 2 ^ 16
      moved reg behind small h h' =
          word-set_word reg _ (get_word M d reg s).1 behind small h h' (omega arith)
          ∙ ap (λ p. (p + size) % 2 ^ 16) (get_word-word reg s small h h' (bytes (reg + 1)))

      go : (b : Bool) → Commits b size s (w5100_data_commit M d b size s)
      go false = (_, moved 0x0528 (omega arith) (omega arith) refl refl, refl)
      go true = (_, moved 0x0524 (omega arith) (omega arith) refl refl, refl)
