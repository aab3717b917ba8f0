-- ===== src/W5100/Window.antt =====
-- The memory of socket 1, and what `w5100_data_request` grants in it.
use ip.Common.{
  ℕ, zero, suc, ◌+◌, ◌*◌, ◌/◌, ◌%◌, ◌^◌, ◌<◌, ◌≤◌, ◌≡◌, ◌≢◌, refl, sym, ◌∙◌, ap, Bool, true, false,
  ◌==◌, ==_iff, ltb, if◌then◌else◌,
}
use ip.Common.{Option, none, some, bit_and, bit_or, arith, ◌&&◌, ◌||◌, Bool-cases, inl, inr, ◌⊎◌}
use mathlib.Core.Path.{subst}
use mathlib.Core.Option.{some-injective}
use ip.Common.Words.{sub16}
use ip.Common.Bits.{table, table_lem, ones, low, shift, bit_and-ones, low-le-ones, bit_or-shift}
use ip.W5100.{
  Machine, Driver, Area, area, pick, sock_reg, socket_area, set_addr, get_byte, get_word,
}
use ip.W5100.{grant, settled, settle, w5100_data_request}
use ip.W5100.Bus.{IsChip, address-set_addr}

-- A memory of a power of two of bytes, at a multiple of its size, below the end of the addresses.
pub record IsArea (a : Area) : Type 0 where
  pub bits : ℕ
  pub index : ℕ
  pub mask_is : a.mask ≡ ones bits
  pub basis_is : a.basis ≡ shift bits index
  pub limit_is : a.limit ≡ a.basis + a.mask + 1
  pub limit-lt : a.limit < 2 ^ 16

-- `basis`, `limit` and `mask` of the memory of socket 1, in multiples of the size.
abbrev area_test : Bool → ℕ → Bool
area_test do_send sizes =
    let a = socket_area (pick do_send 0x6000 0x4000) sizes in
    let k = 10 + sizes / 4 % 4 in
    ltb (sizes % 4) (sizes / 4 % 4)
    || ((a.mask == ones k)
        && (a.basis == shift k (a.basis / 2 ^ k))
        && (a.limit == a.basis + a.mask + 1)
        && ltb a.limit (2 ^ 16))

receiving_table : table 256 (area_test false) ≡ true
unfolding table socket_area
receiving_table = refl

sending_table : table 256 (area_test true) ≡ true
unfolding table socket_area
sending_table = refl

area_test_lem : (do_send : Bool) (sizes : ℕ) → sizes < 256 → area_test do_send sizes ≡ true
area_test_lem false sizes h = table_lem 256 (area_test false) receiving_table sizes h
area_test_lem true sizes h = table_lem 256 (area_test true) sending_table sizes h

-- The memory that `w5100_config` computes for socket 1 is a whole one, unless socket 1 is given more
-- memory than socket 0.
pub socket_area-IsArea :
    (do_send : Bool) (sizes : ℕ)
    → sizes < 2 ^ 8
    → sizes / 4 % 4 ≤ sizes % 4
    → IsArea (socket_area (pick do_send 0x6000 0x4000) sizes)
socket_area-IsArea do_send sizes small order =
    let a = socket_area (pick do_send 0x6000 0x4000) sizes in
    let t : area_test do_send sizes ≡ true = area_test_lem do_send sizes small in
    record {
      bits = 10 + sizes / 4 % 4;
      index = a.basis / 2 ^ (10 + sizes / 4 % 4);
      mask_is = ground arith;
      basis_is = ground arith;
      limit_is = ground arith;
      limit-lt = ground arith;
    }

-- The physical address of a pointer: its lowest digits, from the begin of the memory on.
pub address_in_area :
    (a : Area) (pointer : ℕ) (v : IsArea a)
    → bit_or (bit_and pointer a.mask) a.basis ≡ a.basis + low v.bits pointer
address_in_area a pointer v =
    rw (v.mask_is, v.basis_is, bit_and-ones v.bits pointer, bit_or-shift v.bits pointer v.index)
      (omega arith)

-- A step within the memory does not wrap around.
low-add : (k a j : ℕ) → low k a + j ≤ ones k → low k (a + j) ≡ low k a + j
low-add zero a j h = omega arith
low-add (suc k) a j h =
    let ih = low-add k (a / 2) ((a % 2 + j) / 2) (omega arith) in
    let half : (a + j) / 2 ≡ a / 2 + (a % 2 + j) / 2 = omega arith in
    ap (λ x. low k x * 2 + (a + j) % 2) half ∙ omega (arith, ih)

-- The place in the memory of a byte behind a pointer, in front of the end.
pub place_in_area :
    (a : Area) (b p : ℕ) (v : IsArea a)
    → a.basis + low v.bits b + p < a.limit
    → bit_or (bit_and (b + p) a.mask) a.basis ≡ a.basis + low v.bits b + p
place_in_area a b p v h =
    address_in_area a (b + p) v
    ∙ omega (arith, low-add v.bits b p (omega (arith, v.mask_is, v.limit_is)))

-- The cut at the end of the memory.
pub cut_off :
    (addr limit size : ℕ)
    → addr < limit
    → limit < 2 ^ 16
    → 0 < size
    → let n = if ltb size (sub16 limit addr) then size else sub16 limit addr in
      (n ≤ size) × (addr + n ≤ limit) × (0 < n)
cut_off addr limit size inside small some_size = ground arith

module _ (M : Machine) (d : Driver) (C : IsChip M d) where
  open C use {address}

  -- What a request leaves: nothing granted, or the address register in the memory of socket 1, with
  -- that many bytes in front of the end of the memory.
  pub record Granted (a : Area) (n : ℕ) (s : M.State) : Type 0 where
    pub from_basis : a.basis ≤ address s
    pub to_limit : address s + n ≤ a.limit
    pub some_room : 0 < n

  grant-Granted :
      (do_send : Bool) (size : ℕ) (s : M.State)
      → IsArea (area d do_send)
      → 0 < size
      → ((grant M d do_send size s).0 ≤ size)
        × Granted (area d do_send) (grant M d do_send size s).0 (grant M d do_send size s).1
  unfolding grant
  grant-Granted do_send size s v some_size =
      let a = area d do_send in
      let pointer = (get_word M d (pick do_send (sock_reg 0x28) (sock_reg 0x24)) s).0 in
      let s1 = (get_word M d (pick do_send (sock_reg 0x28) (sock_reg 0x24)) s).1 in
      let addr = bit_or (bit_and pointer a.mask) a.basis in
      let e : addr ≡ a.basis + low v.bits pointer = address_in_area a pointer v in
      let inside : (a.basis ≤ addr) × (addr < a.limit) =
        omega (arith, low-le-ones v.bits pointer, v.mask_is, v.limit_is) in
      let cut = cut_off addr a.limit size inside.1 v.limit-lt some_size in
      let at : address (set_addr M d addr s1) ≡ addr =
        address-set_addr M d C addr s1 (omega (arith, v.limit-lt)) in
      (cut.0, record { from_basis = rw at inside.0; to_limit = rw at cut.1; some_room = cut.2 })

  settled-Granted :
      (do_send : Bool) (o : Option (ℕ × M.State)) (n : ℕ) (s : M.State)
      → IsArea (area d do_send)
      → settled M d do_send o ≡ some (n, s)
      → n ≢ 0
      → Granted (area d do_send) n s
  unfolding settled
  settled-Granted do_send none n s v e some_data = cc
  settled-Granted do_send (some (size, s0)) n s v e some_data = elim (Bool-cases (size == 0)) [
    | inl nothing ↦ absurd (some_data (ground arith))
    | inr something ↦
        let g = (grant-Granted do_send size s0 v (ground arith)).1 in
        let r : some (grant M d do_send size s0) ≡ some (n, s) = rw something at e in
        subst (λ p. Granted (area d do_send) p.0 p.1) (some-injective _ _ r) g
  ]

  -- If the memory of socket 1 is a power of two of bytes at a multiple of its size, which it is unless
  -- socket 1 is given more memory than socket 0, a request that grants something leaves the card's
  -- address register inside that memory, and grants no byte beyond its end, whatever the sizes and
  -- pointers are that the card gave.
  pub w5100_data_request-Granted :
      (fuel : ℕ) (do_send : Bool) (s0 : M.State) (n : ℕ) (s : M.State)
      → IsArea (area d do_send)
      → w5100_data_request M d fuel do_send s0 ≡ some (n, s)
      → n ≢ 0
      → Granted (area d do_send) n s
  unfolding w5100_data_request
  w5100_data_request-Granted fuel do_send s0 n s v e some_data =
      let start = get_byte M d (sock_reg 0x01) s0 in
      elim (Bool-cases (start.0 == 0)) [
        | inl idle ↦
            settled-Granted do_send
              (settle M d fuel (pick do_send (sock_reg 0x26) (sock_reg 0x20)) 0 start.1) n s v
              (rw idle at e) some_data
        | inr pending ↦ absurd (some_data (ground arith))
      ]

  abbrev pub Agrees : (reg size : ℕ) → M.State → ℕ → M.State → Type 0
  Agrees reg size s0 n s =
      (s1 : M.State) × (get_word M d reg s1 ≡ (n, s))
      × (((n ≡ size) × (s1 ≡ s0)) ⊎ ((s2 : M.State) × (get_word M d reg s2 ≡ (n, s1))))

  settle_once :
      (reg size : ℕ) (s0 : M.State) (n : ℕ) (s : M.State)
      → Agrees reg (get_word M d reg s0).0 (get_word M d reg s0).1 n s
      → Agrees reg size s0 n s
  settle_once reg size s0 n s (s1, last, inl (same, from)) =
      (s1, last, inr (s0, λ i. (sym same i, sym from i)))
  settle_once reg size s0 n s (s1, last, inr before) = (s1, last, inr before)

  -- When waiting for the size to settle ends, the value is that of the last read, and equals that of
  -- the read before it (or the initial value, if there was no read before it).
  pub settle-Agrees :
      (fuel reg size : ℕ) (s0 : M.State) (n : ℕ) (s : M.State)
      → settle M d fuel reg size s0 ≡ some (n, s)
      → Agrees reg size s0 n s
  unfolding settle
  settle-Agrees zero reg size s0 n s e = cc
  settle-Agrees (suc fuel) reg size s0 n s e =
      let next = get_word M d reg s0 in
      elim (Bool-cases (next.0 == size)) [
        | inl same ↦
            let r : some next ≡ some (n, s) = rw same at e in
            let p : next ≡ (n, s) = some-injective _ _ r in
            (s0, p, inl (sym (ap (λ q. q.0) p) ∙ (==_iff _ _).0 same, refl))
        | inr differs ↦
            settle_once reg size s0 n s (settle-Agrees fuel reg next.0 next.1 n s (rw differs at e))
      ]
