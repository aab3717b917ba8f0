-- ===== src/W5100/Configuration.antt =====
-- apps/w5100.c: `w5100_config`.
use ip.Common.{
  ℕ, ◌+◌, ◌/◌, ◌%◌, ◌^◌, ◌<◌, ◌≤◌, ◌≡◌, refl, sym, ap, ◌∙◌, Bool, true, false, ltb, leb, ◌&&◌, ◌||◌,
}
use ip.Common.{arith, ◌⊎◌, inr}
use mathlib.Core.Path.{subst}
use ip.Common.Bits.{table, table_lem}
use ip.Common.{◌==◌}
use ip.W5100.{Area}
use ip.W5100.{
  Machine, Driver, byte, pick, socket_area, get_byte, set_addr, set_quad, config_area, w5100_config,
}
use ip.W5100.Bus.{
  IsChip, is_host_register, address-set_addr, memory-set_addr, memory-get_byte, memory-set_quad,
}
use ip.W5100.Window.{IsArea, socket_area-IsArea}
use ip.W5100.Receiving.Receiver.{IsReceivingArea}
use ip.W5100.Sending.Sender.{IsSendingArea}

-- A memory size register that gives socket 1 no more memory than socket 0, and both no more than the 8 KB
-- there are.
pub record IsSplit (sizes : ℕ) : Type 0 where
  pub is_byte : sizes < 2 ^ 8
  pub order : sizes / 4 % 4 ≤ sizes % 4
  pub fits : 2 ^ (sizes % 4) + 2 ^ (sizes / 4 % 4) ≤ 8

abbrev inside_test : Bool → ℕ → Bool
inside_test do_send sizes =
    let start = pick do_send 0x6000 0x4000 in
    let a = socket_area start sizes in
    ltb 8 (2 ^ (sizes % 4) + 2 ^ (sizes / 4 % 4))
    || (leb start a.basis
        && leb a.limit (start + 0x2000)
        && (a.basis == start + 2 ^ (10 + sizes % 4))
        && (a.limit == a.basis + 2 ^ (10 + sizes / 4 % 4)))

receiving_table : table 256 (inside_test false) ≡ true
unfolding table socket_area
receiving_table = refl

sending_table : table 256 (inside_test true) ≡ true
unfolding table socket_area
sending_table = refl

-- The memory of socket 1: as much as its two bits of the size register give, right behind that of
-- socket 0, in the data sheet's sizes of 1 KB and its doubles.
abbrev pub IsBehind : (start sizes : ℕ) → Area → Type 0
IsBehind start sizes a =
    (a.basis ≡ start + 2 ^ (10 + sizes % 4)) × (a.limit ≡ a.basis + 2 ^ (10 + sizes / 4 % 4))

socket_area-IsBehind :
    (do_send : Bool) (sizes : ℕ)
    → IsSplit sizes
    → IsBehind (pick do_send 0x6000 0x4000) sizes (socket_area (pick do_send 0x6000 0x4000) sizes)
socket_area-IsBehind false sizes split =
    let inside = table_lem 256 (inside_test false) receiving_table sizes split.is_byte in
    ground (arith, inside, split.fits)
socket_area-IsBehind true sizes split =
    let inside = table_lem 256 (inside_test true) sending_table sizes split.is_byte in
    ground (arith, inside, split.fits)

receiving-IsReceivingArea :
    (d : Driver) (sizes : ℕ)
    → IsSplit sizes
    → d.receiving ≡ socket_area 0x6000 sizes
    → IsReceivingArea d
receiving-IsReceivingArea d sizes split e =
    let inside = table_lem 256 (inside_test false) receiving_table sizes split.is_byte in
    record {
      area = subst IsArea (sym e) (socket_area-IsArea false sizes split.is_byte split.order);
      above = ground (arith, inside, split.fits, ap (λ a. a.basis) e);
      below = ground (arith, inside, split.fits, ap (λ a. a.limit) e);
    }

sending-IsSendingArea :
    (d : Driver) (sizes : ℕ)
    → IsSplit sizes
    → d.sending ≡ socket_area 0x4000 sizes
    → IsSendingArea d
sending-IsSendingArea d sizes split e =
    let inside = table_lem 256 (inside_test true) sending_table sizes split.is_byte in
    record {
      area = subst IsArea (sym e) (socket_area-IsArea true sizes split.is_byte split.order);
      above = ground (arith, inside, split.fits, ap (λ a. a.basis) e);
      below = ground (arith, inside, split.fits, ap (λ a. a.limit) e);
    }

-- The registers of the three addresses.
four_low : (reg : ℕ) → 0 < reg → reg < 0x0010 → (j : ℕ) → j < 4 → is_host_register (reg + j) ≡ true
four_low reg some low j h = ground arith

module _ (M : Machine) (d : Driver) (C : IsChip M d) where
  open C use {memory}

  -- An address in four registers, in the order of the network.
  abbrev pub Address : (reg v : ℕ) → M.State → Type 0
  Address reg v s =
      (memory s reg ≡ byte v)
      × (memory s (reg + 1) ≡ byte (v / 2 ^ 8))
      × (memory s (reg + 2) ≡ byte (v / 2 ^ 16))
      × (memory s (reg + 3) ≡ byte (v / 2 ^ 24))

  get_byte-host :
      (reg : ℕ) (s : M.State)
      → reg < 2 ^ 16
      → is_host_register reg ≡ true
      → (get_byte M d reg s).0 ≡ memory s reg
  unfolding get_byte
  get_byte-host reg s small h =
      C.load-data (set_addr M d reg s)
      ∙ ap (memory (set_addr M d reg s)) (address-set_addr M d C reg s small)
      ∙ memory-set_addr M d C reg s reg h

  -- The registers behind the two size registers' reading.
  read_sizes : M.State → M.State
  read_sizes s = (get_byte M d 0x001B (get_byte M d 0x001A s).1).1

  memory-read_sizes :
      (s : M.State) (a : ℕ) → is_host_register a ≡ true → memory (read_sizes s) a ≡ memory s a
  unfolding read_sizes
  memory-read_sizes s a h =
      memory-get_byte M d C 0x001B (get_byte M d 0x001A s).1 a h
      ∙ memory-get_byte M d C 0x001A s a h

  -- An address is written, and what is read or written elsewhere behind it leaves it.
  set_quad-Address :
      (reg v : ℕ) (s : M.State)
      → reg < 0x5FFC
      → ((j : ℕ) → j < 4 → is_host_register (reg + j) ≡ true)
      → Address reg v (set_quad M d reg v s)
  set_quad-Address reg v s small host = (
    ap (memory (set_quad M d reg v s)) {y = reg + 0} (omega arith)
        ∙ memory-set_quad M d C reg v s (reg + 0) small (host 0 (omega arith))
        ∙ ground arith,
    memory-set_quad M d C reg v s (reg + 1) small (host 1 (omega arith)) ∙ ground arith,
    memory-set_quad M d C reg v s (reg + 2) small (host 2 (omega arith)) ∙ ground arith,
    memory-set_quad M d C reg v s (reg + 3) small (host 3 (omega arith)) ∙ ground arith,
  )

  Address-kept :
      (reg v : ℕ) (s s' : M.State)
      → ((j : ℕ) → j < 4 → memory s' (reg + j) ≡ memory s (reg + j))
      → Address reg v s
      → Address reg v s'
  Address-kept reg v s s' same h = (
    ap (memory s') {y = reg + 0} (omega arith)
        ∙ same 0 (omega arith)
        ∙ ap (memory s) {y = reg} (omega arith)
        ∙ h.0,
    same 1 (omega arith) ∙ h.1,
    same 2 (omega arith) ∙ h.2,
    same 3 (omega arith) ∙ h.3,
  )

  set_quad-other :
      (reg v : ℕ) (s : M.State) (a : ℕ)
      → reg < 0x5FFC
      → is_host_register a ≡ true
      → (a < reg) ⊎ (reg + 3 < a)
      → memory (set_quad M d reg v s) a ≡ memory s a
  set_quad-other reg v s a small h apart = memory-set_quad M d C reg v s a small h ∙ ground arith

  Address-set_quad :
      (other v' reg v : ℕ) (s : M.State)
      → other < 0x5FFC
      → 0 < reg
      → reg < 0x0010
      → (reg + 3 < other) ⊎ (other + 3 < reg)
      → Address reg v s
      → Address reg v (set_quad M d other v' s)
  Address-set_quad other v' reg v s small some low apart =
      Address-kept reg v s (set_quad M d other v' s)
        (λ j h. set_quad-other other v' s (reg + j) small (four_low reg some low j h) (omega arith))

  Address-read_sizes :
      (reg v : ℕ) (s : M.State)
      → 0 < reg
      → reg < 0x0010
      → Address reg v s
      → Address reg v (read_sizes s)
  Address-read_sizes reg v s some low =
      Address-kept reg v s (read_sizes s)
        (λ j h. memory-read_sizes s (reg + j) (four_low reg some low j h))

  -- What the three addresses are written to.
  abbrev quads : (ip netmask gateway : ℕ) → M.State → M.State
  quads ip netmask gateway s =
      set_quad M d 0x0001 gateway (set_quad M d 0x0005 netmask (set_quad M d 0x000F ip s))

  quads-Addresses :
      (ip netmask gateway : ℕ) (s : M.State)
      → let s1 = read_sizes (quads ip netmask gateway s) in
        Address 0x000F ip s1 × Address 0x0005 netmask s1 × Address 0x0001 gateway s1
  quads-Addresses ip netmask gateway s =
      let s1 = set_quad M d 0x000F ip s in
      let s2 = set_quad M d 0x0005 netmask s1 in
      let s3 = set_quad M d 0x0001 gateway s2 in
      (
        Address-read_sizes 0x000F ip s3 (omega arith) (omega arith) (
            Address-set_quad 0x0001 gateway 0x000F ip s2 (omega arith) (omega arith) (omega arith)
              (inr (omega arith))
              (Address-set_quad 0x0005 netmask 0x000F ip s1 (omega arith) (omega arith)
                (omega arith) (inr (omega arith))
                (set_quad-Address 0x000F ip s (omega arith)
                  (four_low 0x000F (omega arith) (omega arith))))),
        Address-read_sizes 0x0005 netmask s3 (omega arith) (omega arith) (
            Address-set_quad 0x0001 gateway 0x0005 netmask s2 (omega arith) (omega arith)
              (omega arith) (inr (omega arith))
              (set_quad-Address 0x0005 netmask s1 (omega arith)
                (four_low 0x0005 (omega arith) (omega arith)))),
        Address-read_sizes 0x0001 gateway s3 (omega arith) (omega arith) (
            set_quad-Address 0x0001 gateway s2 (omega arith)
              (four_low 0x0001 (omega arith) (omega arith))),
      )

  quads-sizes :
      (ip netmask gateway reg : ℕ) (s : M.State)
      → is_host_register reg ≡ true
      → 0x0012 < reg
      → memory (quads ip netmask gateway s) reg ≡ memory s reg
  quads-sizes ip netmask gateway reg s h behind =
      set_quad-other 0x0001 gateway _ reg (omega arith) h (inr (omega arith))
      ∙ set_quad-other 0x0005 netmask _ reg (omega arith) h (inr (omega arith))
      ∙ set_quad-other 0x000F ip s reg (omega arith) h (inr (omega arith))

  -- When the two size registers give socket 1 no more memory than socket 0 and both no more than there
  -- is, `w5100_config` sets up the memory of socket 1 for both directions: right behind the memory
  -- of socket 0, as large as the register says, aligned to its size and within the card's memory. It
  -- copies the three addresses of ip65 into the card's registers, and leaves the I/O addresses alone.
  pub w5100_config-Configures :
      (cfg_ip cfg_netmask cfg_gateway : ℕ) (s : M.State)
      → IsSplit (memory s 0x001A)
      → IsSplit (memory s 0x001B)
      → let (d1, s1) = w5100_config M cfg_ip cfg_netmask cfg_gateway d s in
        IsReceivingArea d1
        × IsBehind 0x6000 (memory s 0x001A) d1.receiving
        × IsSendingArea d1
        × IsBehind 0x4000 (memory s 0x001B) d1.sending
        × (record d1 { receiving = d.receiving; sending = d.sending } ≡ d)
        × Address 0x000F cfg_ip s1
        × Address 0x0005 cfg_netmask s1
        × Address 0x0001 cfg_gateway s1
  unfolding w5100_config config_area get_byte set_addr read_sizes
  w5100_config-Configures cfg_ip cfg_netmask cfg_gateway s rx tx =
      let s3 = quads cfg_ip cfg_netmask cfg_gateway s in
      let written = quads-Addresses cfg_ip cfg_netmask cfg_gateway s in
      let receiving = ap (socket_area 0x6000) (
        get_byte-host 0x001A s3 (omega arith) refl
        ∙ quads-sizes cfg_ip cfg_netmask cfg_gateway 0x001A s refl (omega arith)) in
      let sending = ap (socket_area 0x4000) (
        get_byte-host 0x001B (get_byte M d 0x001A s3).1 (omega arith) refl
        ∙ memory-get_byte M d C 0x001A s3 0x001B refl
        ∙ quads-sizes cfg_ip cfg_netmask cfg_gateway 0x001B s refl (omega arith)) in
      (
        receiving-IsReceivingArea _ (memory s 0x001A) rx receiving,
        subst (IsBehind 0x6000 (memory s 0x001A)) (sym receiving)
            (socket_area-IsBehind false (memory s 0x001A) rx),
        sending-IsSendingArea _ (memory s 0x001B) tx sending,
        subst (IsBehind 0x4000 (memory s 0x001B)) (sym sending)
            (socket_area-IsBehind true (memory s 0x001B) tx),
        refl,
        written.0,
        written.1,
        written.2,
      )
