-- ===== src/W5100/Receiving.antt =====
-- apps/w5100.c: receiving from the memory of socket 1.
pub mod Same
pub mod Reading
pub mod Receiver
use ip.Common.{
  ℕ, zero, suc, ◌+◌, ◌*◌, ◌/◌, ◌%◌, ◌^◌, ◌<◌, ◌≤◌, ◌≡◌, ◌≢◌, refl, sym, ap, ◌∙◌, Bool, true, false,
  List, ◌==◌, ==_iff, ltb, if◌then◌else◌,
}
use ip.Common.{
  Option, none, some, arith, Bool-cases, inl, inr, ◌⊎◌, bit_and, bit_or, get_or, length, take, drop,
  not,
}
use ip.Common.Bits.{low}
use ip.Common.Words.{sub16, add16}
use ip.W5100.{
  Machine, Driver, area, pick, sock_reg, set_addr, get_byte, get_word, set_byte, set_word, settle,
  settled, grant, w5100_data_request,
}
use ip.W5100.Bus.{IsChip, address-set_addr}
use ip.W5100.Commit.{
  KeepsPointers, is_pointer, pointer, get_word-word, pointer-get_word, pointer-set_addr,
}
use ip.W5100.Window.{IsArea, address_in_area, cut_off}

module _ (M : Machine) (d : Driver) (C : IsChip M d) (stream : M.State → List ℕ)
    (base : M.State → ℕ) where
  open C use {address, memory}

  -- So many bytes of the stream have been received, and stand in the memory from `base` on, the end
  -- of which goes on at its begin.
  pub record Held (n : ℕ) (s : M.State) : Type 0 where
    pub fits : n ≤ length (stream s)
    pub bytes :
        (j : ℕ)
        → j < n
        → memory s (bit_or (bit_and (base s + j) d.receiving.mask) d.receiving.basis)
          ≡ get_or (stream s) j 0

  -- Nothing is acknowledged, and what has been received stays.
  pub record Kept (s s' : M.State) : Type 0 where
    pub stream-is : stream s' ≡ stream s
    pub base-is : base s' ≡ base s
    pub held : (n : ℕ) → Held n s → Held n s'

  pub Kept-trans : (s t u : M.State) → Kept s t → Kept t u → Kept s u
  Kept-trans s t u h k = record {
    stream-is = k.stream-is ∙ h.stream-is;
    base-is = k.base-is ∙ h.base-is;
    held = λ n v. k.held n (h.held n v);
  }

-- The receiving side of socket 1. `stream` is what the peer sends behind the bytes that have been
-- acknowledged, and `base` the RX Read Pointer up to which they have been.
pub record IsReceivingCard (M : Machine) (d : Driver) (C : IsChip M d) (K : KeepsPointers M d C)
    : Type 0 where
  pub stream : M.State → List ℕ
  pub base : M.State → ℕ
  -- Received bytes stay where they are until a RECV command, whatever else is accessed.
  pub store_hi-Kept : (v : ℕ) (s : M.State) → Kept M d C stream base s (M.store d.w5100_addr_hi v s)
  pub store_lo-Kept : (v : ℕ) (s : M.State) → Kept M d C stream base s (M.store d.w5100_addr_lo v s)
  pub load-Kept : (s : M.State) → Kept M d C stream base s (M.load d.w5100_data s).1
  pub abort_key-Kept : (s : M.State) → Kept M d C stream base s (M.abort_key s).1
  pub pointer-Kept :
      (v : ℕ) (s : M.State)
      → is_pointer (C.address s) ≡ true
      → Kept M d C stream base s (M.store d.w5100_data v s)
  pub pointer-abort_key :
      (s : M.State) (a : ℕ) → is_pointer a ≡ true → C.memory (M.abort_key s).1 a ≡ C.memory s a
  -- A size that the RX Received Size Register gives twice, while nothing is to be acknowledged, is
  -- that of received bytes.
  pub settled-Held :
      (n : ℕ) (s0 s1 s2 : M.State)
      → n ≢ 0
      → get_word M d (sock_reg 0x26) s0 ≡ (n, s1)
      → get_word M d (sock_reg 0x26) s1 ≡ (n, s2)
      → pointer M d C K false s2 ≡ base s2
      → Held M d C stream base n s2
  -- A RECV command acknowledges the bytes up to the RX Read Pointer.
  pub received :
      (n k : ℕ) (s : M.State)
      → C.address s ≡ sock_reg 0x01
      → Held M d C stream base n s
      → k ≤ n
      → k < 2 ^ 16
      → pointer M d C K false s ≡ (base s + k) % 2 ^ 16
      → (stream (M.store d.w5100_data 0x40 s) ≡ drop k (stream s))
        × (base (M.store d.w5100_data 0x40 s) ≡ pointer M d C K false s)
        × ((a : ℕ) → is_pointer a ≡ true → C.memory (M.store d.w5100_data 0x40 s) a ≡ C.memory s a)
