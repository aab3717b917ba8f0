-- ===== src/W5100/Sending.antt =====
-- apps/w5100.c: sending from the memory of socket 1.
pub mod Same
pub mod Writing
pub mod Committing
pub mod Sender
use ip.Common.{
  ℕ, zero, suc, ◌+◌, ◌%◌, ◌^◌, ◌<◌, ◌≤◌, ◌≡◌, ◌≢◌, ◌∙◌, Bool, true, false, List, [], ◌∷◌, ◌++◌,
  ◌==◌, if◌then◌else◌,
}
use ip.Common.{arith, bit_and, bit_or}
use ip.W5100.{Machine, Driver, sock_reg, get_word}
use ip.W5100.Bus.{IsChip}
use ip.W5100.Commit.{KeepsPointers, is_pointer, pointer}

module _ (M : Machine) (d : Driver) (C : IsChip M d) (sent : M.State → List ℕ)
    (base room : M.State → ℕ) where
  open C use {memory}

  -- Nothing is sent, no room is lost, and the memory of socket 1 stays.
  pub record Kept (s s' : M.State) : Type 0 where
    pub sent-is : sent s' ≡ sent s
    pub base-is : base s' ≡ base s
    pub room-le : room s ≤ room s'
    pub window : (a : ℕ) → d.sending.basis ≤ a → a < d.sending.limit → memory s' a ≡ memory s a

  pub Kept-trans : (s t u : M.State) → Kept s t → Kept t u → Kept s u
  Kept-trans s t u h k = record {
    sent-is = k.sent-is ∙ h.sent-is;
    base-is = k.base-is ∙ h.base-is;
    room-le = omega (arith, h.room-le, k.room-le);
    window = λ a low high. k.window a low high ∙ h.window a low high;
  }

  -- So many bytes that stand in the memory, `p` places and more behind `base`.
  unfoldable pub waiting : ℕ → ℕ → M.State → List ℕ
  waiting zero p s = []
  waiting (suc k) p s =
      memory s (bit_or (bit_and (base s + p) d.sending.mask) d.sending.basis) ∷ waiting k (suc p) s

-- The sending side of socket 1. `sent` is what has been sent, `base` the TX Write Pointer up to which
-- it has been, and `room` how many bytes can be written behind it.
pub record IsSendingCard (M : Machine) (d : Driver) (C : IsChip M d) (K : KeepsPointers M d C)
    : Type 0 where
  pub sent : M.State → List ℕ
  pub base : M.State → ℕ
  pub room : M.State → ℕ
  pub store_hi-Kept :
      (v : ℕ) (s : M.State) → Kept M d C sent base room s (M.store d.w5100_addr_hi v s)
  pub store_lo-Kept :
      (v : ℕ) (s : M.State) → Kept M d C sent base room s (M.store d.w5100_addr_lo v s)
  pub load-Kept : (s : M.State) → Kept M d C sent base room s (M.load d.w5100_data s).1
  pub abort_key-Kept : (s : M.State) → Kept M d C sent base room s (M.abort_key s).1
  pub pointer-Kept :
      (v : ℕ) (s : M.State)
      → is_pointer (C.address s) ≡ true
      → Kept M d C sent base room s (M.store d.w5100_data v s)
  pub pointer-abort_key :
      (s : M.State) (a : ℕ) → is_pointer a ≡ true → C.memory (M.abort_key s).1 a ≡ C.memory s a
  -- A write to the memory of socket 1 changes the byte that is addressed.
  pub window-store :
      (v : ℕ) (s : M.State)
      → d.sending.basis ≤ C.address s
      → C.address s < d.sending.limit
      → (sent (M.store d.w5100_data v s) ≡ sent s)
        × (base (M.store d.w5100_data v s) ≡ base s)
        × (room s ≤ room (M.store d.w5100_data v s))
        × ((a : ℕ)
            → d.sending.basis ≤ a
            → a < d.sending.limit
            → C.memory (M.store d.w5100_data v s) a
              ≡ (if C.address s == a then v else C.memory s a))
  -- A size that the TX Free Size Register gives twice, while nothing is to be sent, is free.
  pub settled-room :
      (n : ℕ) (s0 s1 s2 : M.State)
      → n ≢ 0
      → get_word M d (sock_reg 0x20) s0 ≡ (n, s1)
      → get_word M d (sock_reg 0x20) s1 ≡ (n, s2)
      → pointer M d C K true s2 ≡ base s2
      → n ≤ room s2
  -- A SEND command sends the bytes up to the TX Write Pointer.
  pub transmitted :
      (k : ℕ) (s : M.State)
      → C.address s ≡ sock_reg 0x01
      → k ≤ room s
      → pointer M d C K true s ≡ (base s + k) % 2 ^ 16
      → (sent (M.store d.w5100_data 0x20 s) ≡ sent s ++ waiting M d C sent base room k 0 s)
        × (base (M.store d.w5100_data 0x20 s) ≡ pointer M d C K true s)
        × ((a : ℕ) → is_pointer a ≡ true → C.memory (M.store d.w5100_data 0x20 s) a ≡ C.memory s a)
