-- ===== src/W5100/Sending/Writing.antt =====
-- apps/w5100.c: writing bytes to the memory of socket 1, and sending them.
use ip.Common.{ℕ, zero, suc, ◌+◌, ◌<◌, ◌≤◌, ◌≡◌, refl, ap, ◌∙◌, true, List, [], ◌∷◌}
use ip.Common.{arith, get_or, length}
use ip.Socket.{write_bytes}
use ip.W5100.{Machine, Driver}
use ip.W5100.Bus.{IsChip}
use ip.W5100.Commit.{KeepsPointers, is_pointer}
use ip.W5100.Interface.{driver_socket}
use ip.W5100.Window.{IsArea}
use ip.W5100.Sending.{IsSendingCard}

module _ (M : Machine) (d : Driver) (fuel : ℕ) (C : IsChip M d) (K : KeepsPointers M d C)
    (T : IsSendingCard M d C K) (v : IsArea d.sending) where
  open C use {address, memory}

  module _ (above : 0x4000 ≤ d.sending.basis) (below : d.sending.limit ≤ 0x6000)
      (Rel : M.State → M.State → Type 0) (rel_refl : (s : M.State) → Rel s s)
      (rel_trans : (s t u : M.State) → Rel s t → Rel t u → Rel s u)
      (rel-write : (x : ℕ) (s : M.State)
        → d.sending.basis ≤ address s
        → address s < d.sending.limit
        → Rel s (M.store d.w5100_data x s)) where
    -- The bytes stand in the memory from a place on, and nothing in front of it has changed.
    pub record Wrote (start : ℕ) (bytes : List ℕ) (s s' : M.State) : Type 0 where
      pub sent-is : T.sent s' ≡ T.sent s
      pub base-is : T.base s' ≡ T.base s
      pub room-le : T.room s ≤ T.room s'
      pub pointers : (a : ℕ) → is_pointer a ≡ true → memory s' a ≡ memory s a
      pub in_front : (a : ℕ) → d.sending.basis ≤ a → a < start → memory s' a ≡ memory s a
      pub written : (j : ℕ) → j < length bytes → memory s' (start + j) ≡ get_or bytes j 0
      pub related : Rel s s'

    pub write_bytes-Wrote :
        (start : ℕ) (bytes : List ℕ) (s : M.State)
        → d.sending.basis ≤ start
        → (0 < length bytes → address s ≡ start)
        → start + length bytes ≤ d.sending.limit
        → Wrote start bytes s (write_bytes (driver_socket M d fuel) bytes s)
    unfolding write_bytes
    write_bytes-Wrote start [] s low_end at fits = record {
      sent-is = refl;
      base-is = refl;
      room-le = omega arith;
      pointers = λ a h. refl;
      in_front = λ a low high. refl;
      written = λ j h. absurd (omega arith);
      related = rel_refl s;
    }
    write_bytes-Wrote start (b ∷ bytes) s low_end at fits =
        let s1 = M.store d.w5100_data b s in
        let here : address s ≡ start = at (omega arith) in
        let w = T.window-store b s (omega arith) (omega arith) in
        let there : 0 < length bytes → address s1 ≡ start + 1 =
          λ more. omega (arith, here, C.address-store b s (omega arith)) in
        let rest = write_bytes-Wrote (start + 1) bytes s1 (omega arith) there (omega arith) in
        let s' = write_bytes (driver_socket M d fuel) bytes s1 in
        let first : memory s' start ≡ b =
          rest.in_front start low_end (omega arith)
          ∙ ground (arith, w.3 start low_end (omega arith)) in
        record {
          sent-is = rest.sent-is ∙ w.0;
          base-is = rest.base-is ∙ w.1;
          room-le = omega (arith, w.2, rest.room-le);
          pointers = λ a h.
              rest.pointers a h ∙ ground (arith, K.pointer-store b s a h (omega (arith, here)));
          in_front = λ a low high.
              rest.in_front a low (omega arith) ∙ ground (arith, w.3 a low (omega arith));
          written = λ j h. placed j h first rest.written;
          related = rel_trans s s1 s' (rel-write b s (omega arith) (omega arith)) rest.related;
        }
      where
        placed :
            (j : ℕ)
            → j < suc (length bytes)
            → memory (write_bytes (driver_socket M d fuel) bytes (M.store d.w5100_data b s)) start
              ≡ b
            → ((i : ℕ)
                → i < length bytes
                → memory
                    (write_bytes (driver_socket M d fuel) bytes (M.store d.w5100_data b s))
                    (start + 1 + i)
                  ≡ get_or bytes i 0)
            → memory
                (write_bytes (driver_socket M d fuel) bytes (M.store d.w5100_data b s))
                (start + j)
              ≡ get_or (b ∷ bytes) j 0
        placed zero h first later =
            ap (memory (write_bytes (driver_socket M d fuel) bytes (M.store d.w5100_data b s)))
              {y = start} (omega arith)
            ∙ first
        placed (suc j) h first later =
            ap (memory (write_bytes (driver_socket M d fuel) bytes (M.store d.w5100_data b s)))
              {y = start + 1 + j} (omega arith)
            ∙ later j (omega arith)
