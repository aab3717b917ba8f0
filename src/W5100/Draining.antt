-- ===== src/W5100/Draining.antt =====
-- apps/w5100.c: what is received leaves the sending side of socket 1 as it is.
use ip.Common.{ℕ, zero, suc, ◌≤◌, false}
use ip.Common.{◌+◌, ◌≤◌}
use ip.Common.{arith}
use ip.Common.Words.{add16}
use ip.Socket.{fetch, read_bytes}
use ip.W5100.{
  Machine, Driver, sock_reg, set_addr, get_word, set_word, set_byte, w5100_data_request,
  w5100_data_commit,
}
use ip.W5100.Bus.{IsChip, address-set_addr}
use ip.W5100.Commit.{KeepsPointers}
use ip.W5100.Accesses.{set_word-Rel}
use ip.W5100.Interface.{driver_socket, granted}
use ip.W5100.Receiving.{IsReceivingCard}
use ip.W5100.Sending.{IsSendingCard}
use ip.W5100.Sending.Same.{
  Same, Same-refl, Same-trans, Same-IsKept, load-Same, set_addr-Same, get_word-Same, request-Same,
}
use ip.W5100.Duplex.{IsDuplexCard}

module _ (M : Machine) (d : Driver) (fuel : ℕ) (C : IsChip M d) (K : KeepsPointers M d C)
    (R : IsReceivingCard M d C K) (T : IsSendingCard M d C K) (B : IsDuplexCard M d C K R T) where
  open C use {address, memory}

  abbrev pub SameAs : M.State → M.State → Type 0
  SameAs = Same M d C K T

  read_bytes-Same : (k : ℕ) (s : M.State) → SameAs s (read_bytes (driver_socket M d fuel) k s).1
  unfolding read_bytes
  read_bytes-Same zero s = Same-refl M d C K T s
  read_bytes-Same (suc k) s =
      let s1 = (M.load d.w5100_data s).1 in
      Same-trans M d C K T s s1 _ (load-Same M d C K T s) (read_bytes-Same k s1)

  read_pointer-Same :
      (b : ℕ) (s : M.State)
      → 0x0528 ≤ address s
      → address s ≤ 0x0528 + 1
      → SameAs s (M.store d.w5100_data b s)
  read_pointer-Same b s low high = record {
    kept = T.pointer-Kept b s (ground arith);
    pointers = λ i h. ground (arith, K.pointer-store b s i (ground arith) (omega arith));
  }

  set_word-Same : (v : ℕ) (s : M.State) → SameAs s (set_word M d (sock_reg 0x28) v s)
  set_word-Same v s =
      set_word-Rel M d SameAs (Same-IsKept M d C K T) C (sock_reg 0x28) v s (omega arith)
        read_pointer-Same

  commit-Same : (size : ℕ) (s : M.State) → SameAs s (w5100_data_commit M d false size s)
  unfolding w5100_data_commit set_byte
  commit-Same size s =
      let q = get_word M d (sock_reg 0x28) s in
      let s2 = set_word M d (sock_reg 0x28) (add16 q.0 size) q.1 in
      let s3 = set_addr M d (sock_reg 0x01) s2 in
      let at = address-set_addr M d C (sock_reg 0x01) s2 (omega arith) in
      Same-trans M d C K T s q.1 _ (get_word-Same M d C K T (sock_reg 0x28) s) (
        Same-trans M d C K T q.1 s2 _ (set_word-Same (add16 q.0 size) q.1) (
          Same-trans M d C K T s2 s3 _ (set_addr-Same M d C K T (sock_reg 0x01) s2)
            (record { kept = B.recv-Kept s3 at; pointers = λ a h. B.recv-pointer s3 a at h })))

  -- Whatever is read and committed behind a request, nothing is sent or lost, and the write pointer is
  -- as it was.
  pub fetch-Same :
      (k : ℕ) (s : M.State)
      → SameAs s
          (fetch (driver_socket M d fuel) k (granted s (w5100_data_request M d fuel false s)).1).1
  unfolding fetch
  fetch-Same k s =
      let s1 = (granted s (w5100_data_request M d fuel false s)).1 in
      let s2 = (read_bytes (driver_socket M d fuel) k s1).1 in
      Same-trans M d C K T s s1 _ (request-Same M d C K T fuel false s)
        (Same-trans M d C K T s1 s2 _ (read_bytes-Same k s1) (commit-Same k s2))
