-- ===== src/W5100/Duplex.antt =====
-- apps/w5100.c and apps/w5100.h: the driver as a socket whose clients send and then receive.
use ip.Common.{ℕ, ◌<◌, ◌≤◌, ◌≡◌, true, false, List, length}
use ip.Common.{◌+◌, ◌<◌, ◌≤◌}
use ip.Common.{arith}
use ip.Common.Words.{add16}
use ip.Socket.{IsDuplex, put, write_bytes}
use ip.W5100.{
  Machine, Driver, sock_reg, set_addr, get_word, set_word, set_byte, w5100_data_request,
  w5100_data_commit,
}
use ip.W5100.Bus.{IsChip, address-set_addr}
use ip.W5100.Commit.{KeepsPointers}
use ip.W5100.Waiting.{SettlesWithin}
use ip.W5100.Patience.{IsPatient}
use ip.W5100.Accesses.{set_word-Rel}
use ip.W5100.Interface.{driver_socket, granted}
use ip.W5100.Falling.{falls-request, falls-connected, falls-put}
use ip.W5100.Receiving.{Kept, IsReceivingCard}
use ip.W5100.Receiving.Same.{
  Same, Same-refl, Same-trans, Same-IsKept, set_addr-Same, get_word-Same, request-Same,
  is_read_pointer, Rests, Rests-Same,
}
use ip.W5100.Receiving.Receiver.{IsReceivingArea, driver_socket-IsReceiver}
use ip.W5100.Sending.{IsSendingCard}
use ip.W5100.Sending
use ip.W5100.Sending.Same.{Idles, is_write_pointer}
use ip.W5100.Sending.Sender.{IsSendingArea, write_bytes-room, put-granted, driver_socket-IsSender}

-- The two sides of socket 1 are apart: writes to the sending memory and a SEND command neither take
-- received bytes away nor move the RX Read Pointer, and a RECV command neither sends anything nor
-- changes the sending memory or the TX Write Pointer.
pub record IsDuplexCard (M : Machine) (d : Driver) (C : IsChip M d) (K : KeepsPointers M d C)
    (R : IsReceivingCard M d C K) (T : IsSendingCard M d C K) : Type 0 where
  pub window-Kept :
      (x : ℕ) (s : M.State)
      → d.sending.basis ≤ C.address s
      → C.address s < d.sending.limit
      → Kept M d C R.stream R.base s (M.store d.w5100_data x s)
  pub send-Kept :
      (s : M.State)
      → C.address s ≡ sock_reg 0x01
      → Kept M d C R.stream R.base s (M.store d.w5100_data 0x20 s)
  pub send-pointer :
      (s : M.State) (a : ℕ)
      → C.address s ≡ sock_reg 0x01
      → is_read_pointer a ≡ true
      → C.memory (M.store d.w5100_data 0x20 s) a ≡ C.memory s a
  pub recv-Kept :
      (s : M.State)
      → C.address s ≡ sock_reg 0x01
      → Sending.Kept M d C T.sent T.base T.room s (M.store d.w5100_data 0x40 s)
  pub recv-pointer :
      (s : M.State) (a : ℕ)
      → C.address s ≡ sock_reg 0x01
      → is_write_pointer a ≡ true
      → C.memory (M.store d.w5100_data 0x40 s) a ≡ C.memory s a

module _ (M : Machine) (d : Driver) (fuel : ℕ) (C : IsChip M d) (K : KeepsPointers M d C)
    (R : IsReceivingCard M d C K) (T : IsSendingCard M d C K) (B : IsDuplexCard M d C K R T)
    (x : IsSendingArea d) where
  open C use {address, memory}

  abbrev pub SameAs : M.State → M.State → Type 0
  SameAs = Same M d C K R

  window-Same :
      (b : ℕ) (s : M.State)
      → d.sending.basis ≤ address s
      → address s < d.sending.limit
      → SameAs s (M.store d.w5100_data b s)
  window-Same b s low high = record {
    kept = B.window-Kept b s low high;
    pointers = λ a h.
        let behind : 0x4000 ≤ address s = omega (arith, low, x.above) in
        ground (arith, K.pointer-store b s a (ground arith) (omega arith));
  }

  write_pointer-Same :
      (b : ℕ) (s : M.State)
      → 0x0524 ≤ address s
      → address s ≤ 0x0524 + 1
      → SameAs s (M.store d.w5100_data b s)
  write_pointer-Same b s low high = record {
    kept = R.pointer-Kept b s (ground arith);
    pointers = λ i h. ground (arith, K.pointer-store b s i (ground arith) (omega arith));
  }

  set_word-Same : (v : ℕ) (s : M.State) → SameAs s (set_word M d (sock_reg 0x24) v s)
  set_word-Same v s =
      set_word-Rel M d SameAs (Same-IsKept M d C K R) C (sock_reg 0x24) v s (omega arith)
        write_pointer-Same

  commit-Same : (size : ℕ) (s : M.State) → SameAs s (w5100_data_commit M d true size s)
  unfolding w5100_data_commit set_byte
  commit-Same size s =
      let q = get_word M d (sock_reg 0x24) s in
      let s2 = set_word M d (sock_reg 0x24) (add16 q.0 size) q.1 in
      let s3 = set_addr M d (sock_reg 0x01) s2 in
      let at = address-set_addr M d C (sock_reg 0x01) s2 (omega arith) in
      Same-trans M d C K R s q.1 _ (get_word-Same M d C K R (sock_reg 0x24) s) (
        Same-trans M d C K R q.1 s2 _ (set_word-Same (add16 q.0 size) q.1) (
          Same-trans M d C K R s2 s3 _ (set_addr-Same M d C K R (sock_reg 0x01) s2)
            (record { kept = B.send-Kept s3 at; pointers = λ a h. B.send-pointer s3 a at h })))

  -- What is written and sent leaves the receiving side as it is.
  pub put-Same :
      (s : M.State) (bytes : List ℕ)
      → Idles M d C K T s
      → length bytes ≤ (granted s (w5100_data_request M d fuel true s)).0
      → SameAs s (put (driver_socket M d fuel) bytes s)
  put-Same s bytes r le =
      let s1 = (granted s (w5100_data_request M d fuel true s)).1 in
      let s2 = write_bytes (driver_socket M d fuel) bytes s1 in
      let w =
        write_bytes-room M d fuel C K T x SameAs (Same-refl M d C K R) (Same-trans M d C K R)
          window-Same bytes s1 (put-granted M d fuel C K T x s bytes r le) in
      Same-trans M d C K R s s1 _ (request-Same M d C K R fuel true s)
        (Same-trans M d C K R s1 s2 _ w.related (commit-Same (length bytes) s2))

  module _ (v : IsReceivingArea d) (P : IsPatient M d fuel (Rests M d C K R) false)
      (Q : IsPatient M d fuel (Idles M d C K T) true) (limit : ℕ) (A : SettlesWithin M d limit)
      (enough : limit < fuel) where
    -- The driver meets what its clients rely on to receive what the peer answers.
    abbrev pub driver_socket-IsDuplex :
        IsDuplex
          (driver_socket M d fuel)
          (driver_socket-IsReceiver M d fuel C K R v P limit A enough)
          (driver_socket-IsSender M d fuel C K T x Q limit A enough)
    driver_socket-IsDuplex = record {
      patience-connected = λ s. falls-connected M d P.patience P.falls s;
      Ready-send_request = λ s r. Rests-Same M d C K R s _ (request-Same M d C K R fuel true s) r;
      stream-send_request = λ s. (request-Same M d C K R fuel true s).kept.stream-is;
      patience-send_request = λ s. falls-request M d P.patience P.falls fuel true s;
      put_lem = λ s bytes free ready le.
          let same = put-Same s bytes free le in
          (
            Rests-Same M d C K R s _ same ready,
            same.kept.stream-is,
            falls-put M d P.patience P.falls fuel s bytes,
          );
    }
