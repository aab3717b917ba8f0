-- ===== src/W5100/Sending/Sender.antt =====
-- apps/w5100.c and apps/w5100.h: the driver as a socket that its clients can send with.
use ip.Common.{ℕ, zero, suc, ◌+◌, ◌<◌, ◌≤◌, ◌≡◌, refl, ap, ◌∙◌, true, List, ◌++◌}
use ip.Common.{Option, none, some, arith, inl, inr, length}
use ip.Common.Bits.{low, low-le-ones}
use ip.Socket.{IsSender, write_bytes}
use ip.W5100.{Machine, Driver, w5100_data_request, w5100_data_commit}
use ip.W5100.Bus.{IsChip}
use ip.W5100.Commit.{KeepsPointers}
use ip.W5100.Window.{IsArea}
use ip.W5100.Waiting.{SettlesWithin}
use ip.W5100.Patience.{IsPatient, idle-lt}
use ip.W5100.Interface.{driver_socket, granted}
use ip.W5100.Falling.{falls-put}
use ip.W5100.Request.{Asks, w5100_data_request-Asks}
use ip.W5100.Sending.{IsSendingCard}
use ip.W5100.Sending.Same.{
  Same, Same-refl, abort_key-Same, connected-Same, request-Same, sending-IsDirection, Idles,
  Idles-Same,
}
use ip.W5100.Sending.Writing.{Wrote, write_bytes-Wrote}
use ip.W5100.Sending.Committing.{Stands, commit-sent}

-- The sending memory of the card is behind the registers, in front of the receiving memory.
pub record IsSendingArea (d : Driver) : Type 0 where
  pub area : IsArea d.sending
  pub above : 0x4000 ≤ d.sending.basis
  pub below : d.sending.limit ≤ 0x6000

module _ (M : Machine) (d : Driver) (fuel : ℕ) (C : IsChip M d) (K : KeepsPointers M d C)
    (T : IsSendingCard M d C K) (v : IsSendingArea d) where
  abbrev pub IdlesAt : M.State → Type 0
  IdlesAt = Idles M d C K T

  abbrev pub AskedAt : M.State → Option (ℕ × M.State) → Type 0
  AskedAt =
      Asks M d C true (Same M d C K T) IdlesAt (λ n s. n ≤ T.room s) T.base
        (sending-IsDirection M d C K T) v.area

  pub asked : (s : M.State) → IdlesAt s → AskedAt s (w5100_data_request M d fuel true s)
  asked s r =
      w5100_data_request-Asks M d C true (Same M d C K T) IdlesAt (λ n s. n ≤ T.room s) T.base
        (sending-IsDirection M d C K T) v.area fuel s r

  granted-Same :
      (s : M.State) (o : Option (ℕ × M.State)) → AskedAt s o → Same M d C K T s (granted s o).1
  granted-Same s none h = Same-refl M d C K T s
  granted-Same s (some (n, s')) h = h.0

  -- Room for so many bytes, and the address register in front of it.
  pub record Opens (k : ℕ) (s : M.State) : Type 0 where
    pub rests : IdlesAt s
    pub room : k ≤ T.room s
    pub at : 0 < k → C.address s ≡ d.sending.basis + low v.area.bits (T.base s)
    pub inside : d.sending.basis + low v.area.bits (T.base s) + k ≤ d.sending.limit

  begin-le : (b : ℕ) → d.sending.basis + low v.area.bits b + 0 ≤ d.sending.limit
  begin-le b = omega (arith, low-le-ones v.area.bits b, v.area.mask_is, v.area.limit_is)

  pub granted-Opens :
      (k : ℕ) (s : M.State) (o : Option (ℕ × M.State))
      → IdlesAt s
      → AskedAt s o
      → k ≤ (granted s o).0
      → Opens k (granted s o).1
  granted-Opens zero s o r h le = record {
    rests = Idles-Same M d C K T s _ (granted-Same s o h) r;
    room = omega arith;
    at = λ more. absurd (omega arith);
    inside = begin-le (T.base (granted s o).1);
  }
  granted-Opens (suc k) s none r h le = absurd (omega arith)
  granted-Opens (suc k) s (some (n, s')) r (same, inl z) le = absurd (omega (arith, z, le))
  granted-Opens (suc k) s (some (n, s')) r (same, inr (w, at, room)) le = record {
    rests = Idles-Same M d C K T s s' same r;
    room = omega (arith, w, le);
    at = λ more. at;
    inside = omega (arith, at, room, le);
  }

  -- What is written into the room.
  pub write_bytes-room :
      (Rel : M.State → M.State → Type 0)
      → (rel_refl : (s : M.State) → Rel s s)
      → (rel_trans : (s t u : M.State) → Rel s t → Rel t u → Rel s u)
      → (rel-write : (x : ℕ) (s : M.State)
          → d.sending.basis ≤ C.address s
          → C.address s < d.sending.limit
          → Rel s (M.store d.w5100_data x s))
      → (bytes : List ℕ) (s : M.State) → Opens (length bytes) s
      → Wrote M d fuel C K T v.area v.above v.below Rel rel_refl rel_trans rel-write
          (d.sending.basis + low v.area.bits (T.base s))
          bytes
          s
          (write_bytes (driver_socket M d fuel) bytes s)
  write_bytes-room Rel rel_refl rel_trans rel-write bytes s o =
      write_bytes-Wrote M d fuel C K T v.area v.above v.below Rel rel_refl rel_trans rel-write
        (d.sending.basis + low v.area.bits (T.base s)) bytes s (omega arith) o.at o.inside

  -- Everything that is written into the room is sent.
  pub commit_written :
      (bytes : List ℕ) (s : M.State)
      → Opens (length bytes) s
      → (T.sent (
            w5100_data_commit M d true
              (length bytes)
              (write_bytes (driver_socket M d fuel) bytes s))
          ≡ T.sent s ++ bytes)
        × IdlesAt (
            w5100_data_commit M d true
              (length bytes)
              (write_bytes (driver_socket M d fuel) bytes s))
  commit_written bytes s o =
      let w =
        write_bytes-room (λ s t. Unit) (λ s. tt) (λ s t u h k. tt) (λ x s low high. tt) bytes s o in
      let s1 = write_bytes (driver_socket M d fuel) bytes s in
      let hi = w.pointers 0x0524 refl in
      let lo = w.pointers 0x0525 refl in
      let same : low v.area.bits (T.base s1) ≡ low v.area.bits (T.base s) =
        ap (low v.area.bits) w.base-is in
      let rests : IdlesAt s1 = record {
        at_base = omega (arith, hi, lo, w.base-is, o.rests.at_base);
        byte_hi = omega (arith, hi, o.rests.byte_hi);
        byte_lo = omega (arith, lo, o.rests.byte_lo);
      } in
      let stands : Stands M d C K T v.area 0 bytes s1 = record {
        fits = omega (arith, same, o.inside);
        written = λ j h.
            ap (C.memory s1) {y = d.sending.basis + low v.area.bits (T.base s) + j}
              (omega (arith, same))
            ∙ w.written j h;
      } in
      let done =
        commit-sent M d C K T v.area bytes s1 rests stands (omega (arith, o.room, w.room-le)) in
      (done.0 ∙ ap (λ xs. xs ++ bytes) w.sent-is, done.1)

  pub put-granted :
      (s : M.State) (bytes : List ℕ)
      → IdlesAt s
      → length bytes ≤ (granted s (w5100_data_request M d fuel true s)).0
      → Opens (length bytes) (granted s (w5100_data_request M d fuel true s)).1
  put-granted s bytes r le = granted-Opens (length bytes) s _ r (asked s r) le

  module _ (P : IsPatient M d fuel IdlesAt true) (limit : ℕ) (A : SettlesWithin M d limit)
      (enough : limit < fuel) where
    -- The driver meets what the clients rely on to send.
    abbrev pub driver_socket-IsSender : IsSender (driver_socket M d fuel)
    driver_socket-IsSender = record {
      Free = IdlesAt;
      sent = T.sent;
      waits = P.patience;
      Free-abort_key = λ s r. Idles-Same M d C K T s _ (abort_key-Same M d C K T s) r;
      Free-connected = λ s r. Idles-Same M d C K T s _ (connected-Same M d C K T s) r;
      Free-send_request = λ s r. Idles-Same M d C K T s _ (request-Same M d C K T fuel true s) r;
      sent-abort_key = λ s. (abort_key-Same M d C K T s).kept.sent-is;
      sent-connected = λ s. (connected-Same M d C K T s).kept.sent-is;
      sent-send_request = λ s. (request-Same M d C K T fuel true s).kept.sent-is;
      sent-put = λ s bytes r le.
          let done =
            commit_written bytes (granted s (w5100_data_request M d fuel true s)).1
              (put-granted s bytes r le) in
          (
            done.0 ∙ ap (λ xs. xs ++ bytes) (request-Same M d C K T fuel true s).kept.sent-is,
            done.1,
          );
      waits-abort_key = P.falls.falls-abort_key;
      waits-put = λ s bytes r le. falls-put M d P.patience P.falls fuel s bytes;
      waits-idle = λ s r. idle-lt M d fuel IdlesAt true P limit A s enough r;
    }
