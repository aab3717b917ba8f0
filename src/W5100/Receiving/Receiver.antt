-- ===== src/W5100/Receiving/Receiver.antt =====
-- apps/w5100.c and apps/w5100.h: the driver as a socket that its clients can receive from.
use ip.Common.{ℕ, zero, suc, ◌+◌, ◌<◌, ◌≤◌, ◌≡◌, ap, ◌∙◌, false}
use ip.Common.{Option, none, some, arith, inl, inr, length, take, drop}
use ip.Common.Bits.{low, low-le-ones}
use ip.Socket.{IsReceiver, fetch, read_bytes}
use ip.W5100.{Machine, Driver, w5100_data_request}
use ip.W5100.Bus.{IsChip}
use ip.W5100.Commit.{KeepsPointers}
use ip.W5100.Window.{IsArea}
use ip.W5100.Waiting.{SettlesWithin}
use ip.W5100.Patience.{IsPatient, idle-lt}
use ip.W5100.Interface.{driver_socket, granted}
use ip.W5100.Falling.{falls-request, falls-read_bytes, falls-commit}
use ip.W5100.Receiving.{Held, IsReceivingCard}
use ip.W5100.Receiving.Same.{
  Same, Same-refl, abort_key-Same, connected-Same, request-Same, receiving-IsDirection, Rests,
  Rests-Same,
}
use ip.W5100.Request.{Asks, w5100_data_request-Asks}
use ip.W5100.Receiving.Reading.{read_bytes-stream, commit-stream}

-- The receiving memory of the card is behind the sending memory, up to 0x8000.
pub record IsReceivingArea (d : Driver) : Type 0 where
  pub area : IsArea d.receiving
  pub above : 0x6000 ≤ d.receiving.basis
  pub below : d.receiving.limit ≤ 0x8000

module _ (M : Machine) (d : Driver) (fuel : ℕ) (C : IsChip M d) (K : KeepsPointers M d C)
    (R : IsReceivingCard M d C K) (v : IsReceivingArea d)
    (P : IsPatient M d fuel (Rests M d C K R) false) (limit : ℕ) (A : SettlesWithin M d limit)
    (enough : limit < fuel) where
  abbrev pub RestsAt : M.State → Type 0
  RestsAt = Rests M d C K R

  abbrev pub AskedAt : M.State → Option (ℕ × M.State) → Type 0
  AskedAt =
      Asks M d C false (Same M d C K R) RestsAt (Held M d C R.stream R.base) R.base
        (receiving-IsDirection M d C K R) v.area

  pub asked : (s : M.State) → RestsAt s → AskedAt s (w5100_data_request M d fuel false s)
  asked s r =
      w5100_data_request-Asks M d C false (Same M d C K R) RestsAt (Held M d C R.stream R.base)
        R.base (receiving-IsDirection M d C K R) v.area fuel s r

  granted-Same :
      (s : M.State) (o : Option (ℕ × M.State)) → AskedAt s o → Same M d C K R s (granted s o).1
  granted-Same s none h = Same-refl M d C K R s
  granted-Same s (some (n, s')) h = h.0

  pub granted-length :
      (s : M.State) (o : Option (ℕ × M.State)) → AskedAt s o → (granted s o).0 ≤ length (R.stream s)
  granted-length s none h = omega arith
  granted-length s (some (n, s')) (same, inl z) = omega (arith, z)
  granted-length s (some (n, s')) (same, inr (w, at, room)) =
      omega (arith, w.fits, ap length same.kept.stream-is)

  -- What is read and acknowledged, and what that leaves.
  abbrev pub Fetched : ℕ → M.State → M.State → Type 0
  Fetched k s s' =
      ((fetch (driver_socket M d fuel) k s').0 ≡ take k (R.stream s))
      × (R.stream (fetch (driver_socket M d fuel) k s').1 ≡ drop k (R.stream s))
      × RestsAt (fetch (driver_socket M d fuel) k s').1

  fetch-Fetched :
      (n k : ℕ) (s s' : M.State)
      → RestsAt s'
      → Same M d C K R s s'
      → Held M d C R.stream R.base n s'
      → k ≤ n
      → (0 < k → C.address s' ≡ d.receiving.basis + low v.area.bits (R.base s') + 0)
      → d.receiving.basis + low v.area.bits (R.base s') + 0 + k ≤ d.receiving.limit
      → Fetched k s s'
  unfolding fetch
  fetch-Fetched n k s s' r same w few at room =
      let s1 = (read_bytes (driver_socket M d fuel) k s').1 in
      let read =
        read_bytes-stream M d fuel C K R v.area v.above v.below k 0 n s' w at (omega (arith, few))
          room in
      let done =
        commit-stream M d fuel C K R v.area n k s1 (Rests-Same M d C K R s' s1 read.1 r)
          (read.1.kept.held n w) few (omega (arith, room, v.area.limit-lt)) in
      (
        read.0 ∙ ap (take k) same.kept.stream-is,
        done.0 ∙ ap (drop k) (read.1.kept.stream-is ∙ same.kept.stream-is),
        done.1,
      )

  pub nothing-Held : (s : M.State) → Held M d C R.stream R.base 0 s
  nothing-Held s = record { fits = omega arith; bytes = λ j lt. absurd (omega arith) }

  begin-le : (b : ℕ) → d.receiving.basis + low v.area.bits b + 0 + 0 ≤ d.receiving.limit
  begin-le b = omega (arith, low-le-ones v.area.bits b, v.area.mask_is, v.area.limit_is)

  pub fetch-granted :
      (k : ℕ) (s : M.State) (o : Option (ℕ × M.State))
      → RestsAt s
      → AskedAt s o
      → k ≤ (granted s o).0
      → Fetched k s (granted s o).1
  fetch-granted zero s o r h le =
      let same = granted-Same s o h in
      fetch-Fetched 0 0 s (granted s o).1 (Rests-Same M d C K R s _ same r) same
        (nothing-Held (granted s o).1) (omega arith) (λ some_data. absurd (omega arith))
        (begin-le (R.base (granted s o).1))
  fetch-granted (suc k) s none r h le = absurd (omega arith)
  fetch-granted (suc k) s (some (n, s')) r (same, inl z) le = absurd (omega (arith, z, le))
  fetch-granted (suc k) s (some (n, s')) r (same, inr (w, at, room)) le =
      fetch-Fetched n (suc k) s s' (Rests-Same M d C K R s s' same r) same w le
        (λ some_data. omega (arith, at)) (omega (arith, at, room, le))

  pub patience-fetch :
      (s : M.State) (k : ℕ)
      → P.patience
          (fetch (driver_socket M d fuel) k (granted s (w5100_data_request M d fuel false s)).1).1
        ≤ P.patience s
  unfolding fetch
  patience-fetch s k =
      let s1 = (granted s (w5100_data_request M d fuel false s)).1 in
      omega (
        arith,
        falls-request M d P.patience P.falls fuel false s,
        falls-read_bytes M d P.patience P.falls fuel k s1,
        falls-commit M d P.patience P.falls false k (read_bytes (driver_socket M d fuel) k s1).1,
      )

  -- The driver meets what the clients rely on to receive.
  abbrev pub driver_socket-IsReceiver : IsReceiver (driver_socket M d fuel)
  driver_socket-IsReceiver = record {
    Ready = RestsAt;
    stream = R.stream;
    patience = P.patience;
    Ready-abort_key = λ s r. Rests-Same M d C K R s _ (abort_key-Same M d C K R s) r;
    Ready-connected = λ s r. Rests-Same M d C K R s _ (connected-Same M d C K R s) r;
    Ready-receive_request = λ s r. Rests-Same M d C K R s _ (request-Same M d C K R fuel false s) r;
    stream-abort_key = λ s. (abort_key-Same M d C K R s).kept.stream-is;
    stream-connected = λ s. (connected-Same M d C K R s).kept.stream-is;
    stream-receive_request = λ s. (request-Same M d C K R fuel false s).kept.stream-is;
    request-le = λ s r. granted-length s _ (asked s r);
    fetch-stream = λ s k r le. fetch-granted k s _ r (asked s r) le;
    commit_zero = λ s r.
        commit-stream M d fuel C K R v.area 0 0 s r (nothing-Held s) (omega arith) (omega arith);
    patience-abort_key = P.falls.falls-abort_key;
    patience-fetch = λ s k r le. patience-fetch s k;
    patience-idle = λ s r. idle-lt M d fuel RestsAt false P limit A s enough r;
  }
