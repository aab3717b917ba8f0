-- ===== src/Wget/Device/Closes.antt =====
-- apps/wget65.c: how `write_device` leaves the socket.
use ip.Common.{ℕ, zero, suc, ◌+◌, ◌/◌, refl, Bool, true, false, ◌&&◌, List, ltb}
use ip.Common.{Option, none, some, Bool-cases, Option-cases, inl, inr}
use ip.Common.Words.{add16}
use ip.Socket.{Socket, Poll, aborted, idle, closed, chunk, poll}
use ip.Wget.Receive.{Exit, buffer_size}
use ip.Wget.Receive.Closes.{ClosedAt}
use ip.Wget.Device.{
  Drives, Loop, Progress, again, finished, stopped, clip, write_sectors, flush, take_in, round,
  finish, receive, sector_order, write_device,
}

module _ (S : Socket) (D : Drives) where
  abbrev pub Closes : Option (Exit × S.State × D.State) → Type 0
  Closes none = Unit
  Closes (some (e, s, t)) = ClosedAt S e s

  module _ (drive : ℕ) (prodos : Bool) where
    abbrev Steps : Progress S.State D.State → Type 0
    Steps (again l s t) = Unit
    Steps (finished s t) = Unit
    Steps (stopped e s t) = ClosedAt S e s

    flush-Steps :
        (cont : Bool) (l : Loop) (s : S.State) (t : D.State)
        → Steps (flush S D drive prodos cont l s t)
    unfolding flush
    flush-Steps cont l s t =
        elim (Bool-cases
          (write_sectors S D drive prodos ((l.len + 0x1FF) / 0x200) 0 l.num l.buffer t).0) [
            | inl full ↦ rw full (elim (Bool-cases cont) [ inl c ↦ rw c tt | inr c ↦ rw c tt ])
            | inr short ↦ rw short (s, refl)
          ]

    take_in-Steps :
        (cont : Bool) (rcv : ℕ) (l : Loop) (s : S.State) (t : D.State)
        → Steps (take_in S D drive prodos cont rcv l s t)
    unfolding take_in
    take_in-Steps cont rcv l s t =
        let n = clip prodos l.len rcv in
        elim (Bool-cases (cont && ltb (add16 l.len n) buffer_size)) [
          | inl open_round ↦ rw open_round tt
          | inr full ↦ rw full (flush-Steps cont _ _ t)
        ]

    round-Steps : (l : Loop) (t : D.State) (p : Poll S.State) → Steps (round S D drive prodos l t p)
    unfolding round
    round-Steps l t (aborted s) = (s, refl)
    round-Steps l t (idle s) = tt
    round-Steps l t (closed s) = take_in-Steps false 0 l s t
    round-Steps l t (chunk n s) = take_in-Steps true n l s t

    finish-ClosedAt :
        (s : S.State) (t : D.State)
        → ClosedAt S (finish S D drive prodos s t).0 (finish S D drive prodos s t).1
    unfolding finish
    finish-ClosedAt s t = elim (Bool-cases (D.close_drive drive t).0) [
      | inl failed ↦ rw failed (s, refl)
      | inr fine ↦ rw fine tt
    ]

    receive-Closes :
        (fuel : ℕ) (l : Loop) (s : S.State) (t : D.State)
        → Closes (receive S D drive prodos fuel l s t)
    unfolding receive
    receive-Closes zero l s t = tt
    receive-Closes (suc fuel) l s t =
        go (receive-Closes fuel) _ (round-Steps l t (poll S S.receive_request s))
      where
        go :
            ((l' : Loop) (s' : S.State) (t' : D.State)
              → Closes (receive S D drive prodos fuel l' s' t'))
            → (p : Progress S.State D.State) → Steps p
            → Closes (elim p [
              | again l' s' t' ↦ receive S D drive prodos fuel l' s' t'
              | finished s' t' ↦ some (finish S D drive prodos s' t')
              | stopped e s' t' ↦ some (e, s', t')
            ])
        go ih (again l' s' t') h = ih l' s' t'
        go ih (finished s' t') h = finish-ClosedAt s' t'
        go ih (stopped e s' t') h = h

  pub write_device-Closes :
      (fuel : ℕ) (before name buffer : List ℕ) (device : ℕ) (s : S.State) (t : D.State)
      → Closes (write_device S D fuel before name buffer device s t)
  unfolding write_device
  write_device-Closes fuel before name buffer device s t =
      elim (Option-cases (D.open_drive device t).0) [
        | inl failed ↦ rw (failed, write_device) (s, refl)
        | inr (drive, e) ↦
            rw (e, write_device)
              (receive-Closes drive (sector_order S D before name drive (D.open_drive device t).1).0
                fuel _ s _)
      ]
