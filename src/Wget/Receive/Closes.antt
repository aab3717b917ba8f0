-- ===== src/Wget/Receive/Closes.antt =====
-- apps/wget65.c: how `write_file` leaves the socket.
use ip.Common.{ℕ, zero, suc, refl, Bool, true, false, ◌&&◌, List, ◌==◌, ltb, if◌then◌else◌}
use ip.Common.{Option, none, some, take, Bool-cases, Option-cases, inl, inr}
use ip.Common.Words.{add16, sub16}
use ip.Socket.{Socket, Poll, aborted, idle, closed, chunk, poll}
use ip.Socket.Closing.{Closed}
use ip.Wget.Receive.{
  Files, Exit, ok, user_abort, failure, buffer_size, Loop, Progress, again, finished, stopped,
  flush, take_in, round, finish, receive, write_file,
}

abbrev pub ClosedAt : (S : Socket) → Exit → S.State → Type 0
ClosedAt S ok s = Unit
ClosedAt S user_abort s = Closed S s
ClosedAt S failure s = Closed S s

module _ (S : Socket) (F : Files) where
  abbrev pub Closes : Option (Exit × S.State × F.State) → Type 0
  Closes none = Unit
  Closes (some (e, s, f)) = ClosedAt S e s

  module _ (file : ℕ) where
    abbrev Steps : Progress S.State F.State → Type 0
    Steps (again l s f) = Unit
    Steps (finished s f) = Unit
    Steps (stopped e s f) = ClosedAt S e s

    flush-Steps :
        (cont : Bool) (l : Loop) (s : S.State) (f : F.State) → Steps (flush S F file cont l s f)
    unfolding flush
    flush-Steps cont l s f =
        elim (Bool-cases ((F.write_file file (take l.len l.buffer) f).0 == l.len)) [
          | inl full ↦ rw full (elim (Bool-cases cont) [ inl c ↦ rw c tt | inr c ↦ rw c tt ])
          | inr short ↦ rw short (s, refl)
        ]

    take_in-Steps :
        (cont : Bool) (rcv : ℕ) (l : Loop) (s : S.State) (f : F.State)
        → Steps (take_in S F file cont rcv l s f)
    unfolding take_in
    take_in-Steps cont rcv l s f =
        let room = sub16 buffer_size l.len in
        let n = if ltb room rcv then room else rcv in
        elim (Bool-cases (cont && ltb (add16 l.len n) buffer_size)) [
          | inl open_round ↦ rw open_round tt
          | inr full ↦ rw full (flush-Steps cont _ _ f)
        ]

    round-Steps : (l : Loop) (f : F.State) (p : Poll S.State) → Steps (round S F file l f p)
    unfolding round
    round-Steps l f (aborted s) = (s, refl)
    round-Steps l f (idle s) = tt
    round-Steps l f (closed s) = take_in-Steps false 0 l s f
    round-Steps l f (chunk n s) = take_in-Steps true n l s f

    finish-ClosedAt :
        (s : S.State) (f : F.State) → ClosedAt S (finish S F file s f).0 (finish S F file s f).1
    unfolding finish
    finish-ClosedAt s f = elim (Bool-cases (F.close_file file f).0) [
      | inl failed ↦ rw failed (s, refl)
      | inr fine ↦ rw fine tt
    ]

    receive-Closes :
        (fuel : ℕ) (l : Loop) (s : S.State) (f : F.State) → Closes (receive S F file fuel l s f)
    unfolding receive
    receive-Closes zero l s f = tt
    receive-Closes (suc fuel) l s f =
        go (receive-Closes fuel) _ (round-Steps l f (poll S S.receive_request s))
      where
        go :
            ((l' : Loop) (s' : S.State) (f' : F.State) → Closes (receive S F file fuel l' s' f'))
            → (p : Progress S.State F.State) → Steps p
            → Closes (elim p [
              | again l' s' f' ↦ receive S F file fuel l' s' f'
              | finished s' f' ↦ some (finish S F file s' f')
              | stopped e s' f' ↦ some (e, s', f')
            ])
        go ih (again l' s' f') h = ih l' s' f'
        go ih (finished s' f') h = finish-ClosedAt s' f'
        go ih (stopped e s' f') h = h

  pub write_file-Closes :
      (fuel : ℕ) (name buffer : List ℕ) (s : S.State) (f : F.State)
      → Closes (write_file S F fuel name buffer s f)
  unfolding write_file
  write_file-Closes fuel name buffer s f = elim (Option-cases (F.open_file name f).0) [
    | inl failed ↦ rw (failed, write_file) (s, refl)
    | inr (file, e) ↦ rw (e, write_file) (receive-Closes file fuel _ s _)
  ]
