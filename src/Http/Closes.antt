-- ===== src/Http/Closes.antt =====
-- apps/w5100_http.c: how `w5100_http_open` leaves the socket.
use ip.Common.{ℕ, zero, suc, ◌%◌, ◌^◌, refl, Bool, true, false, List, ◌==◌, ltb, if◌then◌else◌}
use ip.Common.{Option, none, some, take, drop, Bool-cases, inl, inr, length}
use ip.Common.Words.{add16, sub16}
use ip.Socket.{Socket, Poll, aborted, idle, closed, chunk, poll, write_bytes}
use ip.Socket.Closing.{Closed}
use ip.Http.{
  Outcome, opened, connect_failed, user_abort, lost, invalid, unknown, wild, status, Round, more,
  done, fill, header_round, receive_header, send_selector, judge, judged, w5100_http_open_connected,
  pointer_size,
}

module _ (S : Socket) where
  abbrev pub ClosedAt : Outcome → S.State → Type 0
  ClosedAt opened s = Unit
  ClosedAt connect_failed s = Unit
  ClosedAt lost s = Unit
  ClosedAt user_abort s = Closed S s
  ClosedAt invalid s = Closed S s
  ClosedAt unknown s = Closed S s
  ClosedAt wild s = Closed S s
  ClosedAt (status line) s = Closed S s

  abbrev pub Closes : Option (Outcome × List ℕ × S.State) → Type 0
  Closes none = Unit
  Closes (some (outcome, buffer, s)) = ClosedAt outcome s

  abbrev SendCloses : Option (Outcome × S.State) → Type 0
  SendCloses none = Unit
  SendCloses (some (outcome, s)) = ClosedAt outcome s

  send_selector-SendCloses :
      (fuel : ℕ) (selector : List ℕ) (pos len : ℕ) (s : S.State)
      → SendCloses (send_selector S fuel selector pos len s)
  unfolding send_selector
  send_selector-SendCloses zero selector pos len s = tt
  send_selector-SendCloses (suc fuel) selector pos len s = elim (Bool-cases (len == 0)) [
    | inl all ↦ rw all tt
    | inr some_left ↦
        rw some_left (go (send_selector-SendCloses fuel selector) (poll S S.send_request s))
  ]
    where
      go :
          ((pos' len' : ℕ) (s' : S.State) → SendCloses (send_selector S fuel selector pos' len' s'))
          → (p : Poll S.State)
          → SendCloses (elim p [
            | aborted s1 ↦ some (user_abort, S.disconnect s1)
            | idle s1 ↦ send_selector S fuel selector pos len s1
            | closed s1 ↦ some (lost, s1)
            | chunk granted s1 ↦
                let snd = if ltb len granted then len else granted in
                send_selector S fuel selector
                  (add16 pos snd)
                  (sub16 len snd)
                  (S.send_commit snd (write_bytes S (take snd (drop pos selector)) s1))
          ])
      go ih (aborted s1) = (s1, refl)
      go ih (idle s1) = ih pos len s1
      go ih (closed s1) = tt
      go ih (chunk granted s1) = ih _ _ _

  abbrev RoundCloses : Round S.State → Type 0
  RoundCloses (more len buffer s) = Unit
  RoundCloses (done outcome buffer s) = ClosedAt outcome s

  header_round-RoundCloses :
      (before : List ℕ) (size len : ℕ) (buffer : List ℕ) (p : Poll S.State)
      → RoundCloses (header_round S before size len buffer p)
  unfolding header_round
  header_round-RoundCloses before size len buffer (aborted s) = (s, refl)
  header_round-RoundCloses before size len buffer (idle s) = tt
  header_round-RoundCloses before size len buffer (closed s) = tt
  header_round-RoundCloses before size len buffer (chunk n s) =
      let rcv = if ltb (sub16 size len) n then sub16 size len else n in
      let r = fill S before rcv len buffer s in
      elim (Bool-cases (add16 len r.1 == pointer_size)) [
        | inl two ↦ rw two (_, refl)
        | inr q ↦ rw q (elim (Bool-cases r.0) [ inl b ↦ rw b tt | inr b ↦ rw b tt ])
      ]

  receive_header-Closes :
      (fuel : ℕ) (before : List ℕ) (size len : ℕ) (buffer : List ℕ) (s : S.State)
      → Closes (receive_header S fuel before size len buffer s)
  unfolding receive_header
  receive_header-Closes zero before size len buffer s = tt
  receive_header-Closes (suc fuel) before size len buffer s =
      go (receive_header-Closes fuel before size) _
        (header_round-RoundCloses before size len buffer (poll S S.receive_request s))
    where
      go :
          ((len' : ℕ) (buffer' : List ℕ) (s' : S.State)
            → Closes (receive_header S fuel before size len' buffer' s'))
          → (r : Round S.State) → RoundCloses r
          → Closes (elim r [
            | more len' buffer' s' ↦ receive_header S fuel before size len' buffer' s'
            | done outcome buffer' s' ↦ some (outcome, buffer', s')
          ])
      go ih (more len' buffer' s') h = ih len' buffer' s'
      go ih (done outcome buffer' s') h = h

  judged-Closes : (r : Option (Outcome × List ℕ × S.State)) → Closes r → Closes (judged S r)
  unfolding judged
  judged-Closes none h = tt
  judged-Closes (some (opened, buffer, s)) h = go (judge buffer).0 (judge buffer).1
    where
      go :
          (outcome : Outcome) (response : List ℕ)
          → Closes (elim outcome [
            | opened ↦ some (opened, response, s)
            | failed ↦ some (failed, response, S.disconnect s)
          ])
      go opened response = tt
      go connect_failed response = tt
      go lost response = tt
      go user_abort response = (s, refl)
      go invalid response = (s, refl)
      go unknown response = (s, refl)
      go wild response = (s, refl)
      go (status line) response = (s, refl)
  judged-Closes (some (connect_failed, buffer, s)) h = h
  judged-Closes (some (lost, buffer, s)) h = h
  judged-Closes (some (user_abort, buffer, s)) h = h
  judged-Closes (some (invalid, buffer, s)) h = h
  judged-Closes (some (unknown, buffer, s)) h = h
  judged-Closes (some (wild, buffer, s)) h = h
  judged-Closes (some (status line, buffer, s)) h = h

  pub w5100_http_open_connected-Closes :
      (fuel : ℕ) (selector before buffer : List ℕ) (size : ℕ) (up : Bool) (s : S.State)
      → Closes (w5100_http_open_connected S fuel selector before buffer size (up, s))
  unfolding w5100_http_open_connected
  w5100_http_open_connected-Closes fuel selector before buffer size false s = tt
  w5100_http_open_connected-Closes fuel selector before buffer size true s =
      go (send_selector S fuel selector 0 (length selector % 2 ^ 16) s)
        (send_selector-SendCloses fuel selector 0 (length selector % 2 ^ 16) s)
    where
      go :
          (r : Option (Outcome × S.State))
          → SendCloses r
          → Closes (elim r [
            | some (opened, s1) ↦ judged S (receive_header S fuel before size 0 buffer s1)
            | some (outcome, s1) ↦ some (outcome, buffer, s1)
            | none ↦ none
          ])
      go none h = tt
      go (some (opened, s1)) h =
          judged-Closes _ (receive_header-Closes fuel before size 0 buffer s1)
      go (some (connect_failed, s1)) h = h
      go (some (lost, s1)) h = h
      go (some (user_abort, s1)) h = h
      go (some (invalid, s1)) h = h
      go (some (unknown, s1)) h = h
      go (some (wild, s1)) h = h
      go (some (status line, s1)) h = h
