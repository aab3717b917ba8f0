-- ===== src/Http/Request.antt =====
-- apps/w5100_http.c: the loop that sends the request.
use ip.Common.{
  ℕ, zero, suc, ◌+◌, ◌%◌, ◌^◌, ◌≤◌, ◌<◌, ◌≡◌, sym, ap, ◌∙◌, List, ◌++◌, ◌==◌, ltb, if◌then◌else◌,
  arith,
}
use ip.Common.{
  Option, none, some, take, drop, length, length-take, length-drop, append_assoc, append-nil,
  take_all, Bool-cases, inl, inr, ==_iff,
}
use ip.Common.Words.{add16, sub16}
use ip.Common.Buffers.{take-take-drop}
use ip.Socket.{Socket, IsSender, Poll, aborted, idle, closed, chunk, poll, write_bytes}
use ip.Http.{Outcome, opened, user_abort, lost, send_selector}

module _ (S : Socket) (L : IsSender S) where
  open L use {Free, sent, waits}

  abbrev Polled : S.State → Poll S.State → Type 0
  Polled s (aborted s') = Unit
  Polled s (idle s') = (sent s' ≡ sent s) × (waits s' < waits s) × Free s'
  Polled s (closed s') = sent s' ≡ sent s
  Polled s (chunk n s') =
      (0 < n)
      × ((bytes : List ℕ)
          → length bytes ≤ n
          → (sent (S.send_commit (length bytes) (write_bytes S bytes s')) ≡ sent s ++ bytes)
            × (waits (S.send_commit (length bytes) (write_bytes S bytes s')) ≤ waits s)
            × Free (S.send_commit (length bytes) (write_bytes S bytes s')))

  poll-Polled : (s : S.State) → Free s → Polled s (poll S S.send_request s)
  unfolding poll
  poll-Polled s r = elim (Bool-cases (S.abort_key s).0) [
    | inl key ↦ rw key tt
    | inr no_key ↦ rw no_key (elim (Bool-cases ((S.send_request (S.abort_key s).1).0 == 0)) [
      | inl full ↦ rw full (elim (Bool-cases (S.connected (S.send_request (S.abort_key s).1).1).0) [
        | inl up ↦ rw up (
          same,
          omega (
            arith,
            L.waits-idle (S.abort_key s).1 asked ((==_iff _ 0).0 full) up,
            L.waits-abort_key s,
          ),
          L.Free-connected _ (L.Free-send_request _ asked),
        )
        | inr down ↦ rw down same
      ])
      | inr free ↦ rw free (
        ground arith,
        λ bytes h. (
          (L.sent-put (S.abort_key s).1 bytes asked h).0
              ∙ ap (λ r. r ++ bytes) (L.sent-abort_key s),
          omega (arith, L.waits-put (S.abort_key s).1 bytes asked h, L.waits-abort_key s),
          (L.sent-put (S.abort_key s).1 bytes asked h).1,
        ),
      )
    ])
  ]
    where
      asked : Free (S.abort_key s).1
      asked = L.Free-abort_key s r

      same : sent (S.connected (S.send_request (S.abort_key s).1).1).1 ≡ sent s
      same = L.sent-connected _ ∙ L.sent-send_request (S.abort_key s).1 ∙ L.sent-abort_key s

  -- The selector has been sent whole, or the connection was lost behind a part of it, or the user has aborted.
  abbrev pub Sends : (selector already : List ℕ) → Option (Outcome × S.State) → Type 0
  Sends selector already none = ⊥
  Sends selector already (some (opened, s)) = sent s ≡ already ++ selector
  Sends selector already (some (lost, s)) =
      (n : ℕ) × (n ≤ length selector) × (sent s ≡ already ++ take n selector)
  Sends selector already (some (user_abort, s)) = Unit
  Sends selector already (some (_, s)) = ⊥

  module _ (selector already : List ℕ) (short : length selector < 2 ^ 16) where
    round-Sends :
        (fuel pos len : ℕ) (p : Poll S.State) (s : S.State)
        → pos + len ≡ length selector
        → 0 < len
        → sent s ≡ already ++ take pos selector
        → waits s + len < suc fuel
        → Polled s p
        → ((pos' len' : ℕ) (s' : S.State)
            → pos' + len' ≡ length selector
            → sent s' ≡ already ++ take pos' selector
            → waits s' + len' < fuel
            → Free s'
            → Sends selector already (send_selector S fuel selector pos' len' s'))
        → Sends selector already (elim p [
          | aborted s1 ↦ some (user_abort, S.disconnect s1)
          | idle s1 ↦ send_selector S fuel selector pos len s1
          | closed s1 ↦ some (lost, s1)
          | chunk granted s1 ↦
              let snd = if ltb len granted then len else granted in
              send_selector S fuel selector
                (add16 pos snd)
                (sub16 len snd)
                (S.send_commit snd (write_bytes S (take snd (drop pos selector)) s1))
        ])
    round-Sends fuel pos len (aborted s1) s e some_left done_so_far enough v ih = tt
    round-Sends fuel pos len (idle s1) s e some_left done_so_far enough v ih =
        ih pos len s1 e (v.0 ∙ done_so_far) (omega arith) v.2
    round-Sends fuel pos len (closed s1) s e some_left done_so_far enough v ih =
        (pos, omega arith, v ∙ done_so_far)
    round-Sends fuel pos len (chunk granted s1) s e some_left done_so_far enough v ih =
        let n = if ltb len granted then len else granted in
        let part = take n (drop pos selector) in
        let count : length part ≡ n =
          ground (arith, length-take n (drop pos selector), length-drop pos selector) in
        let w : (sent (S.send_commit n (write_bytes S part s1)) ≡ sent s ++ part)
            × (waits (S.send_commit n (write_bytes S part s1)) ≤ waits s)
            × Free (S.send_commit n (write_bytes S part s1)) =
          rw count at (v.1 part (ground (arith, count))) in
        let next : add16 pos n ≡ pos + n = ground arith in
        ih (add16 pos n) (sub16 len n) (S.send_commit n (write_bytes S part s1)) (ground arith)
          (w.0
            ∙ ap (λ r. r ++ part) done_so_far
            ∙ append_assoc already (take pos selector) part
            ∙ ap (λ r. already ++ r)
                (take-take-drop pos n selector ∙ ap (λ k. take k selector) (sym next)))
          (ground (arith, v.0, w.1)) w.2

    loop-Sends :
        (fuel pos len : ℕ) (s : S.State)
        → pos + len ≡ length selector
        → sent s ≡ already ++ take pos selector
        → waits s + len < fuel
        → Free s
        → Sends selector already (send_selector S fuel selector pos len s)
    unfolding send_selector
    loop-Sends zero pos len s e done_so_far enough r = absurd (omega arith)
    loop-Sends (suc fuel) pos len s e done_so_far enough r = elim (Bool-cases (len == 0)) [
      | inl all ↦
          rw all (done_so_far ∙ ap (λ r. already ++ r) (take_all pos selector (ground arith)))
      | inr some_left ↦ rw some_left (
          round-Sends fuel pos len (poll S S.send_request s) s e (ground arith) done_so_far enough
            (poll-Polled s r) (loop-Sends fuel))
    ]

  -- For a selector of less than 65536 characters and a free socket the sending loop ends, with fuel above the length of the
  -- selector and the number of requests that find no room. When it succeeds, the selector has
  -- been sent behind what had been sent before, whole and in order; when the connection is lost, a
  -- begin of it.
  pub send_selector-Sends :
      (fuel : ℕ) (selector : List ℕ) (s : S.State)
      → Free s
      → length selector < 2 ^ 16
      → waits s + length selector < fuel
      → Sends selector (sent s) (send_selector S fuel selector 0 (length selector % 2 ^ 16) s)
  send_selector-Sends fuel selector s free short enough =
      loop-Sends selector (sent s) short fuel 0 (length selector % 2 ^ 16) s (omega arith)
        (sym (append-nil (sent s))) (omega arith) free
