-- ===== src/Socket/Laws.antt =====
-- What a round finds out about the stream.
use ip.Common.{refl}
use ip.Common.{[]}
use ip.Common.{ℕ, ◌==◌, ◌≡◌, ◌≤◌, ◌<◌, ◌∙◌, arith}
use ip.Common.{take, drop, length, Bool-cases, inl, inr, ==_iff, ap}
use ip.Socket.{
  Socket, IsReceiver, Poll, aborted, idle, closed, chunk, poll_idle, poll_request, poll, fetch,
}

module _ (S : Socket) (L : IsReceiver S) where
  open S use {State}
  open L use {Ready, stream, patience}

  -- What holds of the state that a poll leaves.
  abbrev pub Polled : State → Poll State → Type 0
  Polled s (aborted s') = stream s' ≡ stream s
  Polled s (idle s') = (stream s' ≡ stream s) × (patience s' < patience s) × Ready s'
  Polled s (closed s') = (stream s' ≡ stream s) × Ready s'
  Polled s (chunk n s') =
      (0 < n)
      × (n ≤ length (stream s))
      × ((k : ℕ)
          → k ≤ n
          → ((fetch S k s').0 ≡ take k (stream s))
            × (stream (fetch S k s').1 ≡ drop k (stream s))
            × (patience (fetch S k s').1 ≤ patience s)
            × Ready (fetch S k s').1)

  Polled-mono :
      (s t : State) (p : Poll State)
      → stream t ≡ stream s
      → patience t ≤ patience s
      → Polled t p
      → Polled s p
  Polled-mono s t (aborted s') e h v = v ∙ e
  Polled-mono s t (idle s') e h v = (v.0 ∙ e, omega arith, v.2)
  Polled-mono s t (closed s') e h v = (v.0 ∙ e, v.1)
  Polled-mono s t (chunk n s') e h v = (
    v.0,
    rw e at v.1,
    λ k le. let w = v.2 k le in (w.0 ∙ ap (take k) e, w.1 ∙ ap (drop k) e, omega arith, w.3),
  )

  poll_request-Polled : (s : State) → Ready s → Polled s (poll_request S (S.receive_request s))
  unfolding poll_request poll_idle
  poll_request-Polled s r = elim (Bool-cases ((S.receive_request s).0 == 0)) [
    | inl none_yet ↦ rw none_yet (elim (Bool-cases (S.connected (S.receive_request s).1).0) [
      | inl up ↦ rw up (same, L.patience-idle s r ((==_iff _ 0).0 none_yet) up, still)
      | inr down ↦ rw down (same, still)
    ])
    | inr some_data ↦ rw some_data (
      ground arith,
      L.request-le s r,
      λ k le. let v = L.fetch-stream s k r le in (v.0, v.1, L.patience-fetch s k r le, v.2),
    )
  ]
    where
      same : stream (S.connected (S.receive_request s).1).1 ≡ stream s
      same = L.stream-connected (S.receive_request s).1 ∙ L.stream-receive_request s

      still : Ready (S.connected (S.receive_request s).1).1
      still = L.Ready-connected _ (L.Ready-receive_request s r)

  -- A round finds the begin of the stream, and loses nothing of it.
  pub poll-Polled : (s : State) → Ready s → Polled s (poll S S.receive_request s)
  unfolding poll
  poll-Polled s r = elim (Bool-cases (S.abort_key s).0) [
    | inl key ↦ rw key (L.stream-abort_key s)
    | inr no_key ↦ rw no_key (
        Polled-mono s (S.abort_key s).1 _ (L.stream-abort_key s) (L.patience-abort_key s)
          (poll_request-Polled (S.abort_key s).1 (L.Ready-abort_key s r)))
  ]

  -- Taking no bytes takes none, and leaves the stream.
  pub nothing-fetch : (s : State) → (fetch S 0 s).0 ≡ []
  unfolding fetch
  nothing-fetch s = refl

  pub stream-fetch_zero : (s : State) → Ready s → stream (fetch S 0 s).1 ≡ stream s
  unfolding fetch
  stream-fetch_zero s r = (L.commit_zero s r).0

  pub Ready-fetch_zero : (s : State) → Ready s → Ready (fetch S 0 s).1
  unfolding fetch
  Ready-fetch_zero s r = (L.commit_zero s r).1
