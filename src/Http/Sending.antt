-- ===== src/Http/Sending.antt =====
-- apps/w5100_http.c: the loop that sends the request, and the response.
use ip.Common.{
  ℕ, zero, suc, ◌+◌, ◌%◌, ◌^◌, ◌≤◌, ◌<◌, ◌≡◌, refl, ◌∙◌, List, ◌==◌, ltb, if◌then◌else◌, arith,
}
use ip.Common.{
  Option, none, some, take, drop, length, length-take, length-drop, Bool-cases, inl, inr,
}
use ip.Common.Words.{add16, sub16}
use ip.Socket.{
  Socket, IsReceiver, IsSender, IsDuplex, Poll, aborted, idle, closed, chunk, poll, write_bytes,
}
use ip.Http.{
  Outcome, opened, connect_failed, user_abort, lost, invalid, unknown, wild, status, send_selector,
}

module _ (S : Socket) (L : IsReceiver S) (W : IsSender S) where
  open L use {Ready, stream, patience}
  open W use {Free}

  -- Nothing of the stream was taken, the patience has not grown, and more requests can be made.
  pub record Keeps (s s' : S.State) : Type 0 where
    pub same_stream : stream s' ≡ stream s
    pub patience-le : patience s' ≤ patience s
    pub ready : Ready s'
    pub free : Free s'

  Keeps-trans : (s t u : S.State) → Keeps s t → Keeps t u → Keeps s u
  Keeps-trans s t u h k = record {
    same_stream = k.same_stream ∙ h.same_stream;
    patience-le = omega (arith, h.patience-le, k.patience-le);
    ready = k.ready;
    free = k.free;
  }

  -- Once the request is sent, the stream is as before.
  abbrev pub KeepsSent : S.State → Option (Outcome × S.State) → Type 0
  KeepsSent s (some (opened, s')) = Keeps s s'
  KeepsSent s _ = Unit {0}

  KeepsSent-trans :
      (s t : S.State) (r : Option (Outcome × S.State)) → Keeps s t → KeepsSent t r → KeepsSent s r
  KeepsSent-trans s t none h k = tt
  KeepsSent-trans s t (some (opened, s')) h k = Keeps-trans s t s' h k
  KeepsSent-trans s t (some (connect_failed, s')) h k = tt
  KeepsSent-trans s t (some (lost, s')) h k = tt
  KeepsSent-trans s t (some (user_abort, s')) h k = tt
  KeepsSent-trans s t (some (invalid, s')) h k = tt
  KeepsSent-trans s t (some (unknown, s')) h k = tt
  KeepsSent-trans s t (some (wild, s')) h k = tt
  KeepsSent-trans s t (some (status line, s')) h k = tt

  -- What is left of a selector, and fits.
  length-part :
      (selector : List ℕ) (pos len n : ℕ)
      → pos + len ≡ length selector
      → n ≤ len
      → length (take n (drop pos selector)) ≡ n
  length-part selector pos len n e h =
      omega (arith, length-take n (drop pos selector), length-drop pos selector)

  module _ (X : IsDuplex S L W) where
    abbrev KeepsPoll : S.State → Poll S.State → Type 0
    KeepsPoll s (aborted s') = Unit
    KeepsPoll s (idle s') = Keeps s s'
    KeepsPoll s (closed s') = Unit
    KeepsPoll s (chunk n s') =
        (bytes : List ℕ)
        → length bytes ≤ n
        → Keeps s (S.send_commit (length bytes) (write_bytes S bytes s'))

    poll-KeepsPoll : (s : S.State) → Ready s → Free s → KeepsPoll s (poll S S.send_request s)
    unfolding poll
    poll-KeepsPoll s ready free = elim (Bool-cases (S.abort_key s).0) [
      | inl key ↦ rw key tt
      | inr no_key ↦ rw no_key (elim (Bool-cases ((S.send_request (S.abort_key s).1).0 == 0)) [
        | inl full ↦
            rw full (elim (Bool-cases (S.connected (S.send_request (S.abort_key s).1).1).0) [
              | inl up ↦ rw up looked
              | inr down ↦ rw down tt
            ])
        | inr room ↦ rw room (λ bytes h. Keeps-trans s _ _ asked (sent_well bytes h))
      ])
    ]
      where
        asked : Keeps s (S.abort_key s).1
        asked = record {
          same_stream = L.stream-abort_key s;
          patience-le = L.patience-abort_key s;
          ready = L.Ready-abort_key s ready;
          free = W.Free-abort_key s free;
        }

        sent_well :
            (bytes : List ℕ)
            → length bytes ≤ (S.send_request (S.abort_key s).1).0
            → Keeps (S.abort_key s).1 (
                S.send_commit
                  (length bytes)
                  (write_bytes S bytes (S.send_request (S.abort_key s).1).1))
        sent_well bytes h =
            let v = X.put_lem (S.abort_key s).1 bytes asked.free asked.ready h in
            record {
              same_stream = v.1;
              patience-le = v.2;
              ready = v.0;
              free = (W.sent-put (S.abort_key s).1 bytes asked.free h).1;
            }

        looked : Keeps s (S.connected (S.send_request (S.abort_key s).1).1).1
        looked = Keeps-trans s _ _ asked (record {
          same_stream = L.stream-connected _ ∙ X.stream-send_request _;
          patience-le = omega (
            arith,
            X.patience-connected (S.send_request (S.abort_key s).1).1,
            X.patience-send_request (S.abort_key s).1,
          );
          ready = L.Ready-connected _ (X.Ready-send_request _ asked.ready);
          free = W.Free-connected _ (W.Free-send_request _ asked.free);
        })

    module _ (selector : List ℕ) (short : length selector < 2 ^ 16) where
      round-KeepsSent :
          (fuel pos len : ℕ) (s : S.State) (p : Poll S.State)
          → pos + len ≡ length selector
          → 0 < len
          → KeepsPoll s p
          → ((pos' len' : ℕ) (s' : S.State)
              → pos' + len' ≡ length selector
              → Ready s'
              → Free s'
              → KeepsSent s' (send_selector S fuel selector pos' len' s'))
          → KeepsSent s (elim p [
            | aborted s1 ↦ some (user_abort, S.disconnect s1)
            | idle s1 ↦ send_selector S fuel selector pos len s1
            | closed s1 ↦ some (lost, s1)
            | chunk granted s1 ↦
                let snd = if ltb len granted then len else granted in
                send_selector S fuel selector
                  (add16 pos snd)
                  (sub16 len snd)
                  (S.send_commit snd (write_bytes S (take snd (drop pos selector)) s1))
          ])
      round-KeepsSent fuel pos len s (aborted s1) e some_left h ih = tt
      round-KeepsSent fuel pos len s (idle s1) e some_left h ih =
          KeepsSent-trans s s1 _ h (ih pos len s1 e h.ready h.free)
      round-KeepsSent fuel pos len s (closed s1) e some_left h ih = tt
      round-KeepsSent fuel pos len s (chunk granted s1) e some_left h ih =
          let n = if ltb len granted then len else granted in
          let part = take n (drop pos selector) in
          let count : length part ≡ n = length-part selector pos len n e (ground arith) in
          let k : Keeps s (S.send_commit n (write_bytes S part s1)) =
            rw count at (h part (ground (arith, count))) in
          KeepsSent-trans s _ _ k (ih (add16 pos n) (sub16 len n) _ (ground arith) k.ready k.free)

      loop-KeepsSent :
          (fuel pos len : ℕ) (s : S.State)
          → pos + len ≡ length selector
          → Ready s
          → Free s
          → KeepsSent s (send_selector S fuel selector pos len s)
      unfolding send_selector
      loop-KeepsSent zero pos len s e ready free = tt
      loop-KeepsSent (suc fuel) pos len s e ready free = elim (Bool-cases (len == 0)) [
        | inl all ↦
            rw all
              (record { same_stream = refl; patience-le = omega arith; ready = ready; free = free })
        | inr some_left ↦ rw some_left (
            round-KeepsSent fuel pos len s (poll S S.send_request s) e (ground arith)
              (poll-KeepsPoll s ready free) (loop-KeepsSent fuel))
      ]

    pub send_selector-KeepsSent :
        (fuel : ℕ) (selector : List ℕ) (s : S.State)
        → Free s
        → Ready s
        → length selector < 2 ^ 16
        → KeepsSent s (send_selector S fuel selector 0 (length selector % 2 ^ 16) s)
    send_selector-KeepsSent fuel selector s free ready short =
        loop-KeepsSent selector short fuel 0 (length selector % 2 ^ 16) s (omega arith) ready free
