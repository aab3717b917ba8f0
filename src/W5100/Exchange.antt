-- ===== src/W5100/Exchange.antt =====
-- apps/w5100.h: any order in which a client receives and sends.
use ip.Common.{ℕ, ◌≤◌, ◌≡◌, refl, sym, ap, ◌∙◌, true, false, List, [], ◌++◌, length, take}
use ip.Common.{append_assoc, append-nil, take-append-drop}
use ip.Socket.{fetch, put}
use ip.W5100.{Machine, Driver}
use ip.W5100.Receiving
use ip.W5100.Sending
use ip.W5100.Receiving.Same.{Rests, Rests-Same}
use ip.W5100.Sending.Same.{Idles, Idles-Same}
use ip.W5100.Draining.{fetch-Same}
use ip.W5100.Card.{IsSocketCard, socket, receiver, sender, duplex, Rested}

module _ (M : Machine) (d : Driver) (fuel : ℕ) (X : IsSocketCard M d fuel) where
  open M use {State}

  -- The bytes that a receive request, reading and a commit give, and the state behind the commit.
  abbrev pub received : ℕ → State → List ℕ × State
  received k s = fetch (socket M d fuel X) k ((socket M d fuel X).receive_request s).1

  -- What a client does in one go, with the bytes that it reads and those that it writes: no more than
  -- the request in front has granted. Requests alone and the tests read and write nothing.
  pub data Turn : (s t : State) (got given : List ℕ) → Type 0 where
    receives :
        (k : ℕ) (s : State)
        → k ≤ ((socket M d fuel X).receive_request s).0
        → Turn s (received k s).1 (received k s).0 []
    sends :
        (bytes : List ℕ) (s : State)
        → length bytes ≤ ((socket M d fuel X).send_request s).0
        → Turn s (put (socket M d fuel X) bytes s) [] bytes
    asks_to_receive : (s : State) → Turn s ((socket M d fuel X).receive_request s).1 [] []
    asks_to_send : (s : State) → Turn s ((socket M d fuel X).send_request s).1 [] []
    tests_connected : (s : State) → Turn s ((socket M d fuel X).connected s).1 [] []
    tests_key : (s : State) → Turn s ((socket M d fuel X).abort_key s).1 [] []

  -- Any sequence of them, with all that was read and all that was written.
  pub data Exchange (s : State) : (t : State) (got given : List ℕ) → Type 0 where
    start : Exchange s s [] []
    next :
        {t u : State} {got given more sent : List ℕ}
        → Exchange s t got given
        → Turn t u more sent
        → Exchange s u (got ++ more) (given ++ sent)

  -- What the two states have in common, as two queues.
  abbrev pub Queues : (s t : State) (got given : List ℕ) → Type 0
  Queues s t got given =
      (got ++ X.receives.stream t ≡ X.receives.stream s)
      × (X.sends.sent t ≡ X.sends.sent s ++ given)
      × Rested M d fuel X t

  -- Two sequences one behind the other.
  Queues-trans :
      (s t u : State) (got given more sent : List ℕ)
      → Queues s t got given
      → Queues t u more sent
      → Queues s u (got ++ more) (given ++ sent)
  Queues-trans s t u got given more sent (taken, gone, rested) (taken', gone', rested') = (
    append_assoc got more (X.receives.stream u) ∙ ap (λ xs. got ++ xs) taken' ∙ taken,
    gone' ∙ ap (λ xs. xs ++ sent) gone ∙ append_assoc (X.sends.sent s) given sent,
    rested',
  )

  -- A call that neither reads nor writes leaves both sides as they are.
  quiet :
      (s t : State)
      → Receiving.Same.Same M d X.chip X.pointers X.receives s t
      → Sending.Same.Same M d X.chip X.pointers X.sends s t
      → Rested M d fuel X s
      → Queues s t [] []
  quiet s t h k (rests, idles) = (
    h.kept.stream-is,
    k.kept.sent-is ∙ sym (append-nil (X.sends.sent s)),
    (
      Rests-Same M d X.chip X.pointers X.receives s t h rests,
      Idles-Same M d X.chip X.pointers X.sends s t k idles,
    ),
  )

  Turn-Queues :
      {s t : State} {got given : List ℕ}
      → Rested M d fuel X s
      → Turn s t got given
      → Queues s t got given
  Turn-Queues (rests, idles) (receives k s few) =
      let w = (receiver M d fuel X).fetch-stream s k rests few in
      let same = fetch-Same M d fuel X.chip X.pointers X.receives X.sends X.apart k s in
      (
        ap (λ xs. xs ++ X.receives.stream (received k s).1) w.0
            ∙ ap (λ xs. take k (X.receives.stream s) ++ xs) w.1
            ∙ take-append-drop k (X.receives.stream s),
        same.kept.sent-is ∙ sym (append-nil (X.sends.sent s)),
        (w.2, Idles-Same M d X.chip X.pointers X.sends s (received k s).1 same idles),
      )
  Turn-Queues (rests, idles) (sends bytes s fits) =
      let gone = (sender M d fuel X).sent-put s bytes idles fits in
      let still = (duplex M d fuel X).put_lem s bytes idles rests fits in
      (still.1, gone.0, (still.0, gone.1))
  Turn-Queues rested (asks_to_receive s) =
      quiet s _ (Receiving.Same.request-Same M d X.chip X.pointers X.receives fuel false s)
        (Sending.Same.request-Same M d X.chip X.pointers X.sends fuel false s) rested
  Turn-Queues rested (asks_to_send s) =
      quiet s _ (Receiving.Same.request-Same M d X.chip X.pointers X.receives fuel true s)
        (Sending.Same.request-Same M d X.chip X.pointers X.sends fuel true s) rested
  Turn-Queues rested (tests_connected s) =
      quiet s _ (Receiving.Same.connected-Same M d X.chip X.pointers X.receives s)
        (Sending.Same.connected-Same M d X.chip X.pointers X.sends s) rested
  Turn-Queues rested (tests_key s) =
      quiet s _ (Receiving.Same.abort_key-Same M d X.chip X.pointers X.receives s)
        (Sending.Same.abort_key-Same M d X.chip X.pointers X.sends s) rested

  -- From a state in which nothing is to be acknowledged or to be sent, whatever a client receives and
  -- sends, in any order, with any requests and tests in between, as long as it reads and writes no
  -- more than was granted: all that it has read, followed by what the peer still sends, is what the
  -- peer sent from the beginning, byte for byte and in order; what has been sent has grown by exactly
  -- what was written; and again nothing is to be acknowledged or to be sent. This is so wherever the
  -- pointers stand in the ring memories of the card, for a card that keeps to the laws of
  -- `IsSocketCard`.
  pub exchange-Queues :
      {s t : State} {got given : List ℕ}
      → Rested M d fuel X s
      → Exchange s t got given
      → Queues s t got given
  exchange-Queues {s = s} rested start = (refl, sym (append-nil (X.sends.sent s)), rested)
  exchange-Queues {s = s} rested
        (next {t = t} {u = u} {got = got} {given = given} {more = more} {sent = sent} e turn) =
      let before = exchange-Queues rested e in
      Queues-trans s t u got given more sent before (Turn-Queues before.2 turn)
