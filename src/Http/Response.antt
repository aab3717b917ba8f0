-- ===== src/Http/Response.antt =====
-- apps/w5100_http.c: the loop that receives the header.
pub mod Chunk
use ip.Common.{
  ℕ, zero, suc, ◌+◌, ◌-◌, ◌^◌, ◌≤◌, ◌<◌, ◌≡◌, refl, sym, ap, ◌∙◌, Bool, true, false, ◌&&◌, List, [],
  ◌∷◌, ◌++◌, ◌==◌, ltb, if◌then◌else◌, arith,
}
use ip.Common.{
  Option, none, some, take, drop, length, length-take, length-drop, take-take, Bool-cases, inl, inr,
  ltb→lt,
}
use ip.Common.Words.{add16, sub16}
use ip.Common.Buffers.{length-blit, take-blit, drop-drop, take-take-drop}
use ip.Socket.{Socket, IsReceiver, Poll, aborted, idle, closed, chunk, poll, fetch, read_bytes}
use ip.Socket.Laws.{Polled, poll-Polled}
use ip.Http.{
  Outcome, opened, connect_failed, user_abort, lost, invalid, unknown, wild, status, same, is_end,
  Round, more, done, header_round, receive_header, pointer_size,
}
use mathlib.Core.Path.{subst}
use ip.Http.Header.{Filled, FillsHeader, fill-FillsHeader}

module _ (S : Socket) (L : IsReceiver S) (before total : List ℕ) (size cap limit : ℕ)
    (usable : size ≤ cap) where
  open L use {Ready, stream, patience}

  abbrev pub NoEnd : ℕ → Type 0
  NoEnd = Chunk.NoEnd S L before total size cap limit usable

  abbrev Held : ℕ → List ℕ → S.State → Type 0
  Held = Chunk.Held S L before total size cap limit usable

  abbrev Brought : Bool → ℕ → List ℕ → S.State → Type 0
  Brought = Chunk.Brought S L before total size cap limit usable

  -- The header is in the buffer, up to its first end, and the socket stands right behind it.
  abbrev pub Header : List ℕ → S.State → Type 0
  Header buffer s =
      (m : ℕ) × (0 < m)
      × (m ≤ size)
      × (take m buffer ≡ take m total)
      × (stream s ≡ drop m total)
      × (is_end before total m ≡ true)
      × NoEnd (m - 1)
      × (patience s + length (stream s) ≤ limit)
      × (length buffer ≡ cap)
      × Ready s

  abbrev pub Received : Outcome → List ℕ → S.State → Type 0
  Received opened buffer s = Header buffer s
  Received user_abort buffer s = Unit
  Received lost buffer s = Unit
  Received invalid buffer s = Unit
  Received unknown buffer s = ⊥
  Received wild buffer s = ⊥
  Received connect_failed buffer s = ⊥
  Received (status line) buffer s = ⊥

  abbrev pub Receives : Option (Outcome × List ℕ × S.State) → Type 0
  Receives none = ⊥
  Receives (some (outcome, buffer, s)) = Received outcome buffer s

  Steps : (bound : ℕ) → Round S.State → Type 0
  Steps bound (more len buffer s) =
      Held len buffer s × (len < size) × (patience s + length (stream s) < bound)
  Steps bound (done outcome buffer s) = Received outcome buffer s

  -- A header that ends within the usable part of the buffer.
  module _ (small : size < 2 ^ 16) (e : ℕ) (from : 0 < e) (to : e ≤ size)
      (end_at : is_end before total e ≡ true) where
    not_full : (len : ℕ) → len ≤ size → NoEnd len → len < size
    not_full len room no_end = elim (Bool-cases (ltb len size)) [
      | inl below ↦ ltb→lt _ _ below
      | inr full ↦ absurd (cc (no_end e from (ground arith), end_at))
    ]

    chunk-Steps :
        (bound len : ℕ) (ended : Bool) (buffer : List ℕ) (s : S.State)
        → Brought ended len buffer s
        → patience s + length (stream s) < bound
        → bound ≤ limit
        → Steps bound (
            if len == pointer_size
            then done invalid buffer (S.disconnect s)
            else (if ended then done opened buffer s else more len buffer s))
    unfolding Steps
    chunk-Steps bound len ended buffer s b less within = elim (Bool-cases (len == pointer_size)) [
      | inl two ↦ rw two tt
      | inr q ↦ rw q (go ended b)
    ]
      where
        go :
            (ended : Bool)
            → Brought ended len buffer s
            → Steps bound (if ended then done opened buffer s else more len buffer s)
        go true b = (
          len,
          b.some_read,
          b.room,
          b.taken,
          b.rest,
          b.end_here,
          b.no_end,
          omega arith,
          b.whole,
          b.ready,
        )
        go false b =
            let no_end : NoEnd len = λ j low high. elim (Bool-cases (ltb j len)) [
              | inl before_end ↦ b.no_end j low (ground arith)
              | inr at ↦ ap (is_end before total) {y = len} (ground arith) ∙ b.end_here
            ] in
            (
              record {
                whole = b.whole;
                room = b.room;
                taken = b.taken;
                rest = b.rest;
                fits = b.fits;
                no_end = no_end;
                calm = omega arith;
                ready = b.ready;
              },
              not_full len b.room no_end,
              less,
            )

    round-Steps :
        (len : ℕ) (buffer : List ℕ) (s : S.State) (p : Poll S.State)
        → Held len buffer s
        → len < size
        → Polled S L s p
        → Steps (patience s + length (stream s)) (header_round S before size len buffer p)
    unfolding header_round Steps FillsHeader
    round-Steps len buffer s (aborted s') h below v = tt
    round-Steps len buffer s (idle s') h below v = (
      record {
        whole = h.whole;
        room = h.room;
        taken = h.taken;
        rest = v.0 ∙ h.rest;
        fits = h.fits;
        no_end = h.no_end;
        calm = omega (arith, h.calm, ap length v.0);
        ready = v.2;
      },
      below,
      omega (arith, ap length v.0),
    )
    round-Steps len buffer s (closed s') h below v = tt
    round-Steps len buffer s (chunk n s') h below v =
        let rcv = if ltb (sub16 size len) n then sub16 size len else n in
        let f : Filled S before rcv len buffer s' _ _ _ _ =
          fill-FillsHeader S before rcv len buffer s' (ground (arith, h.whole)) in
        let b =
          Chunk.chunk-Brought S L before total size cap limit usable len n rcv _ buffer _ s s' _ _
            small h v (ground arith) (ground (arith, v.0)) (ground arith) f in
        chunk-Steps _ _ _ _ _ b.0 b.1 h.calm

    receive_header-Receives :
        (fuel len : ℕ) (buffer : List ℕ) (s : S.State)
        → Held len buffer s
        → len < size
        → patience s + length (stream s) < fuel
        → Receives (receive_header S fuel before size len buffer s)
    unfolding receive_header Steps
    receive_header-Receives zero len buffer s h below enough = absurd (omega arith)
    receive_header-Receives (suc fuel) len buffer s h below enough =
        go (receive_header-Receives fuel) _ (
          round-Steps len buffer s (poll S S.receive_request s) h below (poll-Polled S L s h.ready))
      where
        go :
            ((len' : ℕ) (buffer' : List ℕ) (s' : S.State)
              → Held len' buffer' s'
              → len' < size
              → patience s' + length (stream s') < fuel
              → Receives (receive_header S fuel before size len' buffer' s'))
            → (r : Round S.State) → Steps (patience s + length (stream s)) r
            → Receives (elim r [
              | more len' buffer' s' ↦ receive_header S fuel before size len' buffer' s'
              | done outcome buffer' s' ↦ some (outcome, buffer', s')
            ])
        go ih (more len' buffer' s') (held, below', less) =
            ih len' buffer' s' held below' (omega arith)
        go ih (done outcome buffer' s') received = received

module _ (S : Socket) (L : IsReceiver S) (before : List ℕ) (size : ℕ) where
  open L use {Ready, stream, patience}

  -- If a header ends within the usable part of the buffer, which is shorter than 65536, the loop that receives it from a ready socket ends, with fuel
  -- above the patience of the connection and the length of the stream. When it reports a header, the buffer
  -- has the stream up to the first end of a header, and the rest of the stream is left unread; else
  -- the user has aborted, the connection was lost, or the response was refused as invalid.
  pub receive_header_lem :
      (fuel e : ℕ) (buffer : List ℕ) (s : S.State) (whole : size ≤ length buffer)
      → Ready s
      → size < 2 ^ 16
      → 0 < e
      → e ≤ size
      → is_end before (stream s) e ≡ true
      → patience s + length (stream s) < fuel
      → Receives S L before
          (stream s)
          size
          (length buffer)
          (patience s + length (stream s))
          whole
          (receive_header S fuel before size 0 buffer s)
  receive_header_lem fuel e buffer s whole ready small from to end_at enough =
      receive_header-Receives S L before (stream s) size (length buffer)
        (patience s + length (stream s)) whole small e from to end_at fuel 0 buffer s
        (record {
          whole = refl;
          room = omega arith;
          taken = refl;
          rest = refl;
          fits = omega arith;
          no_end = λ j low high. absurd (omega arith);
          calm = omega arith;
          ready = ready;
        })
        (omega arith) enough
