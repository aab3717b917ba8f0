-- ===== src/Http/Response/Chunk.antt =====
-- apps/w5100_http.c: what a chunk of the response brings.
use ip.Common.{
  ℕ, ◌+◌, ◌-◌, ◌^◌, ◌≤◌, ◌<◌, ◌≡◌, sym, ap, ◌∙◌, Bool, false, ◌&&◌, List, [], ◌∷◌, ◌++◌, ◌==◌, ltb,
  arith,
}
use ip.Common.{
  take, drop, length, length-take, length-drop, take-take, Bool-cases, inl, inr, ltb→lt,
}
use ip.Common.Words.{add16}
use ip.Common.Buffers.{length-blit, take-blit, drop-drop, take-take-drop}
use ip.Socket.{Socket, IsReceiver, chunk, fetch, read_bytes}
use ip.Socket.Laws.{Polled}
use ip.Http.{same, is_end}
use mathlib.Core.Path.{subst}
use ip.Http.Header.{Filled}

-- The test looks at the bytes in front of the place only.
is_end-take :
    (before xs ys : List ℕ) (n j : ℕ)
    → take n xs ≡ take n ys
    → j ≤ n
    → is_end before xs j ≡ is_end before ys j
unfolding is_end
is_end-take before xs ys n j e h =
    ap (λ r. same (drop (length before + j - 4) (before ++ r)) crlfcrlf)
      (sym (take-take j n xs h) ∙ ap (take j) e ∙ take-take j n ys h)
  where
    crlfcrlf : List ℕ
    crlfcrlf = 13 ∷ 10 ∷ 13 ∷ 10 ∷ []

module _ (S : Socket) (L : IsReceiver S) (before total : List ℕ) (size cap limit : ℕ)
    (usable : size ≤ cap) where
  open L use {Ready, stream, patience}

  -- No header ends within so many bytes of the stream.
  abbrev pub NoEnd : ℕ → Type 0
  NoEnd n = (j : ℕ) → 0 < j → j ≤ n → is_end before total j ≡ false

  -- The begin of the stream is in the buffer, and no header has ended in it.
  pub record Held (len : ℕ) (buffer : List ℕ) (s : S.State) : Type 0 where
    pub whole : length buffer ≡ cap
    pub room : len ≤ size
    pub taken : take len buffer ≡ take len total
    pub rest : stream s ≡ drop len total
    pub fits : len ≤ length total
    pub no_end : NoEnd len
    pub calm : patience s + length (stream s) ≤ limit
    pub ready : Ready s

  -- What a chunk brings.
  pub record Brought (ended : Bool) (len : ℕ) (buffer : List ℕ) (s : S.State) : Type 0 where
    pub whole : length buffer ≡ cap
    pub room : len ≤ size
    pub taken : take len buffer ≡ take len total
    pub rest : stream s ≡ drop len total
    pub fits : len ≤ length total
    pub some_read : 0 < len
    pub end_here : is_end before total len ≡ ended
    pub no_end : NoEnd (len - 1)
    pub ready : Ready s

  pub chunk-Brought :
      (len n rcv m : ℕ) (buffer last : List ℕ) (s0 s t : S.State) (ended : Bool)
      → size < 2 ^ 16
      → Held len buffer s0
      → Polled S L s0 (chunk n s)
      → rcv ≤ n
      → 0 < rcv
      → len + rcv ≤ size
      → Filled S before rcv len buffer s ended m last t
      → Brought ended (add16 len m) last (S.receive_commit m t)
        × (patience (S.receive_commit m t) + length (stream (S.receive_commit m t))
            < patience s0 + length (stream s0))
  unfolding fetch
  chunk-Brought len n rcv m buffer last s0 s t ended small h v few positive fits f =
      let w = v.2 m (omega (arith, f.count-le)) in
      let committed : S.receive_commit m t ≡ (fetch S m s).1 =
        ap (S.receive_commit m) f.state_lem in
      let left : length (stream s0) ≡ length total - len =
        ap length h.rest ∙ length-drop len total in
      let read_count : length (read_bytes S m s).0 ≡ m =
        ap length w.0 ∙ omega (arith, length-take m (stream s0), v.1, f.count-le) in
      let count_pos : 0 < m = ground (arith, f.ends, f.goes_on) in
      let sum : add16 len m ≡ len + m = omega (arith, f.count-le) in
      let held : take (len + m) last ≡ take (len + m) total =
        ap (take (len + m)) f.buffer_lem
        ∙ take-blit len m (read_bytes S m s).0 buffer read_count
            (omega (arith, h.whole, f.count-le))
        ∙ ap (λ r. take len buffer ++ r) (w.0 ∙ ap (take m) h.rest)
        ∙ ap (λ r. r ++ take m (drop len total)) h.taken
        ∙ take-take-drop len m total in
      let marked : (j : ℕ)
          → len < j
          → j ≤ len + m
          → is_end before total j ≡ (ended && (j == len + m)) =
        λ j low high.
          sym (is_end-take before last total (len + m) j held high) ∙ f.marks j low high in
      (
        record {
          whole =
              omega (
                arith,
                ap length f.buffer_lem,
                length-blit len (read_bytes S m s).0 buffer,
                h.whole,
              );
          room = omega (arith, f.count-le);
          taken = ap (λ k. take k last) sum ∙ held ∙ ap (λ k. take k total) (sym sum);
          rest =
              ap stream committed
              ∙ w.1
              ∙ ap (drop m) h.rest
              ∙ drop-drop len m total
              ∙ ap (λ k. drop k total) (sym sum);
          fits = omega (arith, left, h.fits, v.1, f.count-le);
          some_read = omega arith;
          end_here =
              ap (is_end before total) sum
              ∙ marked (len + m) (omega arith) (omega arith)
              ∙ ground arith;
          no_end = λ j low high. elim (Bool-cases (ltb len j)) [
            | inl later ↦ marked j (ltb→lt _ _ later) (omega arith) ∙ ground arith
            | inr earlier ↦ h.no_end j low (ground arith)
          ];
          ready = subst Ready (sym committed) w.3;
        },
        omega (
          arith,
          ap (λ r. length (stream r)) committed,
          ap patience committed,
          ap length w.1,
          length-drop m (stream s0),
          w.2,
          v.1,
          f.count-le,
        ),
      )
