-- ===== src/Wget/Receive/Laws.antt =====
-- apps/wget65.c: the loop of `write_file` as a whole, over the stream and the file.
use ip.Common.{
  ℕ, zero, suc, ◌+◌, ◌%◌, ◌^◌, ◌≤◌, ◌<◌, ◌≡◌, refl, ◌∙◌, ap, Bool, true, false, ◌&&◌, List, ◌++◌,
  ◌==◌, ltb, if◌then◌else◌,
}
use ip.Common.{
  Option, none, some, take, drop, length, arith, append_assoc, take-append-drop, Bool-cases, inl,
  inr, length-take, length-drop,
}
use ip.Common.Words.{add16, sub16}
use ip.Common.Buffers.{blit, length-blit, take-blit}
use ip.Socket.{Socket, Poll, aborted, idle, closed, chunk, poll, fetch, IsReceiver}
use ip.Socket.Laws.{Polled, poll-Polled, nothing-fetch, stream-fetch_zero, Ready-fetch_zero}
use ip.Wget.Receive.{
  Files, Exit, ok, user_abort, failure, buffer_size, Loop, Progress, again, finished,
}
use ip.Wget.Receive.{stopped, flush, round, finish, receive, write_file}
use ip.Wget.Receive.Writer.{IsWriter, Begins, Begins-part}

module _ (S : Socket) (L : IsReceiver S) (F : Files) (W : IsWriter F) (file : ℕ)
    (total : List ℕ) where
  open L use {Ready, stream, patience}

  abbrev pub saved : F.State → List ℕ
  saved = W.contents file

  -- The file, the buffer and the rest of the stream make up the whole stream.
  record Holds (l : Loop) (s : S.State) (f : F.State) : Type 0 where
    size : length l.buffer ≡ buffer_size
    room : l.len ≤ buffer_size
    ready : Ready s
    parts : saved f ++ (take l.len l.buffer ++ stream s) ≡ total

  -- What an exit leaves: the whole stream so far is in the file where all went well, and a begin of
  -- it otherwise.
  abbrev pub Ends : Exit → S.State → F.State → Type 0
  Ends ok s f = saved f ++ stream s ≡ total
  Ends user_abort s f = Begins (saved f) total
  Ends failure s f = Begins (saved f) total

  abbrev Goes : (bound : ℕ) → Progress S.State F.State → Type 0
  Goes bound (again l s f) =
      Holds l s f × (l.len < buffer_size) × (patience s + length (stream s) < bound)
  Goes bound (finished s f) = saved f ++ stream s ≡ total
  Goes bound (stopped e s f) = Ends e s f

  saved-Begins : (l : Loop) (s : S.State) (f : F.State) → Holds l s f → Begins (saved f) total
  saved-Begins l s f h = (take l.len l.buffer ++ stream s, h.parts)

  length-held :
      (l : Loop) (s : S.State) (f : F.State) → Holds l s f → length (take l.len l.buffer) ≡ l.len
  length-held l s f h = omega (arith, length-take l.len l.buffer, h.size, h.room)

  short-Begins :
      (l : Loop) (s : S.State) (f : F.State)
      → Holds l s f
      → Begins (saved (F.write_file file (take l.len l.buffer) f).1) total
  short-Begins l s f h =
      let (n, e) = W.contents-write_part file (take l.len l.buffer) f in
      rw e (Begins-part (saved f) (take l.len l.buffer) (stream s) total n h.parts)

  after_flush :
      (bound : ℕ) (cont : Bool) (l : Loop) (s : S.State) (f f1 : F.State)
      → Holds l s f
      → (cont ≡ true → patience s + length (stream s) < bound)
      → saved f1 ≡ saved f ++ take l.len l.buffer
      → Goes bound (
          if cont
          then again (record l { size = (l.size + l.len) % 2 ^ 32; len = 0 }) s f1
          else finished s f1)
  after_flush bound true l s f f1 h less e = (
    record {
      size = h.size;
      room = omega arith;
      ready = h.ready;
      parts = rw e (append_assoc (saved f) (take l.len l.buffer) (stream s) ∙ h.parts);
    },
    omega arith,
    less refl,
  )
  after_flush bound false l s f f1 h less e =
      rw e (append_assoc (saved f) (take l.len l.buffer) (stream s) ∙ h.parts)

  flush-Goes :
      (bound : ℕ) (cont : Bool) (l : Loop) (s : S.State) (f : F.State)
      → Holds l s f
      → (cont ≡ true → patience s + length (stream s) < bound)
      → Goes bound (flush S F file cont l s f)
  unfolding flush
  flush-Goes bound cont l s f h less =
      elim (Bool-cases ((F.write_file file (take l.len l.buffer) f).0 == l.len)) [
        | inl full ↦ rw full (
            after_flush bound cont l s f _ h less
              (W.contents-write file (take l.len l.buffer) f (ground (arith, length-held l s f h))))
        | inr short ↦ rw short (short-Begins l s f h)
      ]

  -- What the round has taken in before it decides whether to write.
  abbrev room_of : Loop → ℕ → ℕ
  room_of l rcv = let room = sub16 buffer_size l.len in if ltb room rcv then room else rcv

  abbrev filled : Loop → ℕ → S.State → Loop
  filled l n s = record l { buffer = blit l.len (fetch S n s).0 l.buffer; len = add16 l.len n }

  -- Something is granted, and no more than fits.
  room_of_lem :
      (l : Loop) (n : ℕ)
      → l.len < buffer_size
      → 0 < n
      → (room_of l n ≤ n) × (0 < room_of l n) × (l.len + room_of l n ≤ buffer_size)
  room_of_lem l n open_room some_data = ground arith

  filled-Holds :
      (l : Loop) (n : ℕ) (s0 s : S.State) (f : F.State)
      → Holds l s0 f
      → l.len + n ≤ buffer_size
      → n ≤ length (stream s0)
      → (fetch S n s).0 ≡ take n (stream s0)
      → stream (fetch S n s).1 ≡ drop n (stream s0)
      → Ready (fetch S n s).1
      → Holds (filled l n s) (fetch S n s).1 f
  filled-Holds l n s0 s f h fits le bytes rest ready = record {
    size = length-blit l.len (fetch S n s).0 l.buffer ∙ h.size;
    room = omega arith;
    ready = ready;
    parts =
        rw
          (
            no_wrap,
            take-blit l.len n (fetch S n s).0 l.buffer count_bytes (omega arith),
            bytes,
            rest,
          )
          (ap (λ r. saved f ++ r)
              (append_assoc (take l.len l.buffer) (take n (stream s0)) (drop n (stream s0))
                ∙ ap (λ r. take l.len l.buffer ++ r) (take-append-drop n (stream s0)))
            ∙ h.parts);
  }
    where
      no_wrap : add16 l.len n ≡ l.len + n
      no_wrap = omega arith

      count_bytes : length (fetch S n s).0 ≡ n
      count_bytes = ap length bytes ∙ omega (arith, length-take n (stream s0))

  -- The tail of a round, once the bytes are in the buffer.
  take_in-Goes :
      (bound : ℕ) (cont : Bool) (l : Loop) (s : S.State) (f : F.State)
      → Holds l s f
      → (cont ≡ true → patience s + length (stream s) < bound)
      → Goes bound
          (if cont && ltb l.len buffer_size then again l s f else flush S F file cont l s f)
  take_in-Goes bound cont l s f h less = elim (Bool-cases (cont && ltb l.len buffer_size)) [
    | inl more ↦ rw more (h, ground arith, less (ground arith))
    | inr full ↦ rw full (flush-Goes bound cont l s f h less)
  ]

  round-Goes :
      (l : Loop) (s : S.State) (f : F.State) (p : Poll S.State)
      → Holds l s f
      → l.len < buffer_size
      → Polled S L s p
      → Goes (patience s + length (stream s)) (round S F file l f p)
  unfolding round
  round-Goes l s f (aborted s') h open_room v = saved-Begins l s f h
  round-Goes l s f (idle s') h open_room v = (
    record { size = h.size; room = h.room; ready = v.2; parts = rw v.0 h.parts },
    open_room,
    omega (arith, ap length v.0),
  )
  round-Goes l s f (closed s') h open_room v = rw (none_granted l h.room) (
      take_in-Goes _ false (filled l 0 s') (fetch S 0 s').1 f
        (filled-Holds l 0 s s' f h (omega arith) (omega arith) (nothing-fetch S L s')
          (stream-fetch_zero S L s' v.1 ∙ v.0) (Ready-fetch_zero S L s' v.1))
        (λ e. cc))
    where
      none_granted : (l : Loop) → l.len ≤ buffer_size → room_of l 0 ≡ 0
      none_granted l r = ground arith
  round-Goes l s f (chunk n s') h open_room v =
      let k = room_of l n in
      let less : (k ≤ n) × (0 < k) × (l.len + k ≤ buffer_size) = room_of_lem l n open_room v.0 in
      let w = v.2 k less.0 in
      take_in-Goes _ true (filled l k s') (fetch S k s').1 f
        (filled-Holds l k s s' f h less.2 (omega arith) w.0 w.1 w.3)
        (λ e. omega (arith, ap length w.1, length-drop k (stream s)))

  finish-Ends :
      (s : S.State) (f : F.State)
      → saved f ++ stream s ≡ total
      → let (e, s', f') = finish S F file s f in Ends e s' f'
  unfolding finish
  finish-Ends s f h =
      let e : saved (F.close_file file f).1 ≡ saved f = W.contents-close file f in
      elim (Bool-cases (F.close_file file f).0) [
        | inl failed ↦ rw failed (stream s, rw e h)
        | inr closed_well ↦ rw closed_well (rw e h)
      ]

  abbrev pub Finishes : Option (Exit × S.State × F.State) → Type 0
  Finishes none = ⊥
  Finishes (some (e, s, f)) = Ends e s f

  receive-Finishes :
      (fuel : ℕ) (l : Loop) (s : S.State) (f : F.State)
      → Holds l s f
      → l.len < buffer_size
      → patience s + length (stream s) < fuel
      → Finishes (receive S F file fuel l s f)
  unfolding receive
  receive-Finishes zero l s f h open_room enough = absurd (omega arith)
  receive-Finishes (suc fuel) l s f h open_room enough =
      go (receive-Finishes fuel) _
        (round-Goes l s f (poll S S.receive_request s) h open_room (poll-Polled S L s h.ready))
    where
      go :
          ((l' : Loop) (s' : S.State) (f' : F.State)
            → Holds l' s' f'
            → l'.len < buffer_size
            → patience s' + length (stream s') < fuel
            → Finishes (receive S F file fuel l' s' f'))
          → (p : Progress S.State F.State) → Goes (patience s + length (stream s)) p
          → Finishes (elim p [
            | again l' s' f' ↦ receive S F file fuel l' s' f'
            | finished s' f' ↦ some (finish S F file s' f')
            | stopped e s' f' ↦ some (e, s', f')
          ])
      go ih (again l' s' f') (held, open_room', less) = ih l' s' f' held open_room' (omega arith)
      go ih (finished s' f') done = finish-Ends s' f' done
      go ih (stopped e s' f') done = done

module _ (S : Socket) (L : IsReceiver S) (F : Files) (W : IsWriter F) where
  open L use {Ready, stream, patience}

  -- A download from a ready socket into a file that can be opened ends,
  -- with the buffer of 4096 bytes and with fuel above the patience of the connection
  -- and the length of the stream. If `write_file` returns, the file holds the stream up to what is
  -- still unread, byte for byte and in order; if it exits, the file holds a begin of the stream.
  pub write_file-Finishes :
      (fuel : ℕ) (name buffer : List ℕ) (s : S.State) (f : F.State) (file : ℕ)
      → Ready s
      → length buffer ≡ buffer_size
      → (F.open_file name f).0 ≡ some file
      → patience s + length (stream s) < fuel
      → Finishes S L F W file (stream s) (write_file S F fuel name buffer s f)
  unfolding write_file
  write_file-Finishes fuel name buffer s f file ready size opened enough =
      rw (opened, Finishes)
        (receive-Finishes S L F W file (stream s) fuel _ s (F.open_file name f).1
          (record {
            size = size;
            room = omega arith;
            ready = ready;
            parts = rw (W.contents-open name f opened);
          })
          (omega arith) enough)
