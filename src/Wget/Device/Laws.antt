-- ===== src/Wget/Device/Laws.antt =====
-- apps/wget65.c: the loop of `write_device` as a whole, over the stream and the disk.
pub mod Filling
use ip.Common.{
  ℕ, zero, suc, ◌+◌, ◌-◌, ◌*◌, ◌/◌, ◌%◌, ◌^◌, ◌≤◌, ◌<◌, ◌≡◌, refl, sym, ◌∙◌, ap, Bool, true, false,
  ◌&&◌, List, [], ◌++◌, ltb, if◌then◌else◌,
}
use ip.Common.{
  Option, none, some, take, drop, length, get_or, arith, Bool-cases, inl, inr, length-take,
  length-drop,
}
use ip.Common.Words.{add16}
use ip.Common.Buffers.{drop-drop, take-take-drop}
use ip.Socket.{Socket, Poll, aborted, idle, closed, chunk, poll, fetch, IsReceiver}
use ip.Socket.Laws.{Polled, poll-Polled, nothing-fetch, stream-fetch_zero, Ready-fetch_zero}
use ip.Wget.Receive.{Exit, ok, user_abort, failure, buffer_size}
use ip.Wget.Device.{
  Drives, Loop, Progress, again, finished, stopped, place, clip, write_sectors, flush, take_in,
  round, finish, receive, sector_order, write_device,
}
use ip.Wget.Device.Order.{
  PlacedIn, HasRoom, HasRoom-zero, place-PlacedIn, clip_lem, clip_zero, length-place,
}
use ip.Wget.Device.Sectors.{IsDisk, write_sectors-Writes}
use ip.Wget.Device.Track.{complete, complete-add, position, Stored, track-Stored}

module _ (S : Socket) (L : IsReceiver S) (D : Drives) (W : IsDisk D) (drive : ℕ) (prodos : Bool)
    (total : List ℕ) (short : length total < 2 ^ 25) where
  open L use {Ready, stream, patience}

  abbrev Kept : ℕ → D.State → Type 0
  Kept = Stored S D W drive prodos total

  abbrev Holds : ℕ → Loop → S.State → D.State → Type 0
  Holds = Filling.Holds S L D W drive prodos total short

  abbrev filled : Loop → ℕ → S.State → Loop
  filled = Filling.filled S L D W drive prodos total short

  -- At the end, the bytes that were read are on the disk, in DOS 3.3 order those of whole tracks.
  abbrev pub Saved : S.State → D.State → Type 0
  Saved s t = (n : ℕ) × (n ≤ length total) × (stream s ≡ drop n total) × Kept (complete prodos n) t

  abbrev pub Ends : Exit → S.State → D.State → Type 0
  Ends ok s t = Saved s t
  Ends user_abort s t = Unit
  Ends failure s t = Unit

  abbrev Goes : (bound : ℕ) → Progress S.State D.State → Type 0
  Goes bound (again l s t) =
      (track : ℕ) × Holds track l s t
      × (l.len < buffer_size)
      × (patience s + length (stream s) < bound)
  Goes bound (finished s t) = Saved s t
  Goes bound (stopped e s t) = Ends e s t

  after_flush :
      (bound : ℕ) (cont : Bool) (track : ℕ) (l : Loop) (s : S.State) (t t1 : D.State) (next : ℕ)
      → Holds track l s t
      → (cont ≡ true → (l.len ≡ buffer_size) × (patience s + length (stream s) < bound))
      → next ≡ (l.num + (l.len + 0x1FF) / 0x200) % 2 ^ 16
      → Kept (buffer_size * track + complete prodos l.len) t1
      → Goes bound (if cont then again (record l { num = next; len = 0 }) s t1 else finished s t1)
  after_flush bound true track l s t t1 next h full e kept = (
    track + 1,
    record {
      size = h.size;
      num_is = omega (arith, h.num_is, h.fits, (full refl).0);
      room = omega arith;
      fits = omega (arith, h.fits, (full refl).0);
      rest =
          h.rest
          ∙ ap (λ k. drop k total) {y = buffer_size * (track + 1) + 0}
              (omega (arith, (full refl).0));
      placed = Filling.placed-nil S L D W drive prodos total short l.buffer;
      stored = λ i k. kept i (whole i k);
      ready = h.ready;
    },
    omega arith,
    (full refl).1,
  )
    where
      whole :
          (i : ℕ) → i < buffer_size * (track + 1) → i < buffer_size * track + complete prodos l.len
      whole i k = elim (Bool-cases prodos) [
        | inl p ↦ rw p (omega (arith, (full refl).0))
        | inr p ↦ rw p (omega (arith, (full refl).0))
      ]
  after_flush bound false track l s t t1 next h full e kept = (
    buffer_size * track + l.len,
    h.fits,
    h.rest,
    λ i k. kept i (omega (arith, complete-add prodos track l.len)),
  )

  flush-Goes :
      (bound : ℕ) (cont : Bool) (track : ℕ) (l : Loop) (s : S.State) (t : D.State)
      → Holds track l s t
      → (cont ≡ true → (l.len ≡ buffer_size) × (patience s + length (stream s) < bound))
      → Goes bound (flush S D drive prodos cont l s t)
  unfolding flush
  flush-Goes bound cont track l s t h full =
      let w =
        write_sectors-Writes S D W drive prodos ((l.len + 0x1FF) / 0x200) 0 l.num l.buffer t
          (omega (arith, h.room)) (omega (arith, h.num_is, h.fits, h.room))
          (omega (arith, h.num_is, h.fits)) in
      elim (Bool-cases
        (write_sectors S D drive prodos ((l.len + 0x1FF) / 0x200) 0 l.num l.buffer t).0) [
          | inl written ↦ rw written (
              after_flush bound cont track l s t _ _ h full (w written).0 (
                track-Stored S D W drive prodos total track l.len l.num l.buffer t _ h.num_is h.room
                  h.placed h.fits (w written).1 h.stored))
          | inr failed ↦ rw failed tt
        ]

  take_in-Goes :
      (bound : ℕ) (cont : Bool) (track : ℕ) (l : Loop) (s : S.State) (t : D.State)
      → Holds track l s t
      → (cont ≡ true → patience s + length (stream s) < bound)
      → Goes bound
          (if cont && ltb l.len buffer_size then again l s t else flush S D drive prodos cont l s t)
  take_in-Goes bound cont track l s t h less = elim (Bool-cases (cont && ltb l.len buffer_size)) [
    | inl more ↦ rw more (track, h, ground arith, less (ground arith))
    | inr full ↦
        rw full (flush-Goes bound cont track l s t h (λ e. (ground (arith, h.room), less e)))
  ]

  round-Goes :
      (track : ℕ) (l : Loop) (s : S.State) (t : D.State) (p : Poll S.State)
      → Holds track l s t
      → l.len < buffer_size
      → Polled S L s p
      → Goes (patience s + length (stream s)) (round S D drive prodos l t p)
  unfolding round take_in
  round-Goes track l s t (aborted s') h below v = tt
  round-Goes track l s t (idle s') h below v = (
    track,
    record {
      size = h.size;
      num_is = h.num_is;
      room = h.room;
      fits = h.fits;
      rest = v.0 ∙ h.rest;
      placed = h.placed;
      stored = h.stored;
      ready = v.2;
    },
    below,
    omega (arith, ap length v.0),
  )
  round-Goes track l s t (closed s') h below v = rw (clip_zero prodos l.len) (
      take_in-Goes _ false track (filled l 0 s') (fetch S 0 s').1 t
        (Filling.filled-Holds S L D W drive prodos total short track l 0 s s' t h below
          (omega arith) (HasRoom-zero prodos l.len below) (omega arith) (nothing-fetch S L s')
          (stream-fetch_zero S L s' v.1 ∙ v.0) (Ready-fetch_zero S L s' v.1))
        (λ e. cc))
  round-Goes track l s t (chunk n s') h below v =
      let k = clip prodos l.len n in
      let less = clip_lem prodos l.len n below v.0 in
      let w = v.2 k less.0 in
      take_in-Goes _ true track (filled l k s') (fetch S k s').1 t
        (Filling.filled-Holds S L D W drive prodos total short track l k s s' t h below less.2
          less.3 (omega (arith, less.0, v.1)) w.0 w.1 w.3)
        (λ e. omega (arith, ap length w.1, length-drop k (stream s), less.1, v.1, less.0))

  abbrev pub Finishes : Option (Exit × S.State × D.State) → Type 0
  Finishes none = ⊥
  Finishes (some (e, s, t)) = Ends e s t

  finish-Ends :
      (s : S.State) (t : D.State)
      → Saved s t
      → let (e, s', t') = finish S D drive prodos s t in Ends e s' t'
  unfolding finish
  finish-Ends s t (n, le, rest, kept) = elim (Bool-cases (D.close_drive drive t).0) [
    | inl failed ↦ rw failed tt
    | inr closed_well ↦ rw closed_well (
      n,
      le,
      rest,
      λ i h.
          ap (λ r. get_or r (position prodos i % 0x200) 0)
            (W.sector-close drive (position prodos i / 0x200) t)
          ∙ kept i h,
    )
  ]

  receive-Finishes :
      (fuel : ℕ) (track : ℕ) (l : Loop) (s : S.State) (t : D.State)
      → Holds track l s t
      → l.len < buffer_size
      → patience s + length (stream s) < fuel
      → Finishes (receive S D drive prodos fuel l s t)
  unfolding receive
  receive-Finishes zero track l s t h below enough = absurd (omega arith)
  receive-Finishes (suc fuel) track l s t h below enough =
      go (receive-Finishes fuel) _
        (round-Goes track l s t (poll S S.receive_request s) h below (poll-Polled S L s h.ready))
    where
      go :
          ((track' : ℕ) (l' : Loop) (s' : S.State) (t' : D.State)
            → Holds track' l' s' t'
            → l'.len < buffer_size
            → patience s' + length (stream s') < fuel
            → Finishes (receive S D drive prodos fuel l' s' t'))
          → (p : Progress S.State D.State) → Goes (patience s + length (stream s)) p
          → Finishes (elim p [
            | again l' s' t' ↦ receive S D drive prodos fuel l' s' t'
            | finished s' t' ↦ some (finish S D drive prodos s' t')
            | stopped e s' t' ↦ some (e, s', t')
          ])
      go ih (again l' s' t') (track', held, below', less) =
          ih track' l' s' t' held below' (omega arith)
      go ih (finished s' t') done = finish-Ends s' t' done
      go ih (stopped e s' t') done = done

module _ (S : Socket) (L : IsReceiver S) (D : Drives) (W : IsDisk D) where
  open L use {Ready, stream, patience}

  -- A download from a ready socket to a drive that can be opened ends, with the buffer of 4096 bytes and
  -- with fuel above the patience of the connection and the length of the stream, if the stream is
  -- shorter than 65536 sectors. If `write_device` returns, every byte that was read is on the disk at
  -- its place for the sector order: in ProDOS order one behind the other; in DOS 3.3 order, every byte
  -- of a whole track, on the page of the track that is the same physical sector as the DOS 3.3 sector
  -- of the byte.
  pub write_device-Finishes :
      (fuel : ℕ) (before name buffer : List ℕ) (device drive : ℕ) (s : S.State) (t : D.State)
      (short : length (stream s) < 2 ^ 25)
      → Ready s
      → length buffer ≡ buffer_size
      → (D.open_drive device t).0 ≡ some drive
      → patience s + length (stream s) < fuel
      → Finishes S L D W drive
          (sector_order S D before name drive (D.open_drive device t).1).0
          (stream s)
          short
          (write_device S D fuel before name buffer device s t)
  unfolding write_device
  write_device-Finishes fuel before name buffer device drive s t short ready size opened enough =
      rw (opened, Finishes, write_device)
        (receive-Finishes S L D W drive
          (sector_order S D before name drive (D.open_drive device t).1).0 (stream s) short fuel 0 _
          s _
          (Filling.start-Holds S L D W drive
            (sector_order S D before name drive (D.open_drive device t).1).0 (stream s) short buffer
            s _ size refl ready)
          (omega arith) enough)
