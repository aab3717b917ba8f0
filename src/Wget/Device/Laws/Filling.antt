-- ===== src/Wget/Device/Laws/Filling.antt =====
-- apps/wget65.c: the buffer of `write_device`, between the stream and the disk.
use ip.Common.{ℕ, ◌+◌, ◌-◌, ◌*◌, ◌^◌, ◌≤◌, ◌<◌, ◌≡◌, refl, sym, ◌∙◌, ap, Bool, List, [], ◌++◌}
use ip.Common.{take, drop, length, arith, length-take, length-drop}
use ip.Common.Words.{add16}
use ip.Common.Buffers.{drop-drop, take-take-drop}
use ip.Socket.{Socket, fetch, IsReceiver}
use ip.Wget.Receive.{buffer_size}
use ip.Wget.Device.{Drives, Loop, place}
use ip.Wget.Device.Order.{PlacedIn, HasRoom, place-PlacedIn, length-place}
use ip.Wget.Device.Sectors.{IsDisk}
use ip.Wget.Device.Track.{Stored}

module _ (S : Socket) (L : IsReceiver S) (D : Drives) (W : IsDisk D) (drive : ℕ) (prodos : Bool)
    (total : List ℕ) (short : length total < 2 ^ 25) where
  open L use {Ready, stream, patience}

  abbrev pub Kept : ℕ → D.State → Type 0
  Kept = Stored S D W drive prodos total

  -- So many tracks are on the disk, and the buffer holds the begin of the next one.
  pub record Holds (track : ℕ) (l : Loop) (s : S.State) (t : D.State) : Type 0 where
    pub size : length l.buffer ≡ buffer_size
    pub num_is : l.num ≡ 8 * track
    pub room : l.len ≤ buffer_size
    pub fits : buffer_size * track + l.len ≤ length total
    pub rest : stream s ≡ drop (buffer_size * track + l.len) total
    pub placed : PlacedIn prodos (take l.len (drop (buffer_size * track) total)) l.buffer
    pub stored : Kept (buffer_size * track) t
    pub ready : Ready s

  pub placed-nil : (buffer : List ℕ) → PlacedIn prodos [] buffer
  unfolding PlacedIn
  placed-nil buffer j h = absurd (omega arith)

  -- What is put behind the bytes of the track that are in the buffer.
  placed_more :
      (len n : ℕ) (got bytes whole buffer : List ℕ)
      → length got ≡ len
      → length bytes ≡ n
      → got ++ bytes ≡ whole
      → length buffer ≡ buffer_size
      → len < buffer_size
      → HasRoom prodos len n
      → PlacedIn prodos got buffer
      → PlacedIn prodos whole (place prodos len bytes buffer)
  placed_more len n got bytes whole buffer e eb w size below fits placed =
      let p : PlacedIn prodos (got ++ bytes) (place prodos (length got) bytes buffer) =
        place-PlacedIn prodos got bytes buffer size (omega arith) (rw (e, eb) fits) placed in
      rw (e, w) at p

  abbrev pub filled : Loop → ℕ → S.State → Loop
  filled l n s = record l {
    buffer = place prodos l.len (fetch S n s).0 l.buffer;
    len = add16 l.len n;
  }

  pub filled-Holds :
      (track : ℕ) (l : Loop) (n : ℕ) (s0 s : S.State) (t : D.State)
      → Holds track l s0 t
      → l.len < buffer_size
      → l.len + n ≤ buffer_size
      → HasRoom prodos l.len n
      → n ≤ length (stream s0)
      → (fetch S n s).0 ≡ take n (stream s0)
      → stream (fetch S n s).1 ≡ drop n (stream s0)
      → Ready (fetch S n s).1
      → Holds track (filled l n s) (fetch S n s).1 t
  filled-Holds track l n s0 s t h below few fits le bytes rest ready = record {
    size = length-place prodos l.len _ l.buffer ∙ h.size;
    num_is = h.num_is;
    room = omega (arith, few);
    fits = omega (arith, h.fits, left);
    rest =
        rest
        ∙ ap (drop n) h.rest
        ∙ drop-drop (buffer_size * track + l.len) n total
        ∙ ap (λ k. drop k total) {y = buffer_size * track + add16 l.len n} (omega arith);
    placed =
        placed_more l.len n (take l.len ahead) (fetch S n s).0 (take (add16 l.len n) ahead) l.buffer
          (omega (arith, length-take l.len ahead, length-drop (buffer_size * track) total, h.fits))
          (ap length bytes ∙ omega (arith, length-take n (stream s0)))
          (ap (λ r. take l.len ahead ++ r)
              (bytes ∙ ap (take n) (h.rest ∙ sym (drop-drop (buffer_size * track) l.len total)))
            ∙ take-take-drop l.len n ahead
            ∙ ap (λ k. take k ahead) {y = add16 l.len n} (omega arith))
          h.size below fits h.placed;
    stored = h.stored;
    ready = ready;
  }
    where
      ahead : List ℕ
      ahead = drop (buffer_size * track) total

      left : length (stream s0) ≡ length total - (buffer_size * track + l.len)
      left = ap length h.rest ∙ length-drop (buffer_size * track + l.len) total

  pub start-Holds :
      (buffer : List ℕ) (s : S.State) (t : D.State)
      → length buffer ≡ buffer_size
      → stream s ≡ total
      → Ready s
      → Holds 0 (record { buffer = buffer; len = 0; num = 0 }) s t
  start-Holds buffer s t size e ready = record {
    size = size;
    num_is = refl;
    room = omega arith;
    fits = omega arith;
    rest = e;
    placed = placed-nil buffer;
    stored = λ i h. absurd (omega arith);
    ready = ready;
  }
