-- ===== src/Wget/Device/Track.antt =====
-- apps/wget65.c: what `write_device` leaves on the disk.
use ip.Common.{
  ℕ, ◌+◌, ◌-◌, ◌*◌, ◌/◌, ◌%◌, ◌≤◌, ◌<◌, ◌≡◌, refl, ap, ◌∙◌, Bool, true, false, ◌&&◌, List, leb, ltb,
  if◌then◌else◌, arith,
}
use ip.Common.{length, take, drop, get_or, Bool-cases, inl, inr, length-take, length-drop, ltb→lt}
use ip.Common.Buffers.{get_or-take, get_or-drop}
use ip.Socket.{Socket}
use ip.Wget.Receive.{buffer_size}
use ip.Wget.Device.{Drives}
use ip.Wget.Device.Order.{offset, offset-lt, PlacedIn}
use ip.Wget.Device.Sectors.{IsDisk}

-- The byte on the disk for a byte of the stream.
abbrev pub position : (prodos : Bool) → ℕ → ℕ
position prodos i = i / buffer_size * buffer_size + offset prodos (i % buffer_size)

-- How many of so many bytes are on the disk for sure: all in ProDOS order, else the whole tracks.
abbrev pub complete : (prodos : Bool) → ℕ → ℕ
complete true n = n
complete false n = n / buffer_size * buffer_size

-- Of the sectors of a part of a track, those with the bytes that are complete are written.
sector-lt :
    (prodos : Bool) (len j : ℕ)
    → len ≤ buffer_size
    → j < complete prodos len
    → offset prodos j / 0x200 < (len + 0x1FF) / 0x200
sector-lt true len j h k = omega arith
sector-lt false len j h k = omega (arith, offset-lt false j (omega arith))

complete-le : (prodos : Bool) (n : ℕ) → complete prodos n ≤ n
complete-le true n = omega arith
complete-le false n = omega arith

pub complete-add :
    (prodos : Bool) (track n : ℕ)
    → complete prodos (buffer_size * track + n) ≡ buffer_size * track + complete prodos n
complete-add true track n = refl
complete-add false track n = omega arith

module _ (S : Socket) (D : Drives) (W : IsDisk D) (drive : ℕ) (prodos : Bool) (total : List ℕ) where
  -- So many bytes of the stream lie at their places on the disk.
  abbrev pub Stored : ℕ → D.State → Type 0
  Stored n t =
      (i : ℕ)
      → i < n
      → get_or (W.sector drive (position prodos i / 0x200) t) (position prodos i % 0x200) 0
        ≡ get_or total i 0

  module _ (track len num : ℕ) (buffer : List ℕ) (t t1 : D.State) (num_is : num ≡ 8 * track)
      (room : len ≤ buffer_size)
      (placed : PlacedIn prodos (take len (drop (buffer_size * track) total)) buffer)
      (fits : buffer_size * track + len ≤ length total)
      (writes : (k : ℕ)
        → W.sector drive k t1 ≡ (
            if leb num k && ltb k (num + (len + 0x1FF) / 0x200)
            then take 0x200 (drop (0 + 0x200 * (k - num)) buffer)
            else W.sector drive k t)) where
    before :
        (i : ℕ)
        → i < buffer_size * track
        → W.sector drive (position prodos i / 0x200) t1
          ≡ W.sector drive (position prodos i / 0x200) t
    before i h =
        let low = offset-lt prodos (i % buffer_size) (omega arith) in
        let below : position prodos i / 0x200 < num = omega arith in
        ground (arith, writes (position prodos i / 0x200))

    within :
        (j : ℕ)
        → j < complete prodos len
        → get_or (W.sector drive (num + offset prodos j / 0x200) t1) (offset prodos j % 0x200) 0
          ≡ get_or total (buffer_size * track + j) 0
    unfolding PlacedIn
    within j h =
        let o = offset prodos j in
        let few = complete-le prodos len in
        let written : W.sector drive (num + o / 0x200) t1
            ≡ take 0x200 (drop (0x200 * (o / 0x200)) buffer) =
          (ground (
            arith,
            writes (num + o / 0x200),
            sector-lt prodos len j room h,
            ap (λ k. take 0x200 (drop k buffer)) {x = 0 + 0x200 * (num + o / 0x200 - num)}
                {y = 0x200 * (o / 0x200)} (omega arith),
          )) in
        ap (λ r. get_or r (o % 0x200) 0) written
        ∙ get_or-take 0x200 (o % 0x200) (drop (0x200 * (o / 0x200)) buffer) (omega arith)
        ∙ get_or-drop (0x200 * (o / 0x200)) (o % 0x200) buffer
        ∙ ap (λ k. get_or buffer k 0) {y = o} (omega arith)
        ∙ placed j (
            omega (
              arith,
              length-take len (drop (buffer_size * track) total),
              length-drop (buffer_size * track) total,
            ))
        ∙ get_or-take len j (drop (buffer_size * track) total) (omega arith)
        ∙ get_or-drop (buffer_size * track) j total

    -- The sectors of a track make its complete bytes stored.
    pub track-Stored :
        Stored (buffer_size * track) t → Stored (buffer_size * track + complete prodos len) t1
    track-Stored stored i h = elim (Bool-cases (ltb i (buffer_size * track))) [
      | inl earlier ↦
          ap (λ r. get_or r (position prodos i % 0x200) 0) (before i (ltb→lt _ _ earlier))
          ∙ stored i (ltb→lt _ _ earlier)
      | inr later ↦
          let few = complete-le prodos len in
          let from : buffer_size * track ≤ i = ground arith in
          let j = i - buffer_size * track in
          let same_offset : offset prodos (i % buffer_size) ≡ offset prodos j =
            ap (offset prodos) {y = j} (omega arith) in
          ap (λ k. get_or (W.sector drive (k / 0x200) t1) (k % 0x200) 0)
            {y = num * 0x200 + offset prodos j} (omega (arith, same_offset))
          ∙ ap (λ k. get_or (W.sector drive k t1) ((num * 0x200 + offset prodos j) % 0x200) 0)
              {y = num + offset prodos j / 0x200} (omega arith)
          ∙ ap (λ k. get_or (W.sector drive (num + offset prodos j / 0x200) t1) k 0)
              {y = offset prodos j % 0x200} (omega arith)
          ∙ within j (omega arith)
          ∙ ap (λ k. get_or total k 0) {y = i} (omega arith)
    ]
