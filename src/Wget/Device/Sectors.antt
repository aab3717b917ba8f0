-- ===== src/Wget/Device/Sectors.antt =====
-- apps/wget65.c: the sectors that `write_device` writes for a track.
use ip.Common.{
  ℕ, zero, suc, ◌+◌, ◌-◌, ◌*◌, ◌%◌, ◌^◌, ◌≤◌, ◌<◌, ◌≡◌, ap, ◌∙◌, Bool, true, false, ◌&&◌, List,
  ◌==◌, leb, ltb, if◌then◌else◌, arith,
}
use ip.Common.{take, drop, Bool-cases, inl, inr}
use ip.Common.Words.{add16}
use ip.Socket.{Socket}
use ip.Wget.Receive.{buffer_size}
use ip.Wget.Device.{Drives, write_sectors}

-- What the C library says of a drive: a write that does not fail changes one sector.
pub record IsDisk (D : Drives) : Type 0 where
  pub sector : (drive num : ℕ) → D.State → List ℕ
  pub sector-write :
      (drive num : ℕ) (bytes : List ℕ) (t : D.State) (k : ℕ)
      → (D.write_sector drive num bytes t).0 ≡ false
      → sector drive k (D.write_sector drive num bytes t).1
        ≡ (if k == num then bytes else sector drive k t)
  pub sector-close :
      (drive k : ℕ) (t : D.State) → sector drive k (D.close_drive drive t).1 ≡ sector drive k t

module _ (S : Socket) (D : Drives) (W : IsDisk D) (drive : ℕ) (prodos : Bool) where
  abbrev piece : ℕ → List ℕ → List ℕ
  piece i buffer = take 0x200 (drop i buffer)

  -- What the loop over the sectors leaves, if none failed.
  abbrev pub Writes : (rounds i num : ℕ) → List ℕ → D.State → Bool × ℕ × D.State → Type 0
  Writes rounds i num buffer t (written, next, t1) =
      written ≡ true
      → (next ≡ (num + rounds) % 2 ^ 16)
        × ((k : ℕ)
            → W.sector drive k t1 ≡ (
                if leb num k && ltb k (num + rounds)
                then piece (i + 0x200 * (k - num)) buffer
                else W.sector drive k t))

  one_more :
      (rounds i num k : ℕ) (buffer : List ℕ) (t t1 : D.State)
      → i + 0x200 * suc rounds ≤ buffer_size
      → num + suc rounds ≤ 2 ^ 16
      → num < 2 ^ 16
      → (D.write_sector drive num (piece i buffer) t).0 ≡ false
      → W.sector drive k t1 ≡ (
          if leb (add16 num 1) k && ltb k (add16 num 1 + rounds)
          then piece (add16 i 0x200 + 0x200 * (k - add16 num 1)) buffer
          else W.sector drive k (D.write_sector drive num (piece i buffer) t).1)
      → W.sector drive k t1 ≡ (
          if leb num k && ltb k (num + suc rounds)
          then piece (i + 0x200 * (k - num)) buffer
          else W.sector drive k t)
  one_more rounds i num k buffer t t1 h fits l fine rest =
      let one = W.sector-write drive num (piece i buffer) t k fine in
      elim (Bool-cases (k == num)) [
        | inl here ↦
            let same : piece (i + 0x200 * (k - num)) buffer ≡ piece i buffer =
              ap (λ o. piece o buffer) {y = i} (ground arith) in
            ground (arith, rest, one, same)
        | inr elsewhere ↦ elim (Bool-cases (ltb num k)) [
          | inl behind ↦ elim (Bool-cases (ltb k (num + suc rounds))) [
            | inl within ↦
                let same : piece (add16 i 0x200 + 0x200 * (k - add16 num 1)) buffer
                    ≡ piece (i + 0x200 * (k - num)) buffer =
                  ap (λ o. piece o buffer) {y = i + 0x200 * (k - num)} (ground arith) in
                ground (arith, rest, one, same)
            | inr beyond ↦ ground (arith, rest, one)
          ]
          | inr before ↦ ground (arith, rest, one)
        ]
      ]

  pub write_sectors-Writes :
      (rounds i num : ℕ) (buffer : List ℕ) (t : D.State)
      → i + 0x200 * rounds ≤ buffer_size
      → num + rounds ≤ 2 ^ 16
      → num < 2 ^ 16
      → Writes rounds i num buffer t (write_sectors S D drive prodos rounds i num buffer t)
  unfolding write_sectors
  write_sectors-Writes zero i num buffer t h fits l = λ written. (omega arith, λ k. ground arith)
  write_sectors-Writes (suc rounds) i num buffer t h fits l =
      elim (Bool-cases (D.write_sector drive num (piece i buffer) t).0) [
        | inl failed ↦ rw failed (λ impossible. cc)
        | inr fine ↦
            let ih =
              write_sectors-Writes rounds (add16 i 0x200) (add16 num 1) buffer
                (D.write_sector drive num (piece i buffer) t).1 (omega arith) (omega arith)
                (omega arith) in
            rw fine (λ written. (
              (ih written).0 ∙ omega arith,
              λ k. one_more rounds i num k buffer t _ h fits l fine ((ih written).1 k),
            ))
      ]
