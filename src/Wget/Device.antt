-- ===== src/Wget/Device.antt =====
-- apps/wget65.c: `write_device`.
pub mod Skew
pub mod Order
pub mod Sectors
pub mod Track
pub mod Laws
pub mod Closes
pub mod Memory
mod Tests
use ip.Common.{
  ℕ, zero, suc, ◌+◌, ◌-◌, ◌*◌, ◌/◌, ◌%◌, ◌^◌, Bool, true, false, ◌&&◌, List, [], ◌∷◌, ◌++◌, ◌==◌,
  ltb, if◌then◌else◌,
}
use ip.Common.{Option, none, some, take, drop, length, not, map, get_or, bit_or}
use ip.Common.Chars.{codes, to_upper}
use ip.Common.Words.{add16, sub16}
use ip.Common.Buffers.{blit}
use ip.Socket.{Socket, Poll, aborted, idle, closed, chunk, poll, fetch}
use ip.Wget.Receive.{Exit, ok, user_abort, failure, buffer_size}

-- <dio.h> of the C library: a handle or none, the number of sectors, whether a sector failed to be
-- written, and whether closing failed.
pub record Drives : Type 1 where
  pub State : Type 0
  pub open_drive : ℕ → State → Option ℕ × State
  pub sectcount : ℕ → State → ℕ × State
  pub write_sector : ℕ → ℕ → List ℕ → State → Bool × State
  pub close_drive : ℕ → State → Bool × State

-- The page of the buffer for each page of a track in DOS 3.3 order.
abbrev pub skew : List ℕ
skew =
    0x0 ∷ 0xE ∷ 0xD ∷ 0xC ∷ 0xB ∷ 0xA ∷ 0x9 ∷ 0x8 ∷ 0x7 ∷ 0x6 ∷ 0x5 ∷ 0x4 ∷ 0x3 ∷ 0x2 ∷ 0x1 ∷ 0xF
    ∷ []

-- Where the next byte goes in DOS 3.3 order, and for how many bytes the page has room.
unfoldable pub dos_offset : ℕ → ℕ
dos_offset len = bit_or (get_or skew (len / 0x100) 0 * 2 ^ 8) (len % 0x100)

unfoldable pub dos_room : ℕ → ℕ
dos_room len = 0x100 - len % 0x100

pub record Loop : Type 0 where
  pub buffer : List ℕ
  pub len : ℕ
  pub num : ℕ

pub data Progress (S D : Type 0) : Type 0 where
  again : Loop → S → D → Progress S D
  finished : S → D → Progress S D
  stopped : Exit → S → D → Progress S D

-- `!strcasecmp(name + strlen(name) - 3, ".PO")`; `before` is the three bytes in front of `name`.
unfoldable pub is_po : (before name : List ℕ) → Bool
is_po before name = same (map to_upper (drop (length name) (before ++ name))) (codes ".PO")
  where
    same : List ℕ → List ℕ → Bool
    same [] [] = true
    same (x ∷ xs) (y ∷ ys) = (x == y) && same xs ys
    same _ _ = false

-- Copies bytes to their place for the sector order.
unfoldable pub place : (prodos : Bool) → (len : ℕ) → List ℕ → List ℕ → List ℕ
unfolding dos_offset
place true len bytes buffer = blit len bytes buffer
place false len bytes buffer = blit (dos_offset len) bytes buffer

-- How many of the granted bytes are read.
unfoldable pub clip : (prodos : Bool) → (len rcv : ℕ) → ℕ
unfolding dos_room
clip true len rcv = let room = sub16 buffer_size len in if ltb room rcv then room else rcv
clip false len rcv = if ltb (dos_room len) rcv then dos_room len else rcv

module _ (S : Socket) (D : Drives) (drive : ℕ) (prodos : Bool) where
  -- `for (i = 0; i < len; i += 0x200) dio_write(…)`, with the rounds that are left: true if all
  -- sectors were written, and the next sector number.
  pub write_sectors : ℕ → ℕ → ℕ → List ℕ → D.State → Bool × ℕ × D.State
  write_sectors zero i num buffer t = (true, num, t)
  write_sectors (suc rounds) i num buffer t =
      let (failed, t1) = D.write_sector drive num (take 0x200 (drop i buffer)) t in
      let rest = write_sectors rounds (add16 i 0x200) (add16 num 1) buffer t1 in
      if failed then (false, add16 num 1, t1) else rest

  pub flush : Bool → Loop → S.State → D.State → Progress S.State D.State
  unfolding write_sectors
  flush cont l s t =
      let (written, num, t1) = write_sectors ((l.len + 0x1FF) / 0x200) 0 l.num l.buffer t in
      if written
      then (let next = record l { num = num; len = 0 } in
          if cont then again next s t1 else finished s t1)
      else stopped failure (S.disconnect s) t1

  pub take_in : Bool → ℕ → Loop → S.State → D.State → Progress S.State D.State
  unfolding flush place clip
  take_in cont rcv l s t =
      let n = clip prodos l.len rcv in
      let (bytes, s1) = fetch S n s in
      let next = record l { buffer = place prodos l.len bytes l.buffer; len = add16 l.len n } in
      if cont && ltb next.len buffer_size then again next s1 t else flush cont next s1 t

  pub round : Loop → D.State → Poll S.State → Progress S.State D.State
  unfolding take_in
  round l t (aborted s) = stopped user_abort (S.disconnect s) t
  round l t (idle s) = again l s t
  round l t (closed s) = take_in false 0 l s t
  round l t (chunk n s) = take_in true n l s t

  -- The `dio_close` behind the loop.
  pub finish : S.State → D.State → Exit × S.State × D.State
  finish s t =
      let (failed, t1) = D.close_drive drive t in
      if failed then (failure, S.disconnect s, t1) else (ok, s, t1)

  -- `while (cont)`, with the rest of the function; none if the fuel runs out.
  pub receive : ℕ → Loop → S.State → D.State → Option (Exit × S.State × D.State)
  unfolding round finish
  receive zero l s t = none
  receive (suc fuel) l s t = elim (round l t (poll S S.receive_request s)) [
    | again l' s' t' ↦ receive fuel l' s' t'
    | finished s' t' ↦ some (finish s' t')
    | stopped e s' t' ↦ some (e, s', t')
  ]

module _ (S : Socket) (D : Drives) where
  -- The sector order: ProDOS for the name extension .PO, and else unless the drive has 280 sectors.
  pub sector_order : (before name : List ℕ) → ℕ → D.State → Bool × D.State
  unfolding is_po
  sector_order before name drive t =
      if is_po before name
      then (true, t)
      else (let (count, t1) = D.sectcount drive t in (not (count == 280), t1))

  pub write_device :
      ℕ
      → (before name buffer : List ℕ) → (device : ℕ) → S.State
      → D.State
      → Option (Exit × S.State × D.State)
  unfolding receive sector_order
  write_device fuel before name buffer device s t =
      let (drive, t1) = D.open_drive device t in
      elim drive [
        | none ↦ some (failure, S.disconnect s, t1)
        | some drive ↦
            let (prodos, t2) = sector_order before name drive t1 in
            receive S D drive prodos fuel (record { buffer = buffer; len = 0; num = 0 }) s t2
      ]
