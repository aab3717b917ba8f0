-- ===== src/Wget/Receive.antt =====
-- apps/wget65.c: `write_file`.
pub mod Writer
pub mod Laws
pub mod Closes
pub mod Memory
mod Tests
use ip.Common.{
  ℕ, zero, suc, ◌+◌, ◌-◌, ◌%◌, ◌^◌, Bool, true, false, ◌&&◌, List, [], ◌∷◌, ◌==◌, ltb,
  if◌then◌else◌,
}
use ip.Common.{Option, none, some, take, length, not}
use ip.Common.Words.{add16, sub16}
use ip.Common.Buffers.{blit}
use ip.Socket.{Socket, Poll, aborted, idle, closed, chunk, poll, fetch}

-- `open` (with O_WRONLY, O_CREAT and O_TRUNC), `write` and `close` of the C library: a handle or a
-- failure, how many bytes were written, and whether closing failed.
pub record Files : Type 1 where
  pub State : Type 0
  pub open_file : List ℕ → State → Option ℕ × State
  pub write_file : ℕ → List ℕ → State → ℕ × State
  pub close_file : ℕ → State → Bool × State

-- How a transfer ends: it returns, or the program exits at the abort key or at a failure.
pub data Exit : Type 0 where
  ok user_abort failure : Exit

-- `sizeof(buffer)`
abbrev pub buffer_size : ℕ
buffer_size = 0x1000

-- The variables of the loop.
pub record Loop : Type 0 where
  pub buffer : List ℕ
  pub len : ℕ
  pub size : ℕ

-- What a round comes to: the next round, the end of the loop, or an exit.
pub data Progress (S F : Type 0) : Type 0 where
  again : Loop → S → F → Progress S F
  finished : S → F → Progress S F
  stopped : Exit → S → F → Progress S F

module _ (S : Socket) (F : Files) (file : ℕ) where
  -- The write of a full buffer, or of what is left at the end, and the test of `cont`.
  pub flush : Bool → Loop → S.State → F.State → Progress S.State F.State
  flush cont l s f =
      let (n, f1) = F.write_file file (take l.len l.buffer) f in
      if not (n == l.len)
      then stopped failure (S.disconnect s) f1
      else (let next = record l { size = (l.size + l.len) % 2 ^ 32; len = 0 } in
          if cont then again next s f1 else finished s f1)

  -- The part of the round behind the request, with `rcv` bytes granted.
  pub take_in : Bool → ℕ → Loop → S.State → F.State → Progress S.State F.State
  unfolding flush
  take_in cont rcv l s f =
      let room = sub16 buffer_size l.len in
      let n = if ltb room rcv then room else rcv in
      let (bytes, s1) = fetch S n s in
      let next = record l { buffer = blit l.len bytes l.buffer; len = add16 l.len n } in
      if cont && ltb next.len buffer_size then again next s1 f else flush cont next s1 f

  pub round : Loop → F.State → Poll S.State → Progress S.State F.State
  unfolding take_in
  round l f (aborted s) = stopped user_abort (S.disconnect s) f
  round l f (idle s) = again l s f
  round l f (closed s) = take_in false 0 l s f
  round l f (chunk n s) = take_in true n l s f

  -- The `close` behind the loop.
  pub finish : S.State → F.State → Exit × S.State × F.State
  finish s f =
      let (failed, f1) = F.close_file file f in
      if failed then (failure, S.disconnect s, f1) else (ok, s, f1)

  -- `while (cont)`, with the rest of the function; none if the fuel runs out.
  pub receive : ℕ → Loop → S.State → F.State → Option (Exit × S.State × F.State)
  unfolding round finish
  receive zero l s f = none
  receive (suc fuel) l s f = elim (round l f (poll S S.receive_request s)) [
    | again l' s' f' ↦ receive fuel l' s' f'
    | finished s' f' ↦ some (finish s' f')
    | stopped e s' f' ↦ some (e, s', f')
  ]

module _ (S : Socket) (F : Files) where
  pub write_file :
      ℕ → (name buffer : List ℕ) → S.State → F.State → Option (Exit × S.State × F.State)
  unfolding receive
  write_file fuel name buffer s f =
      let (file, f1) = F.open_file name f in
      elim file [
        | none ↦ some (failure, S.disconnect s, f1)
        | some file ↦ receive S F file fuel (record { buffer = buffer; len = 0; size = 0 }) s f1
      ]
