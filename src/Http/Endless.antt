-- ===== src/Http/Endless.antt =====
-- apps/w5100_http.c: the loop that receives the header, with a full buffer.
use ip.Common.{
  ℕ, zero, suc, ◌^◌, ◌<◌, ◌≡◌, ◌≢◌, refl, true, false, List, ◌==◌, ◌⊎◌, ltb, if◌then◌else◌, arith,
}
use ip.Common.{none, Bool-cases, inl, inr}
use ip.Common.Words.{add16, sub16}
use ip.Socket.{Socket, idle, chunk, poll}
use ip.Http.{fill, more, header_round, receive_header, pointer_size}

-- A socket whose connection stays up, and at which no key is pressed.
pub record StaysUp (S : Socket) : Type 0 where
  pub no_key : (s : S.State) → (S.abort_key s).0 ≡ false
  pub up : (s : S.State) → (S.connected s).0 ≡ true

poll_up :
    (S : Socket) (U : StaysUp S) (s : S.State)
    → ((s' : S.State) × (poll S S.receive_request s ≡ idle s'))
      ⊎ ((n : ℕ) × (s' : S.State) × (poll S S.receive_request s ≡ chunk n s'))
unfolding poll
poll_up S U s = rw (U.no_key s) (elim (Bool-cases ((S.receive_request (S.abort_key s).1).0 == 0)) [
  | inl nothing ↦ rw (nothing, U.up (S.receive_request (S.abort_key s).1).1) (inl (_, refl))
  | inr some_data ↦ rw some_data (inr (_, _, refl))
])

module _ (S : Socket) (U : StaysUp S) (before : List ℕ) (size : ℕ) where
  no_room : (n : ℕ) → size < 2 ^ 16 → (if ltb (sub16 size size) n then sub16 size size else n) ≡ 0
  no_room n small = ground arith

  round_full :
      (n : ℕ) (buffer : List ℕ) (s : S.State)
      → size < 2 ^ 16
      → size ≢ pointer_size
      → header_round S before size size buffer (chunk n s) ≡ more size buffer (S.receive_commit 0 s)
  unfolding header_round fill
  round_full n buffer s small other =
      let same : add16 size 0 ≡ size = omega arith in
      rw (no_room n small, same)
        (elim (Bool-cases (size == pointer_size)) [
          | inl two ↦ absurd (other (ground arith))
          | inr q ↦ rw q refl
        ])

  -- Once the usable part of the buffer, of fewer than 65536 bytes and not of 2, is full and no header has ended in it, the loop goes on for
  -- ever, as long as the connection stays up and no key is pressed: no fuel is enough, whatever the
  -- peer sends.
  pub receive_header-full :
      (fuel : ℕ) (buffer : List ℕ) (s : S.State)
      → size < 2 ^ 16
      → size ≢ pointer_size
      → receive_header S fuel before size size buffer s ≡ none
  unfolding receive_header header_round
  receive_header-full zero buffer s small other = refl
  receive_header-full (suc fuel) buffer s small other = elim (poll_up S U s) [
    | inl (s', e) ↦ rw (e, receive_header) (receive_header-full fuel buffer s' small other)
    | inr (n, s', e) ↦
        rw (e, receive_header, round_full n buffer s' small other)
          (receive_header-full fuel buffer (S.receive_commit 0 s') small other)
  ]
