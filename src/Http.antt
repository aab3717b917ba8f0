-- ===== src/Http.antt =====
-- apps/w5100_http.c: a request for a selector, and the header of the response.
pub mod Header
pub mod Response
pub mod Endless
pub mod Request
pub mod Closes
pub mod Sending
pub mod Opening
mod Tests
use ip.Common.{
  ℕ, zero, suc, ◌+◌, ◌-◌, ◌%◌, ◌^◌, Bool, true, false, ◌&&◌, List, [], ◌∷◌, ◌++◌, ◌==◌, ltb,
  if◌then◌else◌,
}
use ip.Common.{Option, none, some, take, drop, length, set}
use ip.Common.Chars.{codes}
use ip.Common.Words.{add16, sub16}
use ip.Socket.{Socket, Poll, aborted, idle, closed, chunk, poll, write_bytes}

-- What the call comes to, by its message. `wild` is the store of a NUL through a null pointer, when
-- a status line has no end.
pub data Outcome : Type 0 where
  opened connect_failed user_abort lost invalid unknown wild : Outcome
  status : List ℕ → Outcome

-- What a round of the receiving loop comes to: the next round, or the end.
pub data Round (S : Type 0) : Type 0 where
  more : ℕ → List ℕ → S → Round S
  done : Outcome → List ℕ → S → Round S

-- `!memcmp(…)` of as many bytes as both have.
unfoldable pub same : List ℕ → List ℕ → Bool
same [] [] = true
same (x ∷ xs) (y ∷ ys) = (x == y) && same xs ys
same _ _ = false

-- `sizeof(buffer)`: a pointer has two bytes.
abbrev pub pointer_size : ℕ
pointer_size = 2

-- `!memcmp(dataptr - 4, "\r\n\r\n", 4)` with `p` bytes of the buffer in front of `dataptr`; `before`
-- is the memory in front of the buffer.
unfoldable pub is_end : (before buffer : List ℕ) → ℕ → Bool
unfolding same
is_end before buffer p =
    same (drop (length before + p - 4) (before ++ take p buffer)) (13 ∷ 10 ∷ 13 ∷ 10 ∷ [])

-- The characters of a string in front of its first CR; none if there is no CR.
pub line : List ℕ → Option (List ℕ)
line [] = none
line (c ∷ cs) =
    let rest = line cs in
    if c == 13
    then some []
    else (if c == 0 then none else elim rest [ none ↦ none | some l ↦ some (c ∷ l) ])

-- The test of the header, with the buffer that it leaves.
pub judge : List ℕ → Outcome × List ℕ
unfolding same line
judge buffer =
    let response = set buffer 7 0x30 in
    if same (take 12 response) (codes "HTTP/1.0 200")
    then (opened, response)
    else (if same (take 8 response) (codes "HTTP/1.0")
        then (elim (line response) [
          | none ↦ (wild, response)
          | some l ↦ (status (drop 8 l), set response (length l) 0)
        ])
        else (unknown, response))

module _ (S : Socket) where
  -- `while (len)`: the bytes of the selector from `pos` on; none if the fuel runs out.
  unfoldable pub send_selector : ℕ → List ℕ → (pos len : ℕ) → S.State → Option (Outcome × S.State)
  send_selector zero selector pos len s = none
  send_selector (suc fuel) selector pos len s =
      if len == 0 then some (opened, s) else (elim (poll S S.send_request s) [
        | aborted s1 ↦ some (user_abort, S.disconnect s1)
        | idle s1 ↦ send_selector fuel selector pos len s1
        | closed s1 ↦ some (lost, s1)
        | chunk granted s1 ↦
            let snd = if ltb len granted then len else granted in
            send_selector fuel selector (add16 pos snd) (sub16 len snd)
              (S.send_commit snd (write_bytes S (take snd (drop pos selector)) s1))
      ])

  -- `for (i = 0; i < rcv; ++i)`: whether the header ended, and how many bytes were read.
  unfoldable pub fill : (before : List ℕ) → ℕ → ℕ → List ℕ → S.State → Bool × ℕ × List ℕ × S.State
  unfolding is_end
  fill before zero p buffer s = (false, 0, buffer, s)
  fill before (suc n) p buffer s =
      let (b, s1) = S.read s in
      let next = set buffer p b in
      let (ended, m, last, s2) = fill before n (suc p) next s1 in
      if is_end before next (suc p) then (true, 1, next, s1) else (ended, suc m, last, s2)

  -- A round of the loop, with `len` bytes of the header in the buffer, of which `size` can be used.
  pub header_round : (before : List ℕ) → (size len : ℕ) → List ℕ → Poll S.State → Round S.State
  unfolding fill
  header_round before size len buffer (aborted s) = done user_abort buffer (S.disconnect s)
  header_round before size len buffer (idle s) = more len buffer s
  header_round before size len buffer (closed s) = done lost buffer s
  header_round before size len buffer (chunk granted s) =
      let room = sub16 size len in
      let rcv = if ltb room granted then room else granted in
      let (body, read, filled, s1) = fill before rcv len buffer s in
      let s2 = S.receive_commit read s1 in
      if add16 len read == pointer_size
      then done invalid filled (S.disconnect s2)
      else (if body then done opened filled s2 else more (add16 len read) filled s2)

  -- `while (!body)`: the outcome is `opened` once the header has ended; none if the fuel runs out.
  pub receive_header :
      ℕ
      → (before : List ℕ) → (size len : ℕ) → List ℕ
      → S.State
      → Option (Outcome × List ℕ × S.State)
  unfolding header_round
  receive_header zero before size len buffer s = none
  receive_header (suc fuel) before size len buffer s =
      elim (header_round before size len buffer (poll S S.receive_request s)) [
        | more len' buffer' s' ↦ receive_header fuel before size len' buffer' s'
        | done outcome buffer' s' ↦ some (outcome, buffer', s')
      ]

  -- The end of `w5100_http_open`.
  pub judged : Option (Outcome × List ℕ × S.State) → Option (Outcome × List ℕ × S.State)
  unfolding judge
  judged (some (opened, buffer, s)) =
      let (outcome, response) = judge buffer in
      elim outcome [
        | opened ↦ some (opened, response, s)
        | failed ↦ some (failed, response, S.disconnect s)
      ]
  judged r = r

  pub w5100_http_open :
      ℕ → (selector before buffer : List ℕ) → ℕ → S.State → Option (Outcome × List ℕ × S.State)
  unfolding send_selector receive_header judged
  w5100_http_open fuel selector before buffer size s =
      elim (send_selector fuel selector 0 (length selector % 2 ^ 16) s) [
        | some (opened, s1) ↦ judged (receive_header fuel before size 0 buffer s1)
        | some (outcome, s1) ↦ some (outcome, buffer, s1)
        | none ↦ none
      ]

  -- `w5100_http_open_addr` and `w5100_http_open_name`, behind the call of `w5100_connect_addr` or
  -- `w5100_connect_name`.
  pub w5100_http_open_connected :
      ℕ
      → (selector before buffer : List ℕ) → ℕ
      → Bool × S.State
      → Option (Outcome × List ℕ × S.State)
  unfolding w5100_http_open
  w5100_http_open_connected fuel selector before buffer size (false, s) =
      some (connect_failed, buffer, s)
  w5100_http_open_connected fuel selector before buffer size (true, s) =
      w5100_http_open fuel selector before buffer size s
