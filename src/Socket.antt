-- ===== src/Socket.antt =====
-- The interface of apps/w5100.h that the C programs use, with the abort key of inc/ip65.h, and the
-- two pieces of loop that apps/w5100_http.c and apps/wget65.c build on it. The calls return:
-- W5100 says when those of apps/w5100.c do.
pub mod Laws
pub mod Closing
pub mod Script
use ip.Common.{ℕ, zero, suc, Bool, List, [], ◌∷◌, ◌++◌, ◌==◌, if◌then◌else◌, ◌≡◌, ◌≤◌, ◌<◌, true}
use ip.Common.{take, drop, length}

pub record Socket : Type 1 where
  pub State : Type 0
  -- `input_check_for_abort_key`
  pub abort_key : State → Bool × State
  -- `w5100_connected`
  pub connected : State → Bool × State
  -- `w5100_receive_request` and `w5100_send_request`
  pub receive_request : State → ℕ × State
  pub send_request : State → ℕ × State
  -- A read of `*w5100_data`, and a write to it.
  pub read : State → ℕ × State
  pub write : ℕ → State → State
  -- `w5100_receive_commit` and `w5100_send_commit`
  pub receive_commit : ℕ → State → State
  pub send_commit : ℕ → State → State
  pub disconnect : State → State

-- How a round of a loop begins: the abort key, no data though connected, no data and no connection,
-- or room for so many bytes.
pub data Poll (S : Type 0) : Type 0 where
  aborted : S → Poll S
  idle : S → Poll S
  closed : S → Poll S
  chunk : ℕ → S → Poll S

module _ (S : Socket) where
  open S use {
    State, abort_key, connected, receive_request, read, receive_commit, write, send_request,
    send_commit,
  }

  unfoldable pub poll_idle : Bool × State → Poll State
  poll_idle (up, s) = if up then idle s else closed s

  pub poll_request : ℕ × State → Poll State
  unfolding poll_idle
  poll_request (n, s) = if n == 0 then poll_idle (connected s) else chunk n s

  pub poll_key : (State → ℕ × State) → Bool × State → Poll State
  unfolding poll_request
  poll_key request (key, s) = if key then aborted s else poll_request (request s)

  -- The abort key, the request and, if it grants nothing, the test of the connection.
  unfoldable pub poll : (State → ℕ × State) → State → Poll State
  unfolding poll_key
  poll request s = poll_key request (abort_key s)

  -- `for (i = 0; i < n; ++i) *dataptr++ = *data;`: the bytes read.
  unfoldable pub read_bytes : ℕ → State → List ℕ × State
  read_bytes zero s = ([], s)
  read_bytes (suc n) s = let (b, s1) = read s in let (bs, s2) = read_bytes n s1 in (b ∷ bs, s2)

  -- `for (i = 0; i < n; ++i) *data = *dataptr++;`
  unfoldable pub write_bytes : List ℕ → State → State
  write_bytes [] s = s
  write_bytes (b ∷ bs) s = write_bytes bs (write b s)

  -- Reads and acknowledges that many bytes.
  unfoldable pub fetch : ℕ → State → List ℕ × State
  unfolding read_bytes
  fetch n s = let (bs, s1) = read_bytes n s in (bs, receive_commit n s1)

  -- What a receiver relies on in a state that is ready for requests. The stream is what the peer sends
  -- from here on, and `patience` bounds how often a request can still find nothing while the
  -- connection is up.
  pub record IsReceiver : Type 1 where
    pub Ready : State → Type 0
    pub stream : State → List ℕ
    pub patience : State → ℕ
    pub Ready-abort_key : (s : State) → Ready s → Ready (abort_key s).1
    pub Ready-connected : (s : State) → Ready s → Ready (connected s).1
    pub Ready-receive_request : (s : State) → Ready s → Ready (receive_request s).1
    pub stream-abort_key : (s : State) → stream (abort_key s).1 ≡ stream s
    pub stream-connected : (s : State) → stream (connected s).1 ≡ stream s
    pub stream-receive_request : (s : State) → stream (receive_request s).1 ≡ stream s
    -- A request grants no more than the peer sends.
    pub request-le : (s : State) → Ready s → (receive_request s).0 ≤ length (stream s)
    -- What is read after a request, up to the granted length, is the begin of the stream, and the
    -- commit takes it off.
    pub fetch-stream :
        (s : State) (k : ℕ)
        → Ready s
        → k ≤ (receive_request s).0
        → ((fetch k (receive_request s).1).0 ≡ take k (stream s))
          × (stream (fetch k (receive_request s).1).1 ≡ drop k (stream s))
          × Ready (fetch k (receive_request s).1).1
    -- A commit of nothing takes nothing off.
    pub commit_zero :
        (s : State)
        → Ready s
        → (stream (receive_commit 0 s) ≡ stream s) × Ready (receive_commit 0 s)
    pub patience-abort_key : (s : State) → patience (abort_key s).1 ≤ patience s
    pub patience-fetch :
        (s : State) (k : ℕ)
        → Ready s
        → k ≤ (receive_request s).0
        → patience (fetch k (receive_request s).1).1 ≤ patience s
    pub patience-idle :
        (s : State)
        → Ready s
        → (receive_request s).0 ≡ 0
        → (connected (receive_request s).1).0 ≡ true
        → patience (connected (receive_request s).1).1 < patience s

  -- Writes and sends these bytes, behind a request that has granted as many.
  abbrev pub put : List ℕ → State → State
  put bytes s = send_commit (length bytes) (write_bytes bytes (send_request s).1)

  -- What a sender relies on in a state that is free for requests: what has been sent, and how often a
  -- request can still find no room while the connection is up.
  pub record IsSender : Type 1 where
    pub Free : State → Type 0
    pub sent : State → List ℕ
    pub waits : State → ℕ
    pub Free-abort_key : (s : State) → Free s → Free (abort_key s).1
    pub Free-connected : (s : State) → Free s → Free (connected s).1
    pub Free-send_request : (s : State) → Free s → Free (send_request s).1
    pub sent-abort_key : (s : State) → sent (abort_key s).1 ≡ sent s
    pub sent-connected : (s : State) → sent (connected s).1 ≡ sent s
    pub sent-send_request : (s : State) → sent (send_request s).1 ≡ sent s
    -- What is written after a request, up to the granted length, is sent by the commit.
    pub sent-put :
        (s : State) (bytes : List ℕ)
        → Free s
        → length bytes ≤ (send_request s).0
        → (sent (put bytes s) ≡ sent s ++ bytes) × Free (put bytes s)
    pub waits-abort_key : (s : State) → waits (abort_key s).1 ≤ waits s
    pub waits-put :
        (s : State) (bytes : List ℕ)
        → Free s
        → length bytes ≤ (send_request s).0
        → waits (put bytes s) ≤ waits s
    pub waits-idle :
        (s : State)
        → Free s
        → (send_request s).0 ≡ 0
        → (connected (send_request s).1).0 ≡ true
        → waits (connected (send_request s).1).1 < waits s

  -- What a receiver relies on when it has sent before: sending takes nothing off the stream.
  pub record IsDuplex (L : IsReceiver) (W : IsSender) : Type 0 where
    pub patience-connected : (s : State) → L.patience (connected s).1 ≤ L.patience s
    pub Ready-send_request : (s : State) → L.Ready s → L.Ready (send_request s).1
    pub stream-send_request : (s : State) → L.stream (send_request s).1 ≡ L.stream s
    pub patience-send_request : (s : State) → L.patience (send_request s).1 ≤ L.patience s
    pub put_lem :
        (s : State) (bytes : List ℕ)
        → W.Free s
        → L.Ready s
        → length bytes ≤ (send_request s).0
        → L.Ready (put bytes s)
          × (L.stream (put bytes s) ≡ L.stream s)
          × (L.patience (put bytes s) ≤ L.patience s)
