-- ===== src/Socket/Script.antt =====
-- A socket that shows that the assumptions can be met: what the peer still sends, in pieces of at
-- most three bytes, after some requests that find nothing.
use ip.Common.{
  ℕ, zero, suc, ◌+◌, ◌-◌, Bool, List, [], ◌∷◌, ◌++◌, if◌then◌else◌, ◌≡◌, ◌≤◌, ◌<◌, true, false,
  refl, ◌∙◌, arith,
}
use ip.Common.{take, drop, length, ap, get_or, ltb, drop-eq-cons, min}
use ip.Common.{sym, append-nil, append_assoc}
use ip.Socket.{Socket, IsReceiver, IsSender, IsDuplex, write_bytes, read_bytes, fetch}

pub record Script : Type 0 where
  pub incoming : List ℕ
  pub position : ℕ
  pub pauses : ℕ
  pub sent : List ℕ
  pub hung_up : Bool

unfoldable pub request : Script → ℕ × Script
request s =
    if ltb 0 s.pauses
    then (0, record s { pauses = s.pauses - 1; position = 0 })
    else (min 3 (length s.incoming), record s { position = 0 })

abbrev pub script_socket : Socket
script_socket = record {
  State = Script;
  abort_key = λ s. (false, s);
  connected = λ s. (ltb 0 (length s.incoming + s.pauses), s);
  receive_request = request;
  send_request = λ s. (4, s);
  read = λ s. (get_or s.incoming s.position 0, record s { position = s.position + 1 });
  write = λ b s. record s { sent = s.sent ++ b ∷ [] };
  receive_commit = λ n s. record s { incoming = drop n s.incoming };
  send_commit = λ n s. s;
  disconnect = λ s. record s { hung_up = true };
}

read_script :
    (k : ℕ) (s : Script)
    → s.position + k ≤ length s.incoming
    → (read_bytes script_socket k s).0 ≡ take k (drop s.position s.incoming)
unfolding read_bytes
read_script zero s h = refl
read_script (suc k) s h = rw (drop-eq-cons s.position s.incoming 0 (omega arith)) (
    ap (λ bs. get_or s.incoming s.position 0 ∷ bs)
      (read_script k (record s { position = s.position + 1 }) (omega arith)
        ∙ ap (λ p. take k (drop p s.incoming)) {y = suc s.position} (omega arith)))

incoming-read_bytes : (k : ℕ) (s : Script) → (read_bytes script_socket k s).1.incoming ≡ s.incoming
unfolding read_bytes
incoming-read_bytes zero s = refl
incoming-read_bytes (suc k) s = incoming-read_bytes k _

pauses-read_bytes : (k : ℕ) (s : Script) → (read_bytes script_socket k s).1.pauses ≡ s.pauses
unfolding read_bytes
pauses-read_bytes zero s = refl
pauses-read_bytes (suc k) s = pauses-read_bytes k _

pub incoming-request : (s : Script) → (request s).1.incoming ≡ s.incoming
unfolding request
incoming-request s = ground arith

pub request-le_incoming : (s : Script) → (request s).0 ≤ length s.incoming
unfolding request
request-le_incoming s = ground arith

position-request : (s : Script) → (request s).1.position ≡ 0
unfolding request
position-request s = ground arith

pauses-request : (s : Script) → (request s).1.pauses ≤ s.pauses
unfolding request
pauses-request s = ground arith

-- A request that finds nothing, while the connection is up, uses up a pause.
pub pauses-idle :
    (s : Script)
    → (request s).0 ≡ 0
    → ltb 0 (length (request s).1.incoming + (request s).1.pauses) ≡ true
    → (request s).1.pauses < s.pauses
unfolding request
pauses-idle s h up = ground arith

pub fetch_script :
    (s : Script) (k : ℕ)
    → k ≤ (request s).0
    → ((fetch script_socket k (request s).1).0 ≡ take k s.incoming)
      × ((fetch script_socket k (request s).1).1.incoming ≡ drop k s.incoming)
unfolding fetch
fetch_script s k h = (
  read_script k (request s).1
        (omega (arith, position-request s, request-le_incoming s, ap length (incoming-request s)))
      ∙ rw (position-request s, incoming-request s),
  rw (incoming-read_bytes, incoming-request),
)

pub pauses-fetch :
    (s : Script) (k : ℕ)
    → k ≤ (request s).0
    → (fetch script_socket k (request s).1).1.pauses ≤ s.pauses
unfolding fetch
pauses-fetch s k h = omega (arith, pauses-read_bytes k (request s).1, pauses-request s)

pub pauses_refl : (s : Script) → s.pauses ≤ s.pauses
pauses_refl s = omega arith

unfoldable pub script_socket-IsReceiver : IsReceiver script_socket
script_socket-IsReceiver = record {
  Ready = λ s. Unit {0};
  stream = λ s. s.incoming;
  patience = λ s. s.pauses;
  Ready-abort_key = λ s r. tt;
  Ready-connected = λ s r. tt;
  Ready-receive_request = λ s r. tt;
  stream-abort_key = λ s. refl;
  stream-connected = λ s. refl;
  stream-receive_request = incoming-request;
  request-le = λ s r. request-le_incoming s;
  fetch-stream = λ s k r le. let f = fetch_script s k le in (f.0, f.1, tt);
  commit_zero = λ s r. (refl, tt);
  patience-abort_key = pauses_refl;
  patience-fetch = λ s k r le. pauses-fetch s k le;
  patience-idle = λ s r. pauses-idle s;
}

pub sent-write_bytes :
    (bytes : List ℕ) (s : Script) → (write_bytes script_socket bytes s).sent ≡ s.sent ++ bytes
unfolding write_bytes
sent-write_bytes [] s = sym (append-nil s.sent)
sent-write_bytes (b ∷ bytes) s =
    sent-write_bytes bytes (record s { sent = s.sent ++ b ∷ [] })
    ∙ append_assoc s.sent (b ∷ []) bytes

pub incoming-write_bytes :
    (bytes : List ℕ) (s : Script)
    → ((write_bytes script_socket bytes s).incoming ≡ s.incoming)
      × ((write_bytes script_socket bytes s).pauses ≡ s.pauses)
unfolding write_bytes
incoming-write_bytes [] s = (refl, refl)
incoming-write_bytes (b ∷ bytes) s =
    incoming-write_bytes bytes (record s { sent = s.sent ++ b ∷ [] })

unfoldable pub script_socket-IsSender : IsSender script_socket
script_socket-IsSender = record {
  Free = λ s. Unit {0};
  sent = λ s. s.sent;
  waits = λ s. 0;
  Free-abort_key = λ s r. tt;
  Free-connected = λ s r. tt;
  Free-send_request = λ s r. tt;
  sent-abort_key = λ s. refl;
  sent-connected = λ s. refl;
  sent-send_request = λ s. refl;
  sent-put = λ s bytes r h. (sent-write_bytes bytes s, tt);
  waits-abort_key = λ s. omega arith;
  waits-put = λ s bytes r h. omega arith;
  waits-idle = λ s r h up. absurd (omega arith);
}

unfoldable pub script_socket-IsDuplex :
    IsDuplex script_socket script_socket-IsReceiver script_socket-IsSender
unfolding script_socket-IsReceiver script_socket-IsSender
script_socket-IsDuplex = record {
  patience-connected = pauses_refl;
  Ready-send_request = λ s r. tt;
  stream-send_request = λ s. refl;
  patience-send_request = pauses_refl;
  put_lem =
      λ s bytes free ready h. let e = incoming-write_bytes bytes s in (tt, e.0, omega (arith, e.1));
}
