-- ===== src/Http/Opening.antt =====
-- apps/w5100_http.c: the whole of `w5100_http_open`, over a connection that was made.
use ip.Common.{ℕ, ◌+◌, ◌-◌, ◌%◌, ◌^◌, ◌≤◌, ◌<◌, ◌≡◌, sym, ap, ◌∙◌, true, false, List, arith}
use ip.Common.{
  Option, none, some, take, drop, set, length, length-set, Bool-cases, Option-cases, inl, inr,
}
use ip.Common.Chars.{codes}
use ip.Socket.{Socket, IsReceiver, IsSender, IsDuplex}
use ip.Http.{
  Outcome, opened, connect_failed, user_abort, lost, invalid, unknown, wild, status, is_end, same,
  line, judge, judged, send_selector, receive_header, w5100_http_open_connected,
}
use ip.Http.Response.{Receives, receive_header_lem}
use ip.Http.Request.{Sends, send_selector-Sends}
use ip.Http.Sending.{KeepsSent, send_selector-KeepsSent}

length-judge : (buffer : List ℕ) → length (judge buffer).1 ≡ length buffer
unfolding judge
length-judge buffer =
    let response = set buffer 7 0x30 in
    elim (Bool-cases (same (take 12 response) (codes "HTTP/1.0 200"))) [
      | inl good ↦ rw good (length-set buffer 7 0x30)
      | inr bad ↦ rw bad (elim (Bool-cases (same (take 8 response) (codes "HTTP/1.0"))) [
        | inl http ↦ rw http (elim (Option-cases (line response)) [
          | inl e ↦ rw (e, judge) (length-set buffer 7 0x30)
          | inr (l, e) ↦ rw (e, judge) (length-set response (length l) 0 ∙ length-set buffer 7 0x30)
        ])
        | inr other ↦ rw other (length-set buffer 7 0x30)
      ])
    ]

module _ (S : Socket) (L : IsReceiver S) (before : List ℕ) (size limit : ℕ) (total : List ℕ) where
  open L use {Ready, stream, patience}

  -- The socket stands right behind the first end of a header in the stream.
  pub record AtBody (buffer : List ℕ) (s : S.State) : Type 0 where
    pub header : ℕ
    pub header_pos : 0 < header
    pub header-le : header ≤ size
    pub at_end : is_end before total header ≡ true
    pub first_end : (j : ℕ) → 0 < j → j ≤ header - 1 → is_end before total j ≡ false
    pub rest : stream s ≡ drop header total
    pub calm : patience s + length (stream s) ≤ limit
    pub whole : length buffer ≡ size
    pub ready : Ready s

  abbrev pub Opens : Option (Outcome × List ℕ × S.State) → Type 0
  Opens none = ⊥
  Opens (some (opened, buffer, s)) = AtBody buffer s
  Opens (some (_, buffer, s)) = Unit {0}

  judged-Opens : (r : Option (Outcome × List ℕ × S.State)) → Opens r → Opens (judged S r)
  unfolding judged
  judged-Opens none h = h
  judged-Opens (some (opened, buffer, s)) h =
      go (judge buffer).0 (judge buffer).1 (length-judge buffer)
    where
      go :
          (outcome : Outcome) (response : List ℕ)
          → length response ≡ length buffer
          → Opens (elim outcome [
            | opened ↦ some (opened, response, s)
            | failed ↦ some (failed, response, S.disconnect s)
          ])
      go opened response e = record {
        header = h.header;
        header_pos = h.header_pos;
        header-le = h.header-le;
        at_end = h.at_end;
        first_end = h.first_end;
        rest = h.rest;
        calm = h.calm;
        whole = e ∙ h.whole;
        ready = h.ready;
      }
      go connect_failed response e = tt
      go lost response e = tt
      go user_abort response e = tt
      go invalid response e = tt
      go unknown response e = tt
      go wild response e = tt
      go (status text) response e = tt
  judged-Opens (some (connect_failed, buffer, s)) h = tt
  judged-Opens (some (lost, buffer, s)) h = tt
  judged-Opens (some (user_abort, buffer, s)) h = tt
  judged-Opens (some (invalid, buffer, s)) h = tt
  judged-Opens (some (unknown, buffer, s)) h = tt
  judged-Opens (some (wild, buffer, s)) h = tt
  judged-Opens (some (status text, buffer, s)) h = tt

  received-Opens :
      (cap bound : ℕ) (usable : size ≤ cap) (s1 : S.State) (r : Option (Outcome × List ℕ × S.State))
      → cap ≡ size
      → bound ≤ limit
      → stream s1 ≡ total
      → Receives S L before (stream s1) size cap bound usable r
      → Opens r
  received-Opens cap bound usable s1 none c b e h = h
  received-Opens cap bound usable s1 (some (opened, buffer, s)) c b e h = record {
    header = h.0;
    header_pos = h.1;
    header-le = h.2;
    at_end = ap (λ r. is_end before r h.0) (sym e) ∙ h.5;
    first_end = λ j low high. ap (λ r. is_end before r j) (sym e) ∙ h.6 j low high;
    rest = h.4 ∙ ap (drop h.0) e;
    calm = omega (arith, h.7);
    whole = h.8 ∙ c;
    ready = h.9;
  }
  received-Opens cap bound usable s1 (some (connect_failed, buffer, s)) c b e h = tt
  received-Opens cap bound usable s1 (some (lost, buffer, s)) c b e h = tt
  received-Opens cap bound usable s1 (some (user_abort, buffer, s)) c b e h = tt
  received-Opens cap bound usable s1 (some (invalid, buffer, s)) c b e h = tt
  received-Opens cap bound usable s1 (some (unknown, buffer, s)) c b e h = tt
  received-Opens cap bound usable s1 (some (wild, buffer, s)) c b e h = tt
  received-Opens cap bound usable s1 (some (status text, buffer, s)) c b e h = tt

module _ (S : Socket) (L : IsReceiver S) (W : IsSender S) (X : IsDuplex S L W) (before : List ℕ)
    (size : ℕ) where
  open L use {Ready, stream, patience}
  open W use {Free, waits}

  -- Over a connection that was made and a socket that is free and ready, `w5100_http_open` ends, with enough fuel for the selector and for the
  -- stream, if both the selector and the buffer are shorter than 65536 and a header ends within the buffer. When it succeeds, the socket stands right behind the
  -- first end of a header in the stream: what is read next is the body, from its first byte on.
  pub w5100_http_open-Opens :
      (fuel e : ℕ) (selector buffer : List ℕ) (s : S.State)
      → Free s
      → Ready s
      → length selector < 2 ^ 16
      → size < 2 ^ 16
      → length buffer ≡ size
      → 0 < e
      → e ≤ size
      → is_end before (stream s) e ≡ true
      → waits s + length selector < fuel
      → patience s + length (stream s) < fuel
      → Opens S L before size
          (patience s + length (stream s))
          (stream s)
          (w5100_http_open_connected S fuel selector before buffer size (true, s))
  unfolding w5100_http_open_connected
  w5100_http_open-Opens fuel e selector buffer s free ready short small whole from to end_at enough
        patient =
      go (send_selector S fuel selector 0 (length selector % 2 ^ 16) s)
        (send_selector-Sends S W fuel selector s free short enough)
        (send_selector-KeepsSent S L W X fuel selector s free ready short)
    where
      go :
          (r : Option (Outcome × S.State))
          → Sends S W selector (W.sent s) r
          → KeepsSent S L W s r
          → Opens S L before size (patience s + length (stream s)) (stream s) (elim r [
            | some (opened, s1) ↦ judged S (receive_header S fuel before size 0 buffer s1)
            | some (outcome, s1) ↦ some (outcome, buffer, s1)
            | none ↦ none
          ])
      go none h k = h
      go (some (opened, s1)) h k =
          let same = ap length k.same_stream in
          judged-Opens S L before size (patience s + length (stream s)) (stream s) _ (
            received-Opens S L before size (patience s + length (stream s)) (stream s)
              (length buffer) (patience s1 + length (stream s1)) (omega arith) s1 _ whole
              (omega (arith, same, k.patience-le)) k.same_stream
              (receive_header_lem S L before size fuel e buffer s1 (omega arith) k.ready small from
                to (ap (λ r. is_end before r e) k.same_stream ∙ end_at)
                (omega (arith, same, k.patience-le))))
      go (some (connect_failed, s1)) h k = tt
      go (some (lost, s1)) h k = tt
      go (some (user_abort, s1)) h k = tt
      go (some (invalid, s1)) h k = tt
      go (some (unknown, s1)) h k = tt
      go (some (wild, s1)) h k = tt
      go (some (status text, s1)) h k = tt
