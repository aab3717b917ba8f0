-- ===== src/Hfs/Send.antt =====
-- apps/hfs65.c: `send`, the buffered output.
pub mod Whole
use ip.Common.{ℕ, ◌+◌, ◌-◌, Bool, true, false, ◌||◌, List, [], ◌∷◌, ◌++◌, ◌==◌, ltb, if◌then◌else◌}
use ip.Common.{take, length}
use ip.Common.Words.{add16, sub16}
use ip.Common.Buffers.{blit}

-- HTTPD_RESPONSE_200_HTML and so on.
pub data Response : Type 0 where
  html file_data noheader not_found server_error : Response

-- A call of `httpd_send_response`.
pub record Call : Type 0 where
  pub response : Response
  pub bytes : List ℕ

pub record Sender : Type 0 where
  pub send_buffer : List ℕ
  pub send_size : ℕ
  pub send_type : Response

-- The `flags`: SEND_FIRST, none or SEND_LAST.
pub data Flags : Type 0 where
  send_first send_more send_last : Flags

abbrev pub buffer_size : ℕ
buffer_size = 1024

-- What `vsnprintf` stores of a text in `n` bytes.
unfoldable pub printed : ℕ → List ℕ → List ℕ
printed n text = if n == 0 then [] else take (n - 1) text ++ 0 ∷ []

unfoldable pub begin : Flags → Sender → Sender
begin send_first b = record b { send_size = 0; send_type = html }
begin send_more b = b
begin send_last b = b

unfoldable pub is_last : Flags → Bool
is_last send_first = false
is_last send_more = false
is_last send_last = true

-- The text goes into the buffer.
unfoldable pub append : List ℕ → Sender → Sender
unfolding printed
append text b = record b {
  send_buffer = blit b.send_size (printed (sub16 buffer_size b.send_size) text) b.send_buffer;
  send_size = add16 b.send_size (length text);
}

-- The buffer is sent if the text is the last one or less than a quarter of the buffer is free.
unfoldable pub flush : Bool → Sender → Sender × List Call
flush last b =
    if last || ltb (sub16 buffer_size b.send_size) 256
    then (
      record b { send_size = 0; send_type = noheader },
      record { response = b.send_type; bytes = take b.send_size b.send_buffer } ∷ [],
    )
    else (b, [])

-- A call with the text that the format and its arguments make.
unfoldable pub send : Flags → List ℕ → Sender → Sender × List Call
unfolding begin append flush is_last
send flags text b = flush (is_last flags) (append text (begin flags b))

-- The calls for the texts between the first and the last one.
unfoldable pub send_all : List (List ℕ) → Sender → Sender × List Call
unfolding send
send_all [] b = (b, [])
send_all (text ∷ texts) b =
    let (b1, calls) = send send_more text b in
    let (b2, more) = send_all texts b1 in (b2, calls ++ more)

-- A page: the first text, those between, and the last one.
unfoldable pub send_page : List ℕ → List (List ℕ) → List ℕ → Sender → Sender × List Call
unfolding send_all
send_page head texts foot b =
    let (b1, calls1) = send send_first head b in
    let (b2, calls2) = send_all texts b1 in
    let (b3, calls3) = send send_last foot b2 in (b3, calls1 ++ (calls2 ++ calls3))
