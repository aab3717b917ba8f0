-- ===== src/Wget/Program/Body.antt =====
-- apps/wget65.c: the file behind a transfer, and the body of the response.
use ip.Common.{
  ℕ, ◌+◌, ◌-◌, ◌^◌, ◌≤◌, ◌<◌, ◌≡◌, refl, sym, ap, ◌∙◌, Bool, true, false, List, ◌++◌, arith,
}
use ip.Common.{Option, none, some, drop, length}
use mathlib.Core.Path.{subst}
use ip.Socket.{Socket, IsReceiver, IsSender, IsDuplex}
use ip.Http.{
  Outcome, opened, connect_failed, user_abort, lost, invalid, unknown, wild, status, is_end,
  w5100_http_open_connected,
}
use ip.Http.Opening.{Opens, w5100_http_open-Opens}
use ip.Wget.Receive.{Files, Exit, ok, failure, buffer_size, write_file}
use ip.Wget.Receive.Writer.{IsWriter, Begins}
use ip.Wget.Receive.Laws.{Finishes, write_file-Finishes}
use ip.Wget.Device.{Drives}
use ip.Wget.Arguments.{Url}
use ip.Wget.Program.{
  Network, End, no_network, no_argument, not_opened, downloaded, connect_url, open_url,
  disconnected, download, after_open, transfer,
}

module _ (S : Socket) (L : IsReceiver S) (V : IsSender S) (X : IsDuplex S L V) (N : Network S)
    (F : Files) (W : IsWriter F) (D : Drives) (before : List ℕ) (file : ℕ) (total : List ℕ) where
  open L use {Ready, stream, patience}

  -- The begin of the stream up to the first end of a header.
  pub record IsHeader (header : ℕ) : Type 0 where
    pub header_pos : 0 < header
    pub at_end : is_end before total header ≡ true
    pub first_end : (j : ℕ) → 0 < j → j ≤ header - 1 → is_end before total j ≡ false

  -- After a transfer that has ended well the file holds the body up to what the socket had still
  -- unread when it was disconnected; after one that has failed, a begin of the body.
  abbrev pub Saves : End → S.State → F.State → Type 0
  Saves (downloaded ok) s f =
      (header : ℕ) × IsHeader header
      × (s0 : S.State) × (s ≡ S.disconnect s0)
      × (W.contents file f ++ stream s0 ≡ drop header total)
  Saves (downloaded Exit.user_abort) s f =
      (header : ℕ) × IsHeader header × Begins (W.contents file f) (drop header total)
  Saves (downloaded failure) s f =
      (header : ℕ) × IsHeader header × Begins (W.contents file f) (drop header total)
  Saves (not_opened outcome) s f = Unit
  Saves no_network s f = ⊥
  Saves no_argument s f = ⊥

  abbrev pub TransferSaves : Option (End × S.State × F.State × D.State) → Type 0
  TransferSaves none = ⊥
  TransferSaves (some (e, s, f, t)) = Saves e s f

  file-TransferSaves :
      (header : ℕ) (s : S.State) (t : D.State) (r : Option (Exit × S.State × F.State))
      → IsHeader header
      → stream s ≡ drop header total
      → Finishes S L F W file (stream s) r
      → TransferSaves
          (elim r [ none ↦ none | some (e, s1, f1) ↦ some (disconnected S N F D e s1 f1 t) ])
  unfolding disconnected
  file-TransferSaves header s t none i e h = h
  file-TransferSaves header s t (some (ok, s1, f1)) i e h = (header, i, s1, refl, h ∙ e)
  file-TransferSaves header s t (some (Exit.user_abort, s1, f1)) i e h = (header, i, (h.0, h.1 ∙ e))
  file-TransferSaves header s t (some (failure, s1, f1)) i e h = (header, i, (h.0, h.1 ∙ e))

  open-TransferSaves :
      (fuel limit : ℕ) (arg before_name name : List ℕ) (f : F.State) (t : D.State)
      (r : Option (Outcome × List ℕ × S.State))
      → (F.open_file arg f).0 ≡ some file
      → limit < fuel
      → Opens S L before buffer_size limit total r
      → TransferSaves (elim r [
        | none ↦ none
        | some (outcome, response, s1) ↦
            after_open S N F D fuel 0 arg before_name name f t outcome response s1
      ])
  unfolding after_open download
  open-TransferSaves fuel limit arg before_name name f t none opens enough h = h
  open-TransferSaves fuel limit arg before_name name f t (some (opened, buffer, s1)) opens enough
        h =
      file-TransferSaves h.header s1 t (write_file S F fuel arg buffer s1 f)
        (record { header_pos = h.header_pos; at_end = h.at_end; first_end = h.first_end }) h.rest
        (write_file-Finishes S L F W fuel arg buffer s1 f file h.ready h.whole opens
          (omega (arith, h.calm)))
  open-TransferSaves fuel limit arg before_name name f t (some (connect_failed, buffer, s1)) opens
        enough h =
      tt
  open-TransferSaves fuel limit arg before_name name f t (some (lost, buffer, s1)) opens enough h =
      tt
  open-TransferSaves fuel limit arg before_name name f t (some (user_abort, buffer, s1)) opens
        enough h =
      tt
  open-TransferSaves fuel limit arg before_name name f t (some (invalid, buffer, s1)) opens enough
        h =
      tt
  open-TransferSaves fuel limit arg before_name name f t (some (unknown, buffer, s1)) opens enough
        h =
      tt
  open-TransferSaves fuel limit arg before_name name f t (some (wild, buffer, s1)) opens enough h =
      tt
  open-TransferSaves fuel limit arg before_name name f t (some (status text, buffer, s1)) opens
        enough h =
      tt

module _ (S : Socket) (L : IsReceiver S) (V : IsSender S) (X : IsDuplex S L V) (N : Network S)
    (F : Files) (W : IsWriter F) (D : Drives) where
  open L use {Ready, stream, patience}

  open_url-connected :
      (fuel : ℕ) (offload_dns : Bool) (url : Url) (before buffer : List ℕ) (s s1 : S.State)
      → connect_url S N F D offload_dns url s ≡ (true, s1)
      → open_url S N F D fuel offload_dns url before buffer s
        ≡ w5100_http_open_connected S fuel url.url_selector before buffer buffer_size (true, s1)
  unfolding open_url
  open_url-connected fuel offload_dns url before buffer s s1 up =
      ap (λ c. w5100_http_open_connected S fuel url.url_selector before buffer buffer_size c) up

  -- A transfer to a file ends, if the connection is made, the socket is ready, the file can be opened, the selector is
  -- shorter than 65536 characters, a header ends within the buffer of 4096 bytes, and the fuel is above what the request and the stream need. When it ends well, the file
  -- holds the response behind the first end of a header, byte for byte and in order, up to what was
  -- still unread when the socket was disconnected; when the download fails or is aborted, the file
  -- holds a begin of that.
  pub transfer-TransferSaves :
      (fuel e file : ℕ) (offload_dns : Bool) (url : Url)
      (arg before_name name before buffer : List ℕ) (s s1 : S.State) (f : F.State) (t : D.State)
      → connect_url S N F D offload_dns url s ≡ (true, s1)
      → (F.open_file arg f).0 ≡ some file
      → V.Free s1
      → Ready s1
      → length url.url_selector < 2 ^ 16
      → length buffer ≡ buffer_size
      → 0 < e
      → e ≤ buffer_size
      → is_end before (stream s1) e ≡ true
      → V.waits s1 + length url.url_selector < fuel
      → patience s1 + length (stream s1) < fuel
      → TransferSaves S L V X N F W D before file
          (stream s1)
          (transfer S N F D fuel offload_dns url 0 arg before_name name before buffer s f t)
  unfolding transfer
  transfer-TransferSaves fuel e file offload_dns url arg before_name name before buffer s s1 f t up
        opens free ready short whole from to end_at enough patient =
      open-TransferSaves S L V X N F W D before file (stream s1) fuel
        (patience s1 + length (stream s1)) arg before_name name f t
        (open_url S N F D fuel offload_dns url before buffer s) opens patient
        (subst (λ r. Opens S L before buffer_size (patience s1 + length (stream s1)) (stream s1) r)
          (sym (open_url-connected fuel offload_dns url before buffer s s1 up))
          (w5100_http_open-Opens S L V X before buffer_size fuel e url.url_selector buffer s1 free
            ready short (omega arith) whole from to end_at enough patient))
