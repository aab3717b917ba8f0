-- ===== src/Wget/Program/Closes.antt =====
-- apps/wget65.c: how `main` leaves the socket.
use ip.Common.{ℕ, refl, Bool, List, ◌==◌}
use ip.Common.{Option, none, some, Bool-cases, inl, inr}
use ip.Socket.{Socket}
use ip.Socket.Closing.{Closed}
use ip.Http.{Outcome, opened, connect_failed, user_abort, lost, invalid, unknown, wild, status}
use ip.Http.Closes as HttpCloses
use ip.Http.Closes.{w5100_http_open_connected-Closes}
use ip.Wget.Receive.{Files, Exit, ok, failure, write_file}
use ip.Wget.Receive.Closes as FileCloses
use ip.Wget.Receive.Closes.{write_file-Closes}
use ip.Wget.Device.{Drives, write_device}
use ip.Wget.Device.Closes as DriveCloses
use ip.Wget.Device.Closes.{write_device-Closes}
use ip.Wget.Arguments.{Url}
use ip.Wget.Program.{
  Network, End, no_network, no_argument, not_opened, downloaded, open_url, disconnected, download,
  after_open, transfer,
}

module _ (S : Socket) (N : Network S) (F : Files) (D : Drives) where
  -- When the program ends, the socket is disconnected, unless it was never connected or the peer
  -- closed the connection before the response was opened.
  abbrev pub ClosedAt : End → S.State → Type 0
  ClosedAt no_network s = Unit
  ClosedAt no_argument s = Unit
  ClosedAt (not_opened outcome) s = HttpCloses.ClosedAt S outcome s
  ClosedAt (downloaded e) s = Closed S s

  abbrev pub Closes : Option (End × S.State × F.State × D.State) → Type 0
  Closes none = Unit
  Closes (some (e, s, f, t)) = ClosedAt e s

  disconnected-Closes :
      (e : Exit) (s : S.State) (f : F.State) (t : D.State)
      → FileCloses.ClosedAt S e s
      → Closes (some (disconnected S N F D e s f t))
  unfolding disconnected
  disconnected-Closes ok s f t h = (s, refl)
  disconnected-Closes Exit.user_abort s f t h = h
  disconnected-Closes failure s f t h = h

  download-Closes :
      (fuel device : ℕ) (arg before_name name buffer : List ℕ) (s : S.State) (f : F.State)
      (t : D.State)
      → Closes (download S N F D fuel device arg before_name name buffer s f t)
  unfolding download
  download-Closes fuel device arg before_name name buffer s f t = elim (Bool-cases (device == 0)) [
    | inl to_file ↦
        rw to_file
          (file (write_file S F fuel arg buffer s f) (write_file-Closes S F fuel arg buffer s f))
    | inr to_drive ↦ rw to_drive (
        drive (write_device S D fuel before_name name buffer device s t)
          (write_device-Closes S D fuel before_name name buffer device s t))
  ]
    where
      file :
          (r : Option (Exit × S.State × F.State))
          → FileCloses.Closes S F r
          → Closes
              (elim r [ none ↦ none | some (e, s1, f1) ↦ some (disconnected S N F D e s1 f1 t) ])
      file none h = tt
      file (some (e, s1, f1)) h = disconnected-Closes e s1 f1 t h

      drive :
          (r : Option (Exit × S.State × D.State))
          → DriveCloses.Closes S D r
          → Closes
              (elim r [ none ↦ none | some (e, s1, t1) ↦ some (disconnected S N F D e s1 f t1) ])
      drive none h = tt
      drive (some (e, s1, t1)) h = disconnected-Closes e s1 f t1 h

  after_open-Closes :
      (fuel device : ℕ) (arg before_name name : List ℕ) (f : F.State) (t : D.State)
      (outcome : Outcome) (buffer : List ℕ) (s : S.State)
      → HttpCloses.ClosedAt S outcome s
      → Closes (after_open S N F D fuel device arg before_name name f t outcome buffer s)
  unfolding after_open
  after_open-Closes fuel device arg before_name name f t opened buffer s h =
      download-Closes fuel device arg before_name name buffer s f t
  after_open-Closes fuel device arg before_name name f t connect_failed buffer s h = h
  after_open-Closes fuel device arg before_name name f t lost buffer s h = h
  after_open-Closes fuel device arg before_name name f t user_abort buffer s h = h
  after_open-Closes fuel device arg before_name name f t invalid buffer s h = h
  after_open-Closes fuel device arg before_name name f t unknown buffer s h = h
  after_open-Closes fuel device arg before_name name f t wild buffer s h = h
  after_open-Closes fuel device arg before_name name f t (status line) buffer s h = h

  -- Whichever way the transfer ends, well, at a failure of the file or of the drive, at the abort key
  -- or at a response that is not accepted, the socket has been disconnected last, unless it was never
  -- connected, or the connection was lost before the response was opened.
  pub transfer-Closes :
      (fuel : ℕ) (offload_dns : Bool) (url : Url) (device : ℕ)
      (arg before_name name before buffer : List ℕ) (s : S.State) (f : F.State) (t : D.State)
      → Closes
          (transfer S N F D fuel offload_dns url device arg before_name name before buffer s f t)
  unfolding transfer open_url
  transfer-Closes fuel offload_dns url device arg before_name name before buffer s f t =
      go (open_url S N F D fuel offload_dns url before buffer s)
        (w5100_http_open_connected-Closes S fuel url.url_selector before buffer 0x1000 _ _)
    where
      go :
          (r : Option (Outcome × List ℕ × S.State))
          → HttpCloses.Closes S r
          → Closes (elim r [
            | none ↦ none
            | some (outcome, response, s1) ↦
                after_open S N F D fuel device arg before_name name f t outcome response s1
          ])
      go none h = tt
      go (some (outcome, response, s1)) h =
          after_open-Closes fuel device arg before_name name f t outcome response s1 h
