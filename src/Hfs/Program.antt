-- ===== src/Hfs/Program.antt =====
-- apps/hfs65.c: `main`, without what it prints.
pub mod Session
mod Tests
use ip.Common.{ℕ, Bool, true, false, List, [], ◌∷◌}
use ip.Common.{Option, none, some}
use ip.Startup.{System, start}
use ip.Hfs.Send.{Call, Sender}
use ip.Hfs.Server.{Disks, http_server}

-- What `http_server` gets of a request, and uses.
pub record Request : Type 0 where
  pub method : List ℕ
  pub path : List ℕ

-- What a callback makes of a request: its calls of `httpd_send_response`, and the state behind it.
abbrev pub Callback : Disks → Type 0
Callback D = Request → Sender × D.State → List Call × Sender × D.State

-- `getcwd` of the C library, and `httpd_start` of ip65, with the calls of `httpd_send_response` for each
-- request until it returns.
pub record Host (D : Disks) : Type 1 where
  pub getcwd : D.State → List ℕ
  pub httpd_start : (port : ℕ) → Callback D → Sender × D.State → List (List Call) × Sender × D.State

-- `http_server` as the callback.
unfoldable pub callback : (D : Disks) → Callback D
unfolding http_server
callback D r (b, t) = let ((b1, calls), t1) = http_server D r.method r.path b t in (calls, b1, t1)

-- `main`: the calls for each request, or none if the network could not be started.
unfoldable pub main :
    (Y : System) (D : Disks) (H : Host D)
    → ℕ
    → Sender
    → Y.State
    → D.State
    → Option (List (List Call)) × D.State
unfolding callback
main Y D H eth_init b y t =
    let cwd = H.getcwd t in
    let (up, y1) = start Y eth_init y in
    elim up [
      | false ↦ (none, t)
      | true ↦
          let (responses, b1, t1) = H.httpd_start 80 (callback D) (b, t) in
          (some responses, (D.chdir cwd t1).1)
    ]
