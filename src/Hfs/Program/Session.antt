-- ===== src/Hfs/Program/Session.antt =====
-- apps/hfs65.c: the requests of a run of the server, one behind the other.
use ip.Common.{ℕ, ◌≡◌, ◌≢◌, refl, Bool, true, false, List, [], ◌∷◌}
use ip.Common.{Option, none, some}
use ip.Startup.{System, start}
use ip.Hfs.Send.{Call, Sender}
use ip.Hfs.Server.{Disks, file_parts}
use ip.Hfs.Server.Answers.{Answered, http_server-Answered}
use ip.Hfs.Program.{Request, Callback, Host, callback, main}

module _ (D : Disks) where
  -- A callback on some requests in order, each in the state that the one before it left.
  unfoldable pub session :
      Callback D → List Request → Sender × D.State → List (List Call) × Sender × D.State
  session f [] s = ([], s.0, s.1)
  session f (r ∷ requests) s =
      let (calls, b1, t1) = f r s in
      let (responses, b2, t2) = session f requests (b1, t1) in (calls ∷ responses, b2, t2)

  abbrev pub EachAnswered : List (List Call) → Type 0
  EachAnswered [] = Unit
  EachAnswered (calls ∷ responses) = Answered calls × EachAnswered responses

  -- `httpd_start` calls back for one request behind the other, and returns; `chdir` to what `getcwd`
  -- has returned, if it succeeds, makes that the current directory.
  pub record IsHost (H : Host D) : Type 0 where
    pub requests : Sender × D.State → List Request
    pub httpd_start-session :
        (port : ℕ) (f : Callback D) (s : Sender × D.State)
        → H.httpd_start port f s ≡ session f (requests s) s
    pub getcwd-chdir :
        (t t' : D.State)
        → (D.chdir (H.getcwd t) t').0 ≡ false
        → H.getcwd (D.chdir (H.getcwd t) t').1 ≡ H.getcwd t

  -- What a run leaves: each request has been answered, and the current directory is what it was.
  abbrev pub Served : Host D → D.State → Option (List (List Call)) × D.State → Type 0
  Served H t (none, t') = t' ≡ t
  Served H t (some responses, t') = EachAnswered responses × (H.getcwd t' ≡ H.getcwd t)

module _ (D : Disks)
    (full_files : (name : List ℕ) (s : D.State) (parts : List (List ℕ))
      → D.reads name s ≡ some parts
      → file_parts parts ≢ [])
    (full_disks : (s : D.State) (parts : List (List ℕ))
      → D.sectors s ≡ some parts
      → parts ≢ []) where
  session-EachAnswered :
      (requests : List Request) (s : Sender × D.State)
      → EachAnswered D (session D (callback D) requests s).0
  unfolding session callback
  session-EachAnswered [] s = tt
  session-EachAnswered (r ∷ requests) s = (
    http_server-Answered D full_files full_disks r.method r.path s.0 s.1,
    session-EachAnswered requests _,
  )

  -- On disks without empty files and images, whatever requests come, one behind the other: each is answered by exactly
  -- one response, whatever the ones before it have left in the buffer and as the current directory,
  -- and the program ends in the directory in which it was started, if that is still there. If the network cannot be started,
  -- it leaves the disks alone.
  pub main-Served :
      (Y : System) (H : Host D) (I : IsHost D H) (eth_init : ℕ) (b : Sender) (y : Y.State)
      (t : D.State)
      → ((t' : D.State) → (D.chdir (H.getcwd t) t').0 ≡ false)
      → Served D H t (main Y D H eth_init b y t)
  unfolding main
  main-Served Y H I eth_init b y t still_there = go (start Y eth_init y).0
    where
      go :
          (up : Bool)
          → Served D H t (elim up [
            | false ↦ (none, t)
            | true ↦ (
              some (H.httpd_start 80 (callback D) (b, t)).0,
              (D.chdir (H.getcwd t) (H.httpd_start 80 (callback D) (b, t)).2).1,
            )
          ])
      go false = refl
      go true =
          rw (I.httpd_start-session 80 (callback D) (b, t))
            (session-EachAnswered (I.requests (b, t)) (b, t), I.getcwd-chdir t _ (still_there _))
