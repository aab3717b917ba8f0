-- ===== src/Wget/Program/Whole.antt =====
-- apps/wget65.c: how the whole of `main` leaves the socket.
use ip.Common.{ℕ, Bool, true, false, not, ◌&&◌, List, Option, none, some, if◌then◌else◌}
use ip.Startup.{System, read_slot}
use ip.Socket.{Socket}
use ip.Wget.Receive.{Files}
use ip.Wget.Device.{Drives}
use ip.Wget.Name.{propose_name}
use ip.Common.Chars.{codes}
use ip.Wget.Arguments.{Url, Terminal, choose_url, choose_file}
use ip.Wget.Program.{
  Network, End, no_network, no_argument, Setting, beside, load_argument, save_argument, transfer,
  take_file, take_url, main, self_path, program_path,
}
use ip.Wget.Program.Closes.{Closes, transfer-Closes}

module _ (Y : System) (S : Socket) (N : Network S) (F : Files) (D : Drives) (U : Terminal)
    (argv : List (List ℕ)) where
  -- If the program ends, it leaves the socket closed.
  pub EndCloses : Option ((End × S.State × F.State × D.State) × U.State) → Type 0
  EndCloses none = Unit
  EndCloses (some (r, u)) = Closes S N F D (some r)

  beside-EndCloses :
      (u : U.State) (r : Option (End × S.State × F.State × D.State))
      → Closes S N F D r
      → EndCloses (beside u r)
  unfolding EndCloses
  beside-EndCloses u none h = tt
  beside-EndCloses u (some r) h = h

  unconnected :
      (s : S.State) (f : F.State) (t : D.State) (u : U.State)
      → EndCloses (some ((no_network, s, f, t), u))
  unfolding EndCloses
  unconnected s f t u = tt

  either_way :
      (b : Bool) (r r' : Option ((End × S.State × F.State × D.State) × U.State))
      → EndCloses r
      → EndCloses r'
      → EndCloses (if b then r else r')
  unfolding EndCloses
  either_way true r r' h h' = h
  either_way false r r' h h' = h'

  take_file-EndCloses :
      (fuel : ℕ) (c : Setting) (url_arg : List ℕ) (url : Url) (s : S.State) (f : F.State)
      (t : D.State) (u : U.State)
      → EndCloses (take_file Y S N F D U argv fuel c url_arg url s f t u)
  unfolding take_file EndCloses
  take_file-EndCloses fuel c url_arg url s f t u =
      go (choose_file U argv D fuel t (load_argument U c.path (codes "wget.files") u))
    where
      go :
          (r : Option (Option (List ℕ × ℕ) × D.State × U.State))
          → EndCloses (elim r [
            | none ↦ none
            | some (choice, t1, u1) ↦ elim choice [
              | none ↦ some ((no_argument, s, f, t1), u1)
              | some (arg, device) ↦ beside (save_argument U c.path (codes "wget.files") u1) (
                  transfer S N F D fuel c.offload_dns url device arg c.before_name
                    (propose_name c.before_url url_arg)
                    c.before
                    c.buffer
                    s
                    f
                    t1)
            ]
          ])
      go none = tt
      go (some (none, t1, u1)) = tt
      go (some (some (arg, device), t1, u1)) = beside-EndCloses _ _ (
          transfer-Closes S N F D fuel c.offload_dns url device arg c.before_name
            (propose_name c.before_url url_arg) c.before c.buffer s f t1)

  take_url-EndCloses :
      (fuel : ℕ) (c : Setting) (s : S.State) (f : F.State) (t : D.State) (u : U.State)
      → EndCloses (take_url Y S N F D U argv fuel c s f t u)
  unfolding take_url EndCloses
  take_url-EndCloses fuel c s f t u =
      go (choose_url U argv fuel (not c.offload_dns) (load_argument U c.path (codes "wget.urls") u))
    where
      go :
          (r : Option (Option (List ℕ × Url) × U.State))
          → EndCloses (elim r [
            | none ↦ none
            | some (choice, u1) ↦ elim choice [
              | none ↦ some ((no_argument, s, f, t), u1)
              | some (arg, url) ↦
                  take_file Y S N F D U argv fuel c arg url s f t
                    (save_argument U c.path (codes "wget.urls") u1)
            ]
          ])
      go none = tt
      go (some (none, u1)) = tt
      go (some (some (arg, url), u1)) = take_file-EndCloses fuel c arg url s f t _

  -- Whichever way the program ends, it has disconnected the socket last, unless it was never
  -- connected, or the connection was lost before the response was opened.
  pub main-EndCloses :
      (fuel eth_init before_url : ℕ) (program before_name before buffer : List ℕ) (y : Y.State)
      (s : S.State) (f : F.State) (t : D.State) (u : U.State)
      → EndCloses (
          main Y S N F D U argv fuel eth_init before_url program before_name before buffer y s f t
            u)
  unfolding main
  main-EndCloses fuel eth_init before_url program before_name before buffer y s f t u =
      let slot =
        read_slot Y (self_path (program_path program) (codes "ethernet.slot")) eth_init y in
      let start = Y.ip65_init slot.0 slot.1 in
      let card = N.w5100_init slot.0 s in
      let c : Setting = record {
        path = program_path program;
        offload_dns = card.0;
        before_url = before_url;
        before_name = before_name;
        before = before;
        buffer = buffer;
      } in
      let taken = take_url Y S N F D U argv fuel c (N.w5100_config card.1) f t u in
      either_way start.0 (some ((no_network, s, f, t), u))
        (if not card.0 && (Y.dhcp_init start.1).0
          then some ((no_network, card.1, f, t), u)
          else taken)
        (unconnected s f t u)
        (either_way (not card.0 && (Y.dhcp_init start.1).0) (some ((no_network, card.1, f, t), u))
          taken (unconnected card.1 f t u)
          (take_url-EndCloses fuel c (N.w5100_config card.1) f t u))
