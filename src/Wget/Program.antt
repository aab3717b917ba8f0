-- ===== src/Wget/Program.antt =====
-- apps/wget65.c: `main`, composed of the parts that the other modules are about.
pub mod Closes
pub mod Whole
pub mod Body
pub mod Card
pub mod Directory
mod Tests
use ip.Common.{
  ℕ, ◌+◌, ◌-◌, ◌%◌, ◌^◌, Bool, true, false, not, ◌&&◌, List, [], ◌∷◌, ◌++◌, ◌==◌, if◌then◌else◌,
}
use ip.Common.{Option, none, some, length, drop}
use ip.Common.Chars.{codes}
use ip.Startup.{System, read_slot}
use ip.Socket.{Socket}
use ip.Http.{Outcome, opened, connect_failed, w5100_http_open_connected}
use ip.Wget.Name.{propose_name}
use ip.Wget.Receive.{Files, Exit, ok, buffer_size, write_file}
use ip.Wget.Device.{Drives, write_device}
use ip.Wget.Arguments.{Url, Terminal, choose_url, choose_file}

-- The W5100 before and behind a connection: `w5100_init`, true if it offloads DNS, `w5100_config`, and the
-- two ways to connect.
pub record Network (S : Socket) : Type 1 where
  pub w5100_init : ℕ → S.State → Bool × S.State
  pub w5100_config : S.State → S.State
  pub w5100_connect_addr : (addr port : ℕ) → S.State → Bool × S.State
  pub w5100_connect_name : (name : List ℕ) → (length port : ℕ) → S.State → Bool × S.State

-- How the program ends: ip65 or DHCP failed, nothing was entered, the response was not opened, or
-- as the download did.
pub data End : Type 0 where
  no_network no_argument : End
  not_opened : Outcome → End
  downloaded : Exit → End

-- The path of the program up to its last slash, to which `self_path` adds a file name.
unfoldable pub program_path : List ℕ → List ℕ
program_path [] = []
program_path (c ∷ path) = elim (program_path path) [
  | [] ↦ if c == b'/' then c ∷ [] else []
  | d ∷ rest ↦ c ∷ d ∷ rest
]

unfoldable pub self_path : (path filename : List ℕ) → List ℕ
self_path path filename = path ++ filename

module _ (U : Terminal) (path : List ℕ) where
  unfoldable pub load_argument : (name : List ℕ) → U.State → U.State
  unfolding self_path
  load_argument name u = U.history_load (self_path path name) (U.history_reset u)

  unfoldable pub save_argument : (name : List ℕ) → U.State → U.State
  unfolding self_path
  save_argument name u = U.history_save (self_path path name) u

module _ (S : Socket) (N : Network S) (F : Files) (D : Drives) where
  -- The connection, to the name of the host or to its address.
  unfoldable pub connect_url : (offload_dns : Bool) → Url → S.State → Bool × S.State
  connect_url offload_dns url s =
      if offload_dns
      then N.w5100_connect_name url.url_host ((2 ^ 16 + length url.url_host - 4) % 2 ^ 8)
          url.url_port s
      else N.w5100_connect_addr url.url_ip url.url_port s

  -- The connection, and the request for the URL, with the fuel for the two loops.
  unfoldable pub open_url :
      ℕ
      → (offload_dns : Bool) → Url
      → (before buffer : List ℕ) → S.State
      → Option (Outcome × List ℕ × S.State)
  unfolding connect_url
  open_url fuel offload_dns url before buffer s =
      w5100_http_open_connected S fuel url.url_selector before buffer buffer_size
        (connect_url offload_dns url s)

  -- `w5100_disconnect` behind a download that has returned.
  unfoldable pub disconnected :
      Exit → S.State → F.State → D.State → End × S.State × F.State × D.State
  disconnected ok s f t = (downloaded ok, S.disconnect s, f, t)
  disconnected e s f t = (downloaded e, s, f, t)

  -- `write_device` or `write_file`, and the end of `main`.
  unfoldable pub download :
      ℕ
      → (device : ℕ) → (arg before_name name buffer : List ℕ) → S.State
      → F.State
      → D.State
      → Option (End × S.State × F.State × D.State)
  unfolding disconnected
  download fuel device arg before_name name buffer s f t =
      if device == 0
      then (elim (write_file S F fuel arg buffer s f) [
        | none ↦ none
        | some (e, s1, f1) ↦ some (disconnected e s1 f1 t)
      ])
      else (elim (write_device S D fuel before_name name buffer device s t) [
        | none ↦ none
        | some (e, s1, t1) ↦ some (disconnected e s1 f t1)
      ])

  -- A response that was not opened ends the program.
  unfoldable pub after_open :
      ℕ
      → (device : ℕ) → (arg before_name name : List ℕ) → F.State
      → D.State
      → Outcome
      → List ℕ
      → S.State
      → Option (End × S.State × F.State × D.State)
  unfolding download
  after_open fuel device arg before_name name f t opened buffer s =
      download fuel device arg before_name name buffer s f t
  after_open fuel device arg before_name name f t outcome buffer s =
      some (not_opened outcome, s, f, t)

  -- The connection, the request and the download; the header of the response is left in `buffer`.
  unfoldable pub transfer :
      ℕ
      → (offload_dns : Bool) → Url
      → (device : ℕ) → (arg before_name name before buffer : List ℕ) → S.State
      → F.State
      → D.State
      → Option (End × S.State × F.State × D.State)
  unfolding open_url after_open
  transfer fuel offload_dns url device arg before_name name before buffer s f t =
      elim (open_url fuel offload_dns url before buffer s) [
        | none ↦ none
        | some (outcome, response, s1) ↦
            after_open fuel device arg before_name name f t outcome response s1
      ]

-- The variables of `main` that are set before the loops: the path of the program, whether DNS is
-- offloaded, the character in front of the URL, and the memory in front of `name`, in front of
-- `buffer` and in `buffer`. That is the memory as the request finds it: the scratch use of `buffer`
-- before, for the program's path, the name and the devices, is not followed into it.
pub record Setting : Type 0 where
  pub path : List ℕ
  pub offload_dns : Bool
  pub before_url : ℕ
  pub before_name : List ℕ
  pub before : List ℕ
  pub buffer : List ℕ

-- A result with the terminal beside it.
abbrev pub beside {ℓ} : {A U : Type ℓ} → U → Option A → Option (A × U)
beside u none = none
beside u (some a) = some (a, u)

module _ (Y : System) (S : Socket) (N : Network S) (F : Files) (D : Drives) (U : Terminal)
    (argv : List (List ℕ)) where
  -- From the argument for the file on.
  unfoldable pub take_file :
      ℕ
      → Setting
      → (url_arg : List ℕ) → Url
      → S.State
      → F.State
      → D.State
      → U.State
      → Option ((End × S.State × F.State × D.State) × U.State)
  unfolding transfer choose_file load_argument save_argument
  take_file fuel c url_arg url s f t u =
      elim (choose_file U argv D fuel t (load_argument U c.path (codes "wget.files") u)) [
        | none ↦ none
        | some (choice, t1, u1) ↦ elim choice [
          | none ↦ some ((no_argument, s, f, t1), u1)
          | some (arg, device) ↦ beside (save_argument U c.path (codes "wget.files") u1) (
              transfer S N F D fuel c.offload_dns url device arg c.before_name
                (propose_name c.before_url url_arg) c.before c.buffer s f t1)
        ]
      ]

  -- From the argument for the URL on.
  unfoldable pub take_url :
      ℕ
      → Setting
      → S.State
      → F.State
      → D.State
      → U.State
      → Option ((End × S.State × F.State × D.State) × U.State)
  unfolding take_file choose_url load_argument save_argument
  take_url fuel c s f t u =
      elim (choose_url U argv fuel (not c.offload_dns)
        (load_argument U c.path (codes "wget.urls") u)) [
          | none ↦ none
          | some (choice, u1) ↦ elim choice [
            | none ↦ some ((no_argument, s, f, t), u1)
            | some (arg, url) ↦
                take_file fuel c arg url s f t (save_argument U c.path (codes "wget.urls") u1)
          ]
        ]

  -- `main`, from "Setting slot" on; `before_name`, `before` and `buffer` as in the setting.
  unfoldable pub main :
      ℕ
      → (eth_init : ℕ) → (before_url : ℕ) → (program before_name before buffer : List ℕ) → Y.State
      → S.State
      → F.State
      → D.State
      → U.State
      → Option ((End × S.State × F.State × D.State) × U.State)
  unfolding take_url program_path self_path read_slot
  main fuel eth_init before_url program before_name before buffer y s f t u =
      let path = program_path program in
      let (slot, y1) = read_slot Y (self_path path (codes "ethernet.slot")) eth_init y in
      let (failed, y2) = Y.ip65_init slot y1 in
      let (offload_dns, s1) = N.w5100_init slot s in
      let unassigned = not offload_dns && (Y.dhcp_init y2).0 in
      let c : Setting = record {
        path = path;
        offload_dns = offload_dns;
        before_url = before_url;
        before_name = before_name;
        before = before;
        buffer = buffer;
      } in
      if failed
      then some ((no_network, s, f, t), u)
      else (if unassigned
          then some ((no_network, s1, f, t), u)
          else take_url fuel c (N.w5100_config s1) f t u)
