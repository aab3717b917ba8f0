-- ===== src/Wget/Arguments.antt =====
-- apps/wget65.c: the two arguments that `main` takes from the command line or from the user.
pub mod Endless
pub mod Chosen
mod Tests
use ip.Common.{ℕ, zero, suc, Bool, true, false, List, [], ◌∷◌, ◌++◌, ◌==◌, if◌then◌else◌}
use ip.Common.{Option, none, some, get_or, get_elem?}
use ip.Common.Chars.{codes, to_upper}
use ip.Wget.Device.{Drives}
use ip.Wget.Drive.{parse_drive}

-- The globals that `url_parse` of ip65 sets.
pub record Url : Type 0 where
  pub url_host : List ℕ
  pub url_ip : ℕ
  pub url_port : ℕ
  pub url_selector : List ℕ

-- linenoise, which returns a line unless the input has ended, with its history; `url_parse`, with whether
-- the host is to be resolved; `getdevicedir`; and `cgetc`.
pub record Terminal : Type 1 where
  pub State : Type 0
  pub linenoise : List ℕ → State → Option (List ℕ) × State
  pub history_reset : State → State
  pub history_load : List ℕ → State → State
  pub history_save : List ℕ → State → State
  pub history_add : List ℕ → State → State
  pub url_parse : List ℕ → Bool → State → Option Url × State
  pub device_dir : ℕ → State → Option (List ℕ)
  pub get_char : State → ℕ × State

module _ (U : Terminal) (D : Drives) where
  -- The block behind "Checking drive" for a device: true if the loop is left.
  unfoldable pub check_drive : ℕ → D.State → U.State → Bool × D.State × U.State
  check_drive device t u =
      let (dio, t1) = D.open_drive device t in
      elim dio [
        | none ↦ (false, t1, u)
        | some drive ↦
            let (count, t2) = D.sectcount drive t1 in
            let closed = (D.close_drive drive t2).1 in
            if count == 0 then (false, closed, u) else (elim (U.device_dir device u) [
              | none ↦ (true, t2, u)
              | some volume ↦
                  let (c, u1) = U.get_char u in
                  if to_upper c == b'Y' then (true, t2, u1) else (false, closed, u1)
            ])
      ]

module _ (U : Terminal) (argv : List (List ℕ)) where
  -- `get_argument`: none if nothing is entered, at which the program exits.
  unfoldable pub get_argument : ℕ → (name : List ℕ) → U.State → Option (List ℕ) × U.State
  get_argument arg name u = elim (get_elem? argv arg) [
    | some val ↦ (some val, U.history_add val u)
    | none ↦
        let (line, u1) = U.linenoise (name ++ codes "? ") u in
        elim line [
          | none ↦ (none, u1)
          | some val ↦ if get_or val 0 0 == 0 then (none, u1) else (some val, U.history_add val u1)
        ]
  ]

  -- `while (true)` for the URL, with what comes of it; none if the fuel runs out.
  unfoldable pub choose_url :
      ℕ → (resolve : Bool) → U.State → Option (Option (List ℕ × Url) × U.State)
  unfolding get_argument
  choose_url zero resolve u = none
  choose_url (suc fuel) resolve u =
      let (arg, u1) = get_argument 1 (codes "URL") u in
      elim arg [
        | none ↦ some (none, u1)
        | some val ↦
            let (url, u2) = U.url_parse val resolve u1 in
            elim url [
              | some parts ↦ some (some (val, parts), u2)
              | none ↦ choose_url fuel resolve u2
            ]
      ]

  module _ (D : Drives) where
    -- `while (true)` for the file: the argument with the device, or 0 for a file.
    unfoldable pub choose_file :
        ℕ → D.State → U.State → Option (Option (List ℕ × ℕ) × D.State × U.State)
    unfolding get_argument check_drive
    choose_file zero t u = none
    choose_file (suc fuel) t u =
        let (arg, u1) = get_argument 2 (codes "File") u in
        elim arg [
          | none ↦ some (none, t, u1)
          | some val ↦ elim (get_or val 0 0 == b'!') [
            | false ↦ some (some (val, 0), t, u1)
            | true ↦ elim (parse_drive val) [
              | none ↦ choose_file fuel t u1
              | some device ↦
                  let (chosen, t2, u2) = check_drive U D device t u1 in
                  elim chosen [
                    | true ↦ some (some (val, device), t2, u2)
                    | false ↦ choose_file fuel t2 u2
                  ]
            ]
          ]
        ]
