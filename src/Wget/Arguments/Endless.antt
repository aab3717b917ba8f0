-- ===== src/Wget/Arguments/Endless.antt =====
-- apps/wget65.c: arguments of the command line that `main` does not accept.
use ip.Common.{ℕ, zero, suc, ◌≡◌, refl, Bool, true, List, get_or, get_elem?, none, some}
use ip.Common.{◌==◌}
use ip.Common.Chars.{codes}
use ip.Wget.Device.{Drives}
use ip.Wget.Drive.{parse_drive}
use ip.Wget.Arguments.{Terminal, get_argument, choose_url, choose_file}

get_argument_given :
    (U : Terminal) (argv : List (List ℕ)) (arg : ℕ) (name val : List ℕ) (u : U.State)
    → get_elem? argv arg ≡ some val
    → ((get_argument U argv arg name u).0 ≡ some val)
      × ((get_argument U argv arg name u).1 ≡ U.history_add val u)
unfolding get_argument
get_argument_given U argv arg name val u given = rw (given, get_argument) (refl, refl)

module _ (U : Terminal) (argv : List (List ℕ)) (val : List ℕ) where
  -- A URL on the command line that is never accepted is tried for ever: the loop takes it again and
  -- again, and never asks for another.
  pub choose_url-refused :
      (fuel : ℕ) (resolve : Bool) (u : U.State)
      → get_elem? argv 1 ≡ some val
      → ((u' : U.State) → (U.url_parse val resolve u').0 ≡ none)
      → choose_url U argv fuel resolve u ≡ none
  unfolding choose_url
  choose_url-refused zero resolve u given bad = refl
  choose_url-refused (suc fuel) resolve u given bad =
      let a = get_argument_given U argv 1 (codes "URL") val u given in
      rw (a.0, choose_url, bad (get_argument U argv 1 (codes "URL") u).1)
        (choose_url-refused fuel resolve
          (U.url_parse val resolve (get_argument U argv 1 (codes "URL") u).1).1 given bad)

  -- Likewise a drive on the command line that is malformed.
  pub choose_file-malformed :
      (D : Drives) (fuel : ℕ) (t : D.State) (u : U.State)
      → get_elem? argv 2 ≡ some val
      → (get_or val 0 0 == b'!') ≡ true
      → parse_drive val ≡ none
      → choose_file U argv D fuel t u ≡ none
  unfolding choose_file
  choose_file-malformed D zero t u given drive bad = refl
  choose_file-malformed D (suc fuel) t u given drive bad =
      let a = get_argument_given U argv 2 (codes "File") val u given in
      rw (a.0, choose_file, drive, bad, a.1)
        (choose_file-malformed D fuel t (U.history_add val u) given drive bad)
