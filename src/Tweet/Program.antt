-- ===== src/Tweet/Program.antt =====
-- apps/tweet65.c: `main`, without what it prints.
pub mod Request
mod Tests
use ip.Common.{ℕ, zero, ◌-◌, Bool, true, false, List, [], ◌∷◌, ◌++◌, ◌==◌, if◌then◌else◌, ltb}
use ip.Common.{Option, none, some, replicate, get_or}
use ip.Common.Buffers.{blit}
use ip.Common.Chars.{codes}
use ip.Common.Int.{ℤ, pos, negsuc}
use ip.Startup.{System, start}
use ip.Ifttt.{Outcome, Download, ifttt_trigger}
use ip.Tweet.{Line, input}
use ip.Tweet.Typing.{c_string}

-- `open` (with O_WRONLY, O_CREAT and O_TRUNC), `write` of the C library, and `url_download` of ip65.
pub record Saver (S : System) : Type 1 where
  pub create_file : List ℕ → S.State → Option ℕ × S.State
  pub write_file : ℕ → List ℕ → S.State → S.State
  pub url_download : S.State → Download

-- How the program ends: without a key or a text, without a network, with the request failed for a
-- reason in `ip65_error`, if it was set, with another status than 200, or well.
pub data Exit : Type 0 where
  no_key no_network no_text sent : Exit
  failed : Option ℕ → Exit
  refused : ℤ → Exit

-- `sizeof(key)` and `sizeof(text)`
abbrev pub key_size : ℕ
key_size = 81

abbrev pub text_size : ℕ
text_size = 281

-- A new line in a buffer of so many bytes.
abbrev pub empty_line : ℕ → Line
empty_line size = record { str = replicate size 0; len = 0 }

-- What `main` makes of the outcome of `ifttt_trigger`.
unfoldable pub exit_of : ℤ → Option ℕ → Exit
exit_of (negsuc n) error = failed error
exit_of (pos n) error = if n == 200 then sent else refused (pos n)

unfoldable pub tweet : (ℕ → ℕ) → Download → (key text : List ℕ) → Exit
unfolding exit_of
tweet to_ascii download key text =
    let o = ifttt_trigger to_ascii download key (codes "tweet") (some text) none none in
    exit_of o.result o.error

module _ (S : System) (V : Saver S) (del enter : ℕ) where
  -- The block behind "Saving key".
  unfoldable pub save_key : List ℕ → S.State → S.State
  save_key key s =
      let (file, s1) = V.create_file (codes "ifttt.key") s in
      elim file [ none ↦ s1 | some f ↦ S.close_file f (V.write_file f key s1) ]

  -- The block behind "Loading key": the key with the keys that are left, or none in its place if no
  -- key is typed; none if the keys do not suffice. `read` stores its bytes in the array of zeros.
  unfoldable pub load_key : List ℕ → S.State → Option (Option (List ℕ) × List ℕ × S.State)
  unfolding save_key
  load_key keys s =
      let (file, s1) = S.open_file (codes "ifttt.key") s in
      elim file [
        | some f ↦
            let (bytes, s2) = S.read_file f key_size s1 in
            some (some (blit 0 bytes (replicate key_size 0)), keys, S.close_file f s2)
        | none ↦ elim (input del enter (key_size - 1) keys (empty_line key_size)) [
          | none ↦ none
          | some (str, rest) ↦
              some (
                if get_or str 0 0 == 0 then (none, rest, s1) else (some str, rest, save_key str s1))
        ]
      ]

  -- The rest behind the start of the network; `behind` is the memory behind `key`.
  unfoldable pub send_text : (ℕ → ℕ) → (key behind keys : List ℕ) → S.State → Option Exit
  unfolding tweet
  send_text to_ascii key behind keys s =
      elim (input del enter (text_size - 1) keys (empty_line text_size)) [
        | none ↦ none
        | some (str, rest) ↦ some (
            if get_or str 0 0 == 0
            then no_text
            else tweet to_ascii (V.url_download s) (c_string (key ++ behind)) (c_string str))
      ]

  unfoldable pub main : (ℕ → ℕ) → ℕ → (behind keys : List ℕ) → S.State → Option Exit
  unfolding load_key send_text
  main to_ascii eth_init behind keys s = elim (load_key keys s) [
    | none ↦ none
    | some (key, rest, s1) ↦ elim key [
      | none ↦ some no_key
      | some k ↦
          let (up, s2) = start S eth_init s1 in
          elim up [ false ↦ some no_network | true ↦ send_text to_ascii k behind rest s2 ]
    ]
  ]
