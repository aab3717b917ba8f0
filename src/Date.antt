-- ===== src/Date.antt =====
-- apps/date65.c, built for Apple II with __APPLE2_SYS__.
pub mod Timezone
pub mod Chain
mod Tests
use ip.Common.{
  ℕ, ◌+◌, ◌-◌, ◌*◌, ◌%◌, ◌^◌, Bool, true, false, ◌&&◌, List, [], ◌∷◌, ◌==◌, bit_and, if◌then◌else◌,
}
use ip.Common.{Option, none, some}
use ip.Common.Chars.{codes}
use ip.Common.Int.{ℤ, pos, negsuc}
use ip.Startup.{System, start}

-- `-x` on a number that is not negative.
abbrev pub negated : ℕ → ℤ
negated n = if n == 0 then pos 0 else negsuc (n - 1)

-- The hours of the three bytes of date65.tz; `~'0'` is 0xFFCF, of which a byte meets the low half.
unfoldable pub hours : (sign tens ones : ℕ) → ℤ
hours sign tens ones =
    let tz_hours = bit_and ones 0xCF + 10 * bit_and tens 0xCF in
    if bit_and sign 0x7F == b'-' then negated tz_hours else pos tz_hours

-- The hours, from the bytes that were read.
unfoldable pub timezone : List ℕ → ℤ
unfolding hours
timezone (sign ∷ tens ∷ ones ∷ []) = hours sign tens ones
timezone _ = pos 0

-- `!strcmp(…)`
unfoldable pub same : List ℕ → List ℕ → Bool
same [] [] = true
same (x ∷ xs) (y ∷ ys) = (x == y) && same xs ys
same _ _ = false

unfoldable pub has_prefix : List ℕ → List ℕ → Bool
has_prefix [] s = true
has_prefix (x ∷ xs) [] = false
has_prefix (x ∷ xs) (y ∷ ys) = (x == y) && has_prefix xs ys

-- `strstr(s, word)`, as a condition.
unfoldable pub contains : List ℕ → List ℕ → Bool
unfolding has_prefix
contains word [] = has_prefix word []
contains word (c ∷ s) = let rest = contains word s in if has_prefix word (c ∷ s) then true else rest

-- `tz_hours * 3600L`
pub seconds : ℤ → ℤ
seconds (pos n) = pos (n * 3600)
seconds (negsuc n) = negsuc ((n + 1) * 3600 - 1)

-- The rest of the libraries: `_tz.timezone`, `dns_resolve`, `sntp_get_time`, `clock_settime` (true if
-- it fails), the names in the directory, if it can be opened, and `exec`, which comes back with false
-- if the program cannot be loaded.
pub record Clock (S : System) : Type 1 where
  pub set_timezone : ℤ → S.State → S.State
  pub dns_resolve : List ℕ → S.State → ℕ × S.State
  pub sntp_get_time : ℕ → S.State → ℕ × S.State
  pub clock_settime : ℕ → S.State → Bool × S.State
  pub names : S.State → Option (List (List ℕ)) × S.State
  pub exec : List ℕ → S.State → Bool × S.State

-- How the program ends: another program was started, or it exits, with which step failed.
pub data Exit : Type 0 where
  chained no_network no_server no_time not_set no_system : Exit

module _ (S : System) where
  -- The block behind "Setting timezone".
  pub read_timezone : S.State → ℤ × S.State
  unfolding timezone
  read_timezone s =
      let (file, s1) = S.open_file (codes "date65.tz") s in
      elim file [
        | none ↦ (pos 0, s1)
        | some f ↦ let (bytes, s2) = S.read_file f 3 s1 in (timezone bytes, S.close_file f s2)
      ]

  module _ (C : Clock S) where
    -- `while (ent = readdir(dir))`: true if a program was started.
    unfoldable pub chain : (found_myself : Bool) → List (List ℕ) → S.State → Bool × S.State
    unfolding same contains
    chain found_myself [] s = (false, s)
    chain true (name ∷ names) s =
        let (started, s1) = C.exec name s in
        if contains (codes ".SYSTEM") name
        then (let rest = chain true names s1 in if started then (true, s1) else rest)
        else chain true names s
    chain false (name ∷ names) s = chain (same name (codes "DATE65.SYSTEM")) names s

    -- The block behind "Chaining".
    pub chain_directory : S.State → Exit × S.State
    unfolding chain
    chain_directory s =
        let (names, s1) = C.names s in
        elim names [
          | none ↦ (no_system, s1)
          | some ns ↦
              let (started, s2) = chain false ns s1 in (if started then chained else no_system, s2)
        ]

    -- The time in seconds since 1970.
    pub set_time : ℕ → S.State → Exit × S.State
    unfolding chain_directory
    set_time now s =
        let (failed, s1) = C.clock_settime ((2 ^ 32 + now - 2208988800) % 2 ^ 32) s in
        if failed then (not_set, s1) else chain_directory s1

    pub query_time : S.State → Exit × S.State
    unfolding set_time
    query_time s =
        let (server, s1) = C.dns_resolve (codes "pool.ntp.org") s in
        let (now, s2) = C.sntp_get_time server s1 in
        if server == 0
        then (no_server, s1)
        else (if now == 0 then (no_time, s2) else set_time now s2)

    pub main : ℕ → S.State → Exit × S.State
    unfolding read_timezone query_time
    main eth_init s =
        let (tz_hours, s1) = read_timezone s in
        let (up, s2) = start S eth_init (C.set_timezone (seconds tz_hours) s1) in
        if up then query_time s2 else (no_network, s2)
