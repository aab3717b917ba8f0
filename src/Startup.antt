-- ===== src/Startup.antt =====
-- What the programs apps/date65.c, apps/hfs65.c, apps/tweet65.c and apps/wget65.c do alike at their
-- begin, and the files of the C library that they do it with.
pub mod Slot
use ip.Common.{ℕ, Bool, false, List, [], ◌∷◌, bit_and, not, if◌then◌else◌}
use ip.Common.{Option, none, some}
use ip.Common.Chars.{codes}

-- `open` (with O_RDONLY), `read` and `close` of the C library; `ip65_init` and `dhcp_init` of ip65,
-- true if they fail.
pub record System : Type 1 where
  pub State : Type 0
  pub open_file : List ℕ → State → Option ℕ × State
  pub read_file : (file count : ℕ) → State → List ℕ × State
  pub close_file : ℕ → State → State
  pub ip65_init : ℕ → State → Bool × State
  pub dhcp_init : State → Bool × State

module _ (S : System) where
  -- The slot of the Ethernet card, from the file of that name if there is one.
  unfoldable pub read_slot : List ℕ → ℕ → S.State → ℕ × S.State
  read_slot name eth_init s =
      let (file, s1) = S.open_file name s in
      elim file [
        | none ↦ (eth_init, s1)
        | some f ↦
            let (bytes, s2) = S.read_file f 1 s1 in
            let s3 = S.close_file f s2 in
            elim bytes [ [] ↦ (bit_and eth_init 7, s3) | b ∷ bs ↦ (bit_and b 7, s3) ]
      ]

  unfoldable pub set_slot : ℕ → S.State → ℕ × S.State
  unfolding read_slot
  set_slot eth_init s = read_slot (codes "ethernet.slot") eth_init s

  -- True if the network is up.
  unfoldable pub start : ℕ → S.State → Bool × S.State
  unfolding set_slot
  start eth_init s =
      let (slot, s1) = set_slot eth_init s in
      let (failed, s2) = S.ip65_init slot s1 in
      let (unassigned, s3) = S.dhcp_init s2 in if failed then (false, s2) else (not unassigned, s3)
