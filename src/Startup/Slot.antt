-- ===== src/Startup/Slot.antt =====
-- The slot of the Ethernet card.
use ip.Common.{ℕ, ◌<◌, List, [], ◌∷◌, Option-cases, inl, inr, arith, bit_and}
use ip.Common.Bits.{bit_and-ones}
use ip.Common.Chars.{codes}
use ip.Startup.{System, set_slot, read_slot}

slot_below : (a : ℕ) → bit_and a 7 < 8
slot_below a = omega (arith, bit_and-ones 3 a)

read_below :
    {T : Type 0} (eth_init : ℕ) (t : T) (bytes : List ℕ)
    → (elim bytes as (λ x. ℕ × T) [ [] ↦ (bit_and eth_init 7, t) | b ∷ bs ↦ (bit_and b 7, t) ]).0
      < 8
read_below eth_init t [] = slot_below eth_init
read_below eth_init t (b ∷ bs) = slot_below b

-- Whatever the file ethernet.slot holds, the slot is below 8, if the default is.
pub set_slot-lt :
    (S : System) (eth_init : ℕ) (s : S.State) → eth_init < 8 → (set_slot S eth_init s).0 < 8
unfolding set_slot
set_slot-lt S eth_init s h = elim (Option-cases (S.open_file (codes "ethernet.slot") s).0) [
  | inl e ↦ rw (e, read_slot) h
  | inr (f, e) ↦
      rw (e, read_slot)
        (read_below eth_init _ (S.read_file f 1 (S.open_file (codes "ethernet.slot") s).1).0)
]
