-- ===== src/Date/Chain.antt =====
-- apps/date65.c: which program is started.
use ip.Common.{ℕ, ◌≡◌, refl, Bool, true, false, List, [], ◌∷◌, if◌then◌else◌, Bool-cases, inl, inr}
use ip.Common.Chars.{codes}
use ip.Startup.{System}
use ip.Date.{Clock, chain, same, contains}

-- The names behind the first one that is the program's own.
unfoldable pub behind_own : List (List ℕ) → List (List ℕ)
behind_own [] = []
behind_own (name ∷ names) =
    let rest = behind_own names in if same name (codes "DATE65.SYSTEM") then names else rest

unfoldable pub systems : List (List ℕ) → List (List ℕ)
systems [] = []
systems (name ∷ names) =
    let rest = systems names in if contains (codes ".SYSTEM") name then name ∷ rest else rest

module _ (S : System) (C : Clock S) where
  -- Loads the programs in turn, until one of them is started.
  unfoldable pub exec_first : List (List ℕ) → S.State → Bool × S.State
  exec_first [] s = (false, s)
  exec_first (name ∷ names) s =
      let (started, s1) = C.exec name s in
      let rest = exec_first names s1 in if started then (true, s1) else rest

  chain-systems :
      (names : List (List ℕ)) (s : S.State) → chain S C true names s ≡ exec_first (systems names) s
  unfolding chain systems exec_first
  chain-systems [] s = refl
  chain-systems (name ∷ names) s = elim (Bool-cases (contains (codes ".SYSTEM") name)) [
    | inl e ↦ rw (e, chain-systems names (C.exec name s).1)
    | inr e ↦ rw (e, chain-systems names s)
  ]

  -- The loop over the directory comes to the same as trying in turn, until one of them is started,
  -- the programs named with .SYSTEM that stand behind the first entry DATE65.SYSTEM.
  pub chain-behind_own :
      (names : List (List ℕ)) (s : S.State)
      → chain S C false names s ≡ exec_first (systems (behind_own names)) s
  unfolding chain behind_own exec_first systems
  chain-behind_own [] s = refl
  chain-behind_own (name ∷ names) s = elim (Bool-cases (same name (codes "DATE65.SYSTEM"))) [
    | inl e ↦ rw (e, chain-systems names s)
    | inr e ↦ rw (e, chain-behind_own names s)
  ]
