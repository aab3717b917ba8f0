-- ===== src/Wget/Program/Directory.antt =====
-- apps/wget65.c: the working directory, which `main` sets at its begin, and `reset_cwd` at its exit.
use ip.Common.{ℕ, ◌≡◌, Bool, true, false, List, [], ◌∷◌, refl}
use ip.Common.{Option, none, some}
use ip.Startup.{System}
use ip.Socket.{Socket}
use ip.Wget.Receive.{Files}
use ip.Wget.Device.{Drives}
use ip.Wget.Arguments.{Terminal}
use ip.Wget.Program.{Network, End, main}

-- `getcwd`, `chdir`, `getcurrentdevice` and `getdevicedir` of the C library; the last may give NULL.
pub record Directories : Type 1 where
  pub State : Type 0
  pub getcwd : State → List ℕ
  pub chdir : Option (List ℕ) → State → State
  pub getcurrentdevice : State → ℕ
  pub getdevicedir : ℕ → State → Option (List ℕ)

module _ (C : Directories) where
  -- If there is no working directory, that of the current device; true if `reset_cwd` is to be called at
  -- the exit.
  unfoldable pub set_cwd : C.State → Bool × C.State
  set_cwd c = elim (C.getcwd c) [
    | [] ↦ (true, C.chdir (C.getdevicedir (C.getcurrentdevice c) c) c)
    | x ∷ xs ↦ (false, c)
  ]

  unfoldable pub reset_cwd : C.State → C.State
  reset_cwd c = C.chdir (some []) c

  -- What `atexit` has registered is called when the program ends, in whatever way.
  unfoldable pub at_exit : Bool → C.State → C.State
  unfolding reset_cwd
  at_exit false c = c
  at_exit true c = reset_cwd c

  -- `main` as a whole, between the two; nothing else in it changes the working directory.
  unfoldable pub program :
      (Y : System) (S : Socket) (N : Network S) (F : Files) (D : Drives) (U : Terminal)
      (argv : List (List ℕ))
      → ℕ
      → (eth_init : ℕ) → (before_url : ℕ) → (path before_name before buffer : List ℕ) → Y.State
      → S.State
      → F.State
      → D.State
      → U.State
      → C.State
      → Option (((End × S.State × F.State × D.State) × U.State) × C.State)
  unfolding set_cwd at_exit
  program Y S N F D U argv fuel eth_init before_url path before_name before buffer y s f t u c =
      elim (main Y S N F D U argv fuel eth_init before_url path before_name before buffer y s f t
        u) [ none ↦ none | some r ↦ some (r, at_exit (set_cwd c).0 (set_cwd c).1) ]

  -- The program leaves no working directory behind where there was none, if `chdir` with an empty path
  -- does, and leaves one that was there.
  pub at_exit-getcwd :
      (c : C.State)
      → ((x : C.State) → C.getcwd (C.chdir (some []) x) ≡ [])
      → C.getcwd (at_exit (set_cwd c).0 (set_cwd c).1) ≡ C.getcwd c
  unfolding set_cwd at_exit
  at_exit-getcwd c reset = go (C.getcwd c) refl
    where
      go :
          (cwd : List ℕ)
          → C.getcwd c ≡ cwd
          → C.getcwd (
              at_exit
                (elim cwd as (λ x. Bool × C.State) [
                  | [] ↦ (true, C.chdir (C.getdevicedir (C.getcurrentdevice c) c) c)
                  | x ∷ xs ↦ (false, c)
                ]).0
                (elim cwd as (λ x. Bool × C.State) [
                  | [] ↦ (true, C.chdir (C.getdevicedir (C.getcurrentdevice c) c) c)
                  | x ∷ xs ↦ (false, c)
                ]).1)
            ≡ cwd
      go [] e = reset _
      go (x ∷ xs) e = e
