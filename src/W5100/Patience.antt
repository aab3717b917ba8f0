-- ===== src/W5100/Patience.antt =====
-- apps/w5100.c: requests that find nothing while the connection is up.
use ip.Common.{ℕ, ◌<◌, ◌≡◌, refl, Bool, true}
use ip.Common.{Option, none, some, ◌∙◌}
use ip.W5100.{Machine, Driver, w5100_data_request, w5100_connected}
use ip.W5100.Waiting.{SettlesWithin, Returns, request-Returns}
use ip.W5100.Interface.{granted}
use ip.W5100.Falling.{Falls}

-- How often a request can still find nothing while the status is SOCK_ESTABLISHED.
pub record IsPatient (M : Machine) (d : Driver) (fuel : ℕ) (Waits : M.State → Type 0)
    (do_send : Bool) : Type 0 where
  pub patience : M.State → ℕ
  pub falls : Falls M patience
  pub patience-idle :
      (s s1 : M.State)
      → Waits s
      → w5100_data_request M d fuel do_send s ≡ some (0, s1)
      → (w5100_connected M d s1).0 ≡ true
      → patience (w5100_connected M d s1).1 < patience s

module _ (M : Machine) (d : Driver) (fuel : ℕ) (Waits : M.State → Type 0) (do_send : Bool)
    (P : IsPatient M d fuel Waits do_send) where
  pub idle-lt :
      (limit : ℕ) (A : SettlesWithin M d limit) (s : M.State)
      → limit < fuel
      → Waits s
      → (granted s (w5100_data_request M d fuel do_send s)).0 ≡ 0
      → (w5100_connected M d (granted s (w5100_data_request M d fuel do_send s)).1).0 ≡ true
      → P.patience (w5100_connected M d (granted s (w5100_data_request M d fuel do_send s)).1).1
        < P.patience s
  idle-lt limit A s enough w =
      go (w5100_data_request M d fuel do_send s) refl
        (request-Returns M d limit A fuel do_send s enough)
    where
      go :
          (r : Option (ℕ × M.State))
          → w5100_data_request M d fuel do_send s ≡ r
          → Returns M d limit A r
          → (granted s r).0 ≡ 0
          → (w5100_connected M d (granted s r).1).0 ≡ true
          → P.patience (w5100_connected M d (granted s r).1).1 < P.patience s
      go none e h z up = absurd h
      go (some (n, s')) e h z up = P.patience-idle s s' w (e ∙ (λ i. some (z i, s'))) up
