-- ===== src/Wget/Completion/Prefix.antt =====
-- apps/wget65.c: what is typed and what is offered.
use ip.Common.{ℕ, ◌≡◌, refl, sym, ◌∙◌, ◌↔◌, Bool, true, false}
use ip.Common.{◌&&◌, Option, none, some, List, [], ◌∷◌, ◌++◌, map, arith, ltb, ◌==◌, Option-cases}
use ip.Common.{length, Bool-cases, inl, inr, All, append_assoc}
use ip.Common.Chars.{codes, to_upper}
use ip.Wget.Completion.{match, offer, Disks, drive_text, has_disk, drive_names}
use ip.Wget.Completion.{
  volume_names, entry_names, last_slash, slash_at, path_names, slash_completion,
}
use ip.Wget.Completion.{file_completion}

and_right : (a b : Bool) → (a && b) ≡ true → b ≡ true
and_right a b h = ground arith

match→extends :
    (filter string : List ℕ)
    → match filter string ≡ true
    → (rest : List ℕ) × (map to_upper string ≡ map to_upper filter ++ rest)
unfolding match
match→extends [] string h = (map to_upper string, refl)
match→extends (f ∷ filter) [] h = cc
match→extends (f ∷ filter) (c ∷ string) h =
    let r =
      match→extends filter string (and_right (to_upper f == to_upper c) (match filter string) h) in
    (r.0, ground (arith, r.1))

extends→match :
    (filter string rest : List ℕ)
    → map to_upper string ≡ map to_upper filter ++ rest
    → match filter string ≡ true
unfolding match
extends→match [] string rest h = refl
extends→match (f ∷ filter) [] rest h = cc
extends→match (f ∷ filter) (c ∷ string) rest h = ground (arith, extends→match filter string rest)

-- `match` decides whether the text begins with the filter once both are in upper case.
pub match_iff :
    (filter string : List ℕ)
    → (match filter string ≡ true)
      ↔ ((rest : List ℕ) × (map to_upper string ≡ map to_upper filter ++ rest))
match_iff filter string =
    (match→extends filter string, λ (rest, e). extends→match filter string rest e)

-- All completions of a line extend it.
abbrev pub Extend : List ℕ → List (List ℕ) → Type 0
Extend line = All (λ c. match line c ≡ true)

match_refl : (s : List ℕ) → match s s ≡ true
unfolding match
match_refl [] = refl
match_refl (c ∷ s) = ground (arith, match_refl s)

match-append : (path f s : List ℕ) → match (path ++ f) (path ++ s) ≡ match f s
unfolding match
match-append [] f s = refl
match-append (c ∷ path) f s = ground (arith, match-append path f s)

offer-Extend :
    (line : List ℕ) (test : Bool) (text : List ℕ) (rest : List (List ℕ))
    → (test ≡ true → match line text ≡ true)
    → Extend line rest
    → Extend line (offer test text rest)
offer-Extend line true text rest h r = (h refl, r)
offer-Extend line false text rest h r = r

slash_at_lem :
    (c : ℕ) (s a b : List ℕ) (r : Option (List ℕ × List ℕ))
    → ((a' b' : List ℕ) → r ≡ some (a', b') → s ≡ a' ++ b'/' ∷ b')
    → slash_at c s r ≡ some (a, b)
    → (c ∷ s) ≡ a ++ b'/' ∷ b
slash_at_lem c s a b none found h = ground arith
slash_at_lem c s a b (some (a', b')) found h = ground (arith, found a' b' refl)

-- `strrchr` splits the text at a slash.
last_slash_lem : (s a b : List ℕ) → last_slash s ≡ some (a, b) → s ≡ a ++ b'/' ∷ b
unfolding last_slash
last_slash_lem [] a b h = cc
last_slash_lem (c ∷ s) a b h = slash_at_lem c s a b (last_slash s) (last_slash_lem s) h

module _ (line : List ℕ) (disks : Disks) where
  drive_names-Extend : (devices : List ℕ) → Extend line (drive_names line disks devices)
  unfolding drive_names
  drive_names-Extend [] = tt
  drive_names-Extend (device ∷ devices) =
      offer-Extend line _ (drive_text device) _ (and_right (has_disk (disks.sectcount device)) _)
        (drive_names-Extend devices)

  volume_names-Extend : (devices : List ℕ) → Extend line (volume_names line disks devices)
  unfolding volume_names
  volume_names-Extend [] = tt
  volume_names-Extend (device ∷ devices) = elim (Option-cases (disks.devicedir device)) [
    | inl e ↦ rw (e, volume_names) (volume_names-Extend devices)
    | inr (dir, e) ↦
        rw (e, volume_names)
          (offer-Extend line (match line dir) dir _ (λ h. h) (volume_names-Extend devices))
  ]

module _ (path partial : List ℕ) where
  extend : (s : List ℕ) → match partial s ≡ true → match (path ++ partial) (path ++ s) ≡ true
  extend s h = match-append path partial s ∙ h

  entry_names-Extend :
      (ents : List (List ℕ)) → Extend (path ++ partial) (entry_names path partial ents)
  unfolding entry_names
  entry_names-Extend [] = tt
  entry_names-Extend (ent ∷ ents) =
      offer-Extend (path ++ partial) (match partial ent) (path ++ ent) _ (extend ent)
        (entry_names-Extend ents)

  path_names-Extend :
      (name : List ℕ) (ents : Option (List (List ℕ)))
      → Extend (path ++ partial) (path_names path partial name ents)
  path_names-Extend name none =
      offer-Extend (path ++ partial) _ (path ++ name) []
        (λ h. extend name (and_right (ltb 0 (length name)) _ h)) tt
  path_names-Extend name (some ents) =
      offer-Extend (path ++ partial) _ (path ++ name) _
        (λ h. extend name (and_right (ltb 0 (length name)) _ h)) (entry_names-Extend ents)

slash_completion-Extend :
    (disks : Disks) (name line : List ℕ) (r : Option (List ℕ × List ℕ))
    → ((a b : List ℕ) → r ≡ some (a, b) → line ≡ a ++ b'/' ∷ b)
    → Extend line (slash_completion disks name line r)
unfolding slash_completion
slash_completion-Extend disks name line none found =
    path_names-Extend [] line name (disks.entries (codes "."))
slash_completion-Extend disks name line (some ([], partial)) found =
    volume_names-Extend line disks disks.devices
slash_completion-Extend disks name line (some (c ∷ dir, partial)) found =
    let e : line ≡ ((c ∷ dir) ++ b'/' ∷ []) ++ partial =
      found (c ∷ dir) partial refl ∙ sym (append_assoc (c ∷ dir) (b'/' ∷ []) partial) in
    rw e (path_names-Extend ((c ∷ dir) ++ b'/' ∷ []) partial name (disks.entries (c ∷ dir)))

-- Whatever the disks hold, every completion of a file argument has what was typed as a prefix, in
-- whatever case: completing never drops or changes typed characters.
pub file_completion-Extend :
    (disks : Disks) (name line : List ℕ) → Extend line (file_completion disks name line)
unfolding file_completion
file_completion-Extend disks name [] = slash_completion-Extend disks name [] none (λ a b h. cc)
file_completion-Extend disks name (c ∷ line) = elim (Bool-cases (c == b'!')) [
  | inl e ↦ rw e (drive_names-Extend (c ∷ line) disks disks.devices)
  | inr e ↦ rw e (
      slash_completion-Extend disks name (c ∷ line) (last_slash (c ∷ line))
        (last_slash_lem (c ∷ line)))
]
