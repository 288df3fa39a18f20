-- ===== src/Base/Dict.antt =====
-- Go maps with string keys, as association lists in which an insertion replaces.
use mathlib.Core.Path.{◌≡◌, refl}
use mathlib.Core.Option.{Option, none, some}
use mathlib.Core.List.{List, [], ◌∷◌}
use native.Mathlib.Omega.{arith}
use bouncer.Base.Tests.{if◌then◌else◌}
use bouncer.Base.Text.{Str, str_eq, str_eq_iff}

abbrev pub Dict {ℓ} : Type ℓ → Type ℓ
Dict V = List (Str × V)

module _ {ℓ} {V : Type ℓ} where
  -- v, ok := m[k]
  unfoldable pub lookup : Str → Dict V → Option V
  lookup key [] = none
  lookup key ((name, v) ∷ entries) = if str_eq name key then some v else lookup key entries

  -- m[k] = v
  unfoldable pub insert : Str → V → Dict V → Dict V
  insert key new [] = (key, new) ∷ []
  insert key new ((name, old) ∷ entries) =
      if str_eq name key then (key, new) ∷ entries else (name, old) ∷ insert key new entries

  pub lookup-insert :
      (key other : Str) (new : V) (entries : Dict V)
      → lookup other (insert key new entries)
        ≡ (if str_eq key other then some new else lookup other entries)
  unfolding lookup insert
  lookup-insert key other new [] = refl
  lookup-insert key other new ((name, old) ∷ entries) =
      let rest = lookup-insert key other new entries in
      ground (arith, rest, str_eq_iff key other, str_eq_iff name key, str_eq_iff name other)
