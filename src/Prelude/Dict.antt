-- ===== src/Prelude/Dict.antt =====
-- Python's `dict` with string keys, in insertion order: lookup, assignment and `update`.
use Prim.Native.String.{String}
use mathlib.Core.Path.{◌≡◌, refl}
use mathlib.Core.List.{List, [], ◌∷◌}
use mathlib.Core.Option.{Option, none, some}
use native.Mathlib.Omega.{arith}
use text.Mathlib.Text.{◌==◌ as str_eq}
use text.Mathlib.TextEquality.{eq_iff}
use sardoba_app_server.Prelude.Tests.{if◌then◌else◌}

abbrev pub Dict {ℓ} : Type ℓ → Type ℓ
Dict V = List (String × V)

module _ {ℓ} {V : Type ℓ} where
  -- `d.get(k)`, `d[k] = v` and `d.update(e)`.
  unfoldable pub lookup : String → Dict V → Option V
  lookup k [] = none
  lookup k ((j, v) ∷ d) = if str_eq j k then some v else lookup k d

  unfoldable pub insert : String → V → Dict V → Dict V
  insert k v [] = (k, v) ∷ []
  insert k v ((j, w) ∷ d) = if str_eq j k then (j, v) ∷ d else (j, w) ∷ insert k v d

  unfoldable pub update : Dict V → Dict V → Dict V
  unfolding insert
  update d [] = d
  update d ((k, v) ∷ e) = update (insert k v d) e

  pub lookup-insert :
      (k j : String) (v : V) (d : Dict V)
      → lookup j (insert k v d) ≡ (if str_eq k j then some v else lookup j d)
  unfolding lookup insert
  lookup-insert k j v [] = refl
  lookup-insert k j v ((i, w) ∷ d) =
      ground (arith, eq_iff k j, eq_iff i k, eq_iff i j, lookup-insert k j v d)

  -- The last binding of a key, which is the one that `update` leaves behind.
  abbrev last_or : String → Dict V → Option V → Option V
  last_or k [] o = o
  last_or k ((j, v) ∷ e) o = last_or k e (if str_eq j k then some v else o)

  pub lookup-update : (k : String) (d e : Dict V) → lookup k (update d e) ≡ last_or k e (lookup k d)
  unfolding update
  lookup-update k d [] = refl
  lookup-update k d ((j, v) ∷ e) = rw (lookup-update k (insert j v d) e, lookup-insert j k v d)
