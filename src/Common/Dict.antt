-- ===== src/Common/Dict.antt =====
-- Python's `dict` with text keys, in insertion order: a write to a present key keeps its place.
use Prim.Native.String.{String}
use mathlib.Core.Path.{◌≡◌, refl}
use mathlib.Core.Bool.{Bool, true, false}
use mathlib.Core.Logic.{inl, inr}
use mathlib.Core.Option.{Option, none, some}
use mathlib.Core.List.{List, [], ◌∷◌}
use native.Mathlib.Omega.{arith}
use text.Mathlib.Text.{◌==◌ as str_eq}
use text.Mathlib.TextEquality.{eq_iff}
use py_tui_kairo.Common.Tests.{if◌then◌else◌, Bool-cases}

abbrev pub Dict {ℓ} : Type ℓ → Type ℓ
Dict V = List (String × V)

module _ {ℓ} {V : Type ℓ} where
  -- d.get(k)
  unfoldable pub get : String → Dict V → Option V
  get k [] = none
  get k ((j, v) ∷ d) = if str_eq j k then some v else get k d

  -- k in d
  abbrev pub contains : String → Dict V → Bool
  contains k d = elim (get k d) [ none ↦ false | some _ ↦ true ]

  -- d[k] = v
  unfoldable pub put : String → V → Dict V → Dict V
  put k v [] = (k, v) ∷ []
  put k v ((j, w) ∷ d) = if str_eq j k then (j, v) ∷ d else (j, w) ∷ put k v d

  -- d.pop(k, None), del d[k]
  unfoldable pub remove : String → Dict V → Dict V
  remove k [] = []
  remove k ((j, v) ∷ d) = let rest = remove k d in if str_eq j k then rest else (j, v) ∷ rest

  pub get-put :
      (k j : String) (v : V) (d : Dict V)
      → get j (put k v d) ≡ (if str_eq k j then some v else get j d)
  unfolding get put
  get-put k j v [] = refl
  get-put k j v ((i, w) ∷ d) = ground (arith, eq_iff k j, eq_iff i k, eq_iff i j, get-put k j v d)

  pub get-remove :
      (k j : String) (d : Dict V) → get j (remove k d) ≡ (if str_eq k j then none else get j d)
  unfolding get remove
  get-remove k j [] = ground arith
  get-remove k j ((i, w) ∷ d) = ground (arith, eq_iff k j, eq_iff i k, eq_iff i j, get-remove k j d)

module _ {ℓ} {V : Type ℓ} where
  -- Each key stands once.
  abbrev pub UniqueKeys : Dict V → Type ℓ
  UniqueKeys [] = Unit
  UniqueKeys ((k, v) ∷ d) = (get k d ≡ none) × UniqueKeys d

  pub get-none-ne :
      (k j : String) (v : V) (d : Dict V) → get k ((j, v) ∷ d) ≡ none → str_eq j k ≡ false
  unfolding get
  get-none-ne k j v d h = ground (arith, eq_iff j k)

  pub UniqueKeys-put : (k : String) (v : V) (d : Dict V) → UniqueKeys d → UniqueKeys (put k v d)
  unfolding put get
  UniqueKeys-put k v [] u = (refl, tt)
  UniqueKeys-put k v ((j, w) ∷ d) u = elim (Bool-cases (str_eq j k)) [
    | inl e ↦ rw e u
    | inr e ↦
        rw e ((ground (arith, get-put k j v d, eq_iff k j, eq_iff j k)), UniqueKeys-put k v d u.1)
  ]

  pub UniqueKeys-remove : (k : String) (d : Dict V) → UniqueKeys d → UniqueKeys (remove k d)
  unfolding remove get
  UniqueKeys-remove k [] u = tt
  UniqueKeys-remove k ((j, w) ∷ d) u = elim (Bool-cases (str_eq j k)) [
    | inl e ↦ rw e (UniqueKeys-remove k d u.1)
    | inr e ↦
        rw e ((ground (arith, get-remove k j d, eq_iff k j, eq_iff j k)), UniqueKeys-remove k d u.1)
  ]

  -- Taking away a key that is not there changes nothing.
  pub remove_fresh : (k : String) (d : Dict V) → get k d ≡ none → remove k d ≡ d
  unfolding remove get
  remove_fresh k [] h = refl
  remove_fresh k ((j, w) ∷ d) h = ground (arith, eq_iff j k, remove_fresh k d)

pub ruleset dict_laws = (get-put, get-remove)
