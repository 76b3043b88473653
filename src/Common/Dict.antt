-- ===== src/Common/Dict.antt =====
-- Python's dict keyed by text, in insertion order, and its set, as lists.
use Prim.Native.String.{String}
use mathlib.Core.Path.{◌≡◌, refl}
use mathlib.Core.Logic.{◌↔◌}
use mathlib.Core.Bool.{Bool, true, false, ◌||◌}
use mathlib.Core.Option.{Option, none, some}
use mathlib.Core.List.{List, [], ◌∷◌}
use native.Mathlib.Omega.{arith}
use text.Mathlib.TextEquality.{eq_iff}
use nsi_aggregator_proxy.Common.Lists.{Member}
use nsi_aggregator_proxy.Common.Tests.{if◌then◌else◌}
use nsi_aggregator_proxy.Common.Text.{◌==◌}

abbrev pub Dict {ℓ} : Type ℓ → Type ℓ
Dict V = List (String × V)

module _ {ℓ} {V : Type ℓ} where
  -- `d.get(k)`
  unfoldable pub lookup : String → Dict V → Option V
  lookup k [] = none
  lookup k ((j, v) ∷ d) = if j == k then some v else lookup k d

  -- `d[k] = v`: a key keeps its place.
  unfoldable pub insert : String → V → Dict V → Dict V
  insert k v [] = (k, v) ∷ []
  insert k v ((j, w) ∷ d) = if j == k then (j, v) ∷ d else (j, w) ∷ insert k v d

  -- `d.pop(k, None)`, what is left. A dict has a key at most once.
  unfoldable pub erase : String → Dict V → Dict V
  erase k [] = []
  erase k ((j, w) ∷ d) = let rest = erase k d in if j == k then rest else (j, w) ∷ rest

  -- `list(d.values())`
  unfoldable pub values : Dict V → List V
  values [] = []
  values ((j, w) ∷ d) = w ∷ values d

  pub lookup-insert :
      (k j : String) (v : V) (d : Dict V)
      → lookup j (insert k v d) ≡ (if k == j then some v else lookup j d)
  unfolding lookup insert
  lookup-insert k j v [] = refl
  lookup-insert k j v ((i, w) ∷ d) =
      ground (arith, eq_iff k j, eq_iff i k, eq_iff i j, lookup-insert k j v d)

  pub lookup-erase :
      (k j : String) (d : Dict V) → lookup j (erase k d) ≡ (if k == j then none else lookup j d)
  unfolding lookup erase
  lookup-erase k j [] = ground arith
  lookup-erase k j ((i, w) ∷ d) =
      ground (arith, eq_iff k j, eq_iff i k, eq_iff i j, lookup-erase k j d)

-- A set of texts: `s.add(k)`, `s.discard(k)`, `k in s`.
unfoldable pub contains : String → List String → Bool
contains k [] = false
contains k (j ∷ s) = j == k || contains k s

unfoldable pub add : String → List String → List String
add k s = if contains k s then s else k ∷ s

unfoldable pub discard : String → List String → List String
discard k [] = []
discard k (j ∷ s) = let rest = discard k s in if j == k then rest else j ∷ rest

pub contains-add :
    (k j : String) (s : List String) → contains j (add k s) ≡ (k == j || contains j s)
unfolding add contains
contains-add k j s = ground (arith, eq_iff k j)

pub contains-discard :
    (k j : String) (s : List String)
    → contains j (discard k s) ≡ (if k == j then false else contains j s)
unfolding discard contains
contains-discard k j [] = ground arith
contains-discard k j (i ∷ s) =
    ground (arith, eq_iff k j, eq_iff i k, eq_iff i j, contains-discard k j s)

pub contains_iff : (k : String) (ks : List String) → (contains k ks ≡ true) ↔ Member k ks
unfolding contains
contains_iff k [] = (λ h. cc h, λ m. elim m [ ])
contains_iff k (j ∷ ks) = ground (arith, eq_iff j k, contains_iff k ks)
