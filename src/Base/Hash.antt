-- ===== src/Base/Hash.antt =====
-- `HashSet` and `HashMap` over text keys, as lists without an order that the program can see.
use mathlib.Core.Bool.{Bool, false, not, ◌&&◌, ◌||◌}
use mathlib.Core.List.{List, [], ◌∷◌}
use mathlib.Core.Logic.{inl, inr}
use mathlib.Core.Option.{Option, none, some}
use mathlib.Core.Path.{◌≡◌, refl}
use native.Mathlib.Omega.{arith}
use rstorrent.Base.Lists.{filter}
use rstorrent.Base.Tests.{if◌then◌else◌, Bool-cases}
use rstorrent.Base.Strings.{Text, text_beq, text_beq_iff}

abbrev pub HashSet : Type 0
HashSet = List Text

abbrev pub contains : HashSet → Text → Bool
contains [] h = false
contains (x ∷ s) h = text_beq x h || contains s h

-- `insert`; a member stays where it is.
unfoldable pub insert : HashSet → Text → HashSet
insert s h = if contains s h then s else h ∷ s

-- `retain(p)` and `remove(h)`.
unfoldable pub retain : (Text → Bool) → HashSet → HashSet
retain p s = filter p s

unfoldable pub remove : HashSet → Text → HashSet
unfolding retain
remove s h = retain (λ x. not (text_beq x h)) s

-- `extend`, and `collect` from an empty set.
unfoldable pub extend : HashSet → List Text → HashSet
unfolding insert
extend s [] = s
extend s (h ∷ hs) = extend (insert s h) hs

pub contains-insert :
    (s : HashSet) (h k : Text) → contains (insert s h) k ≡ (text_beq h k || contains s k)
unfolding insert
contains-insert s h k = elim (Bool-cases (contains s h)) [
  | inl e ↦ ground (arith, e, text_beq_iff h k)
  | inr e ↦ ground (arith, e)
]

pub contains-retain :
    (p : Text → Bool) (s : HashSet) (k : Text) → contains (retain p s) k ≡ (contains s k && p k)
unfolding retain
contains-retain p [] k = refl
contains-retain p (x ∷ s) k = ground (arith, contains-retain p s k, text_beq_iff x k)

pub contains-remove :
    (s : HashSet) (h k : Text) → contains (remove s h) k ≡ (contains s k && not (text_beq k h))
unfolding remove
contains-remove s h k = contains-retain (λ x. not (text_beq x h)) s k

pub contains-extend :
    (s : HashSet) (hs : List Text) (k : Text)
    → contains (extend s hs) k ≡ (contains s k || contains hs k)
unfolding extend
contains-extend s [] k = ground arith
contains-extend s (h ∷ hs) k =
    ground (arith, contains-extend (insert s h) hs k, contains-insert s h k)

module _ {ℓ} {V : Type ℓ} where
  abbrev pub lookup : List (Text × V) → Text → Option V
  lookup [] h = none
  lookup ((k, v) ∷ m) h = if text_beq k h then some v else lookup m h

  unfoldable pub put : List (Text × V) → Text → V → List (Text × V)
  put [] h v = (h, v) ∷ []
  put ((k, w) ∷ m) h v = if text_beq k h then (k, v) ∷ m else (k, w) ∷ put m h v

  -- `remove(key)` and `retain(|k, _| p(k))`.
  unfoldable pub retain_keys : (Text → Bool) → List (Text × V) → List (Text × V)
  retain_keys p [] = []
  retain_keys p ((k, v) ∷ m) = if p k then (k, v) ∷ retain_keys p m else retain_keys p m

  unfoldable pub remove_key : List (Text × V) → Text → List (Text × V)
  unfolding retain_keys
  remove_key m h = retain_keys (λ k. not (text_beq k h)) m

  pub lookup-put :
      (m : List (Text × V)) (h k : Text) (v : V)
      → lookup (put m h v) k ≡ (if text_beq h k then some v else lookup m k)
  unfolding put
  lookup-put [] h k v = refl
  lookup-put ((j, w) ∷ m) h k v =
      ground (arith, lookup-put m h k v, text_beq_iff j h, text_beq_iff j k, text_beq_iff h k)

  pub lookup-retain_keys :
      (p : Text → Bool) (m : List (Text × V)) (k : Text)
      → lookup (retain_keys p m) k ≡ (if p k then lookup m k else none)
  unfolding retain_keys
  lookup-retain_keys p [] k = ground arith
  lookup-retain_keys p ((j, w) ∷ m) k = ground (arith, lookup-retain_keys p m k, text_beq_iff j k)

  pub lookup-remove_key :
      (m : List (Text × V)) (h k : Text)
      → lookup (remove_key m h) k ≡ (if not (text_beq k h) then lookup m k else none)
  unfolding remove_key
  lookup-remove_key m h k = lookup-retain_keys (λ x. not (text_beq x h)) m k
