-- ===== src/XmlRpc/Within.antt =====
-- What holds of a run of the decoder that its fuel was enough for.
use rstorrent.Base.{
  ℕ, suc, ◌≤◌, ◌<◌, ◌≢◌, Text, codes, text_beq, length, Bool, true, false, List, [], ◌∷◌, arith,
  if◌then◌else◌,
}
use rstorrent.XmlRpc.Decode.{
  Event, start, finish, empty, text, plain, broken, other, Outcome, ok, failed, out_of_fuel, bind,
  Tag, int_tag, boolean_tag, string_tag, double_tag, base64_tag, array_tag, struct_tag, unknown_tag,
  at_data, at_end, RtorrentError, DataStart, find_data, skip_to_end,
}

-- A run that its fuel was enough for; where it gives something, that is a `P`.
pub data Within {A : Type 0} (P : A → Type 0) : Outcome A → Type 0 where
  refused : {e : RtorrentError} → Within P (failed e)
  answered : {a : A} → P a → Within P (ok a)

module _ {A : Type 0} {P : A → Type 0} where
  pub Within-fueled : {r : Outcome A} → Within P r → r ≢ out_of_fuel
  Within-fueled (answered h) = cc
  Within-fueled refused = cc

  pub Within-mono :
      {Q : A → Type 0} {r : Outcome A} → Within P r → ((a : A) → P a → Q a) → Within Q r
  Within-mono (answered {a} h) k = answered (k a h)
  Within-mono refused k = refused

  pub Within-if :
      (b : Bool) {x y : Outcome A} → Within P x → Within P y → Within P (if b then x else y)
  Within-if true hx hy = hx
  Within-if false hx hy = hy

  pub Within-cases :
      (b : Bool) {x y : Outcome A}
      → Within P x
      → Within P y
      → Within P (elim b [ true ↦ x | false ↦ y ])
  Within-cases true hx hy = hx
  Within-cases false hx hy = hy

module _ {A B : Type 0} {P : A → Type 0} {Q : B → Type 0} {next : A → Outcome B} where
  pub Within-bind :
      {run : Outcome A}
      → Within P run
      → ((a : A) → P a → Within Q (next a))
      → Within Q (bind run next)
  Within-bind (refused {e}) after = refused
  Within-bind (answered {a} p) after = after a p

pub Within-tag :
    {A : Type 0} {P : A → Type 0} (t : Tag) (scalars : Tag → Outcome A) {x y z : Outcome A}
    → ((u : Tag) → Within P (scalars u))
    → Within P x
    → Within P y
    → Within P z
    → Within P (elim t [ array_tag ↦ x | struct_tag ↦ y | unknown_tag ↦ z | u ↦ scalars u ])
Within-tag int_tag scalars h hx hy hz = h int_tag
Within-tag boolean_tag scalars h hx hy hz = h boolean_tag
Within-tag string_tag scalars h hx hy hz = h string_tag
Within-tag double_tag scalars h hx hy hz = h double_tag
Within-tag base64_tag scalars h hx hy hz = h base64_tag
Within-tag array_tag scalars h hx hy hz = hx
Within-tag struct_tag scalars h hx hy hz = hy
Within-tag unknown_tag scalars h hx hy hz = hz

-- No more than n events are left.
abbrev pub Leaves : {A : Type 0} → ℕ → Outcome (A × List Event) → Type 0
Leaves n r = Within (λ p. length p.1 ≤ n) r

pub later : {A : Type 0} (n : ℕ) {r : Outcome (A × List Event)} → Leaves n r → Leaves (suc n) r
later n h = Within-mono h (λ p k. omega (arith, k))

abbrev pub LeavesRest : ℕ → Outcome (List Event) → Type 0
LeavesRest n r = Within (λ es. length es ≤ n) r

pub later_rest : (n : ℕ) {r : Outcome (List Event)} → LeavesRest n r → LeavesRest (suc n) r
later_rest n h = Within-mono h (λ es k. omega (arith, k))

pub skip_to_end-Leaves :
    (name : Text) (es : List Event) → LeavesRest (length es) (skip_to_end name es)
unfolding skip_to_end
skip_to_end-Leaves name [] = refused
skip_to_end-Leaves name (finish n ∷ es) =
    Within-if (text_beq n name) (answered (omega arith))
      (later_rest (length es) (skip_to_end-Leaves name es))
skip_to_end-Leaves name (broken m ∷ es) = refused
skip_to_end-Leaves name (start n ∷ es) = later_rest (length es) (skip_to_end-Leaves name es)
skip_to_end-Leaves name (empty n ∷ es) = later_rest (length es) (skip_to_end-Leaves name es)
skip_to_end-Leaves name (text raw ∷ es) = later_rest (length es) (skip_to_end-Leaves name es)
skip_to_end-Leaves name (plain raw ∷ es) = later_rest (length es) (skip_to_end-Leaves name es)
skip_to_end-Leaves name (other ∷ es) = later_rest (length es) (skip_to_end-Leaves name es)

abbrev pub data_rest : DataStart → List Event
data_rest (at_data es) = es
data_rest (at_end es) = es

pub Within-data :
    {A : Type 0} {P : A → Type 0} (n : ℕ) (d : DataStart) (f g : List Event → Outcome A)
    → length (data_rest d) < n
    → ((es : List Event) → length es < n → Within P (f es))
    → ((es : List Event) → length es < n → Within P (g es))
    → Within P (elim d [ at_data es ↦ f es | at_end es ↦ g es ])
Within-data n (at_data es) f g h hf hg = hf es h
Within-data n (at_end es) f g h hf hg = hg es h

abbrev pub LeavesData : ℕ → Outcome DataStart → Type 0
LeavesData n r = Within (λ d. length (data_rest d) < n) r

pub later_data : (n : ℕ) {r : Outcome DataStart} → LeavesData n r → LeavesData (suc n) r
later_data n h = Within-mono h (λ d k. omega (arith, k))

pub find_data-Leaves : (es : List Event) → LeavesData (length es) (find_data es)
unfolding find_data
find_data-Leaves [] = refused
find_data-Leaves (start n ∷ es) =
    Within-if (text_beq n (codes "data")) (answered (omega arith))
      (later_data (length es) (find_data-Leaves es))
find_data-Leaves (finish n ∷ es) =
    Within-if (text_beq n (codes "array")) (answered (omega arith))
      (later_data (length es) (find_data-Leaves es))
find_data-Leaves (broken m ∷ es) = refused
find_data-Leaves (empty n ∷ es) = later_data (length es) (find_data-Leaves es)
find_data-Leaves (text raw ∷ es) = later_data (length es) (find_data-Leaves es)
find_data-Leaves (plain raw ∷ es) = later_data (length es) (find_data-Leaves es)
find_data-Leaves (other ∷ es) = later_data (length es) (find_data-Leaves es)
