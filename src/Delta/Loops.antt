-- ===== src/Delta/Loops.antt =====
-- The loops of `diff` and `apply`, by the members of what they build.
use rstorrent.Base.{
  Text, HashSet, contains, contains-extend, lookup, filter, unwrap_or, true, false, not, some, List,
  [], ◌∷◌, In, ◌≡◌, inl, inr, refl, sym, ap, ◌∙◌, Bool-cases, Option-cases, arith,
}
use rstorrent.Types.{Floats}
use rstorrent.Delta.Tables.{hashes, lookup-table, is_some-table}
use rstorrent.Delta.{Row, same_torrent, table, hash_set, rows_at, changed_at, carry_over}

module _ (fl : Floats) where
  pub contains-hash_set :
      (rows : List (Row fl)) (h : Text)
      → contains (hash_set fl rows) h ≡ contains (hashes fl rows) h
  unfolding hash_set
  contains-hash_set rows h = contains-extend [] (hashes fl rows) h ∙ ground arith

  pub In-rows_at :
      (m : List (Text × Row fl)) (hs : List Text) (z : Row fl)
      → In z (rows_at fl m hs)
      → (h : Text) × In h hs × (lookup m h ≡ some z)
  unfolding rows_at
  In-rows_at m [] z i = absurd i
  In-rows_at m (h ∷ hs) z i = elim (Option-cases (lookup m h)) [
    | inl e ↦ let (k, j, q) = In-rows_at m hs z (rw (rows_at, e) at i) in (k, inr j, q)
    | inr (t, e) ↦ elim (rw (rows_at, e) at i) [
      | inl same ↦ (h, inl refl, e ∙ ap some (sym same))
      | inr later ↦ let (k, j, q) = In-rows_at m hs z later in (k, inr j, q)
    ]
  ]

  pub rows_at-In :
      (m : List (Text × Row fl)) (hs : List Text) (h : Text) (z : Row fl)
      → In h hs
      → lookup m h ≡ some z
      → In z (rows_at fl m hs)
  unfolding rows_at
  rows_at-In m [] h z i e = absurd i
  rows_at-In m (k ∷ hs) h z (inl same) e = rw (rows_at, ap (lookup m) (sym same) ∙ e) (inl refl)
  rows_at-In m (k ∷ hs) h z (inr i) e = elim (Option-cases (lookup m k)) [
    | inl f ↦ rw (rows_at, f) (rows_at-In m hs h z i e)
    | inr (t, f) ↦ rw (rows_at, f) (inr (rows_at-In m hs h z i e))
  ]

  pub hashes-rows_at :
      (rows : List (Row fl)) (hs : List Text)
      → ((h : Text) → In h hs → contains (hashes fl rows) h ≡ true)
      → hashes fl (rows_at fl (table fl rows) hs) ≡ hs
  unfolding rows_at
  hashes-rows_at rows [] known = refl
  hashes-rows_at rows (h ∷ hs) known = elim (Option-cases (lookup (table fl rows) h)) [
    | inl e ↦ ground (arith, e, is_some-table fl rows h, known h (inl refl))
    | inr (t, e) ↦ rw (
      rows_at,
      e,
      (lookup-table fl rows h t e).1,
      hashes-rows_at rows hs (λ k i. known k (inr i)),
    )
  ]

  pub In-changed_at :
      (pm nm : List (Text × Row fl)) (hs : List Text) (z : Row fl)
      → In z (changed_at fl pm nm hs)
      → (h : Text) × (a : Row fl) × (lookup pm h ≡ some a)
        × (lookup nm h ≡ some z)
        × (same_torrent fl a z ≡ false)
  unfolding changed_at
  In-changed_at pm nm [] z i = absurd i
  In-changed_at pm nm (h ∷ hs) z i = elim (Option-cases (lookup pm h)) [
    | inl e ↦ In-changed_at pm nm hs z (rw (changed_at, e) at i)
    | inr (a, e) ↦ elim (Option-cases (lookup nm h)) [
      | inl f ↦ In-changed_at pm nm hs z (rw (changed_at, e, f) at i)
      | inr (b, f) ↦ elim (Bool-cases (same_torrent fl a b)) [
        | inl s ↦ In-changed_at pm nm hs z (rw (changed_at, e, f, s) at i)
        | inr s ↦ elim (rw (changed_at, e, f, s) at i) [
          | inl same ↦ (h, a, e, f ∙ ap some (sym same), ap (same_torrent fl a) same ∙ s)
          | inr later ↦ In-changed_at pm nm hs z later
        ]
      ]
    ]
  ]

  pub changed_at-In :
      (pm nm : List (Text × Row fl)) (hs : List Text) (h : Text) (a z : Row fl)
      → In h hs
      → lookup pm h ≡ some a
      → lookup nm h ≡ some z
      → same_torrent fl a z ≡ false
      → In z (changed_at fl pm nm hs)
  unfolding changed_at
  changed_at-In pm nm [] h a z i e f s = absurd i
  changed_at-In pm nm (k ∷ hs) h a z (inl same) e f s =
      rw (changed_at, ap (lookup pm) (sym same) ∙ e, ap (lookup nm) (sym same) ∙ f, s) (inl refl)
  changed_at-In pm nm (k ∷ hs) h a z (inr i) e f s =
      let later = changed_at-In pm nm hs h a z i e f s in
      elim (Option-cases (lookup pm k)) [
        | inl e' ↦ rw (changed_at, e') later
        | inr (b, e') ↦ elim (Option-cases (lookup nm k)) [
          | inl f' ↦ rw (changed_at, e', f') later
          | inr (c, f') ↦ elim (Bool-cases (same_torrent fl b c)) [
            | inl s' ↦ rw (changed_at, e', f', s') later
            | inr s' ↦ rw (changed_at, e', f', s') (inr later)
          ]
        ]
      ]

  pub In-carry_over :
      (removed : HashSet) (updated : List (Text × Row fl)) (rows : List (Row fl)) (z : Row fl)
      → In z (carry_over fl removed updated rows)
      → (t : Row fl) × In t rows
        × (contains removed t.hash ≡ false)
        × (z ≡ unwrap_or (lookup updated t.hash) t)
  unfolding carry_over
  In-carry_over removed updated [] z i = absurd i
  In-carry_over removed updated (t ∷ rows) z i = elim (Bool-cases (contains removed t.hash)) [
    | inl gone ↦
        let (u, j, p, q) = In-carry_over removed updated rows z (rw (carry_over, gone) at i) in
        (u, inr j, p, q)
    | inr stays ↦ elim (rw (carry_over, stays) at i) [
      | inl same ↦ (t, inl refl, stays, same)
      | inr later ↦
          let (u, j, p, q) = In-carry_over removed updated rows z later in (u, inr j, p, q)
    ]
  ]

  pub carry_over-In :
      (removed : HashSet) (updated : List (Text × Row fl)) (rows : List (Row fl)) (t : Row fl)
      → In t rows
      → contains removed t.hash ≡ false
      → In (unwrap_or (lookup updated t.hash) t) (carry_over fl removed updated rows)
  unfolding carry_over
  carry_over-In removed updated [] t i p = absurd i
  carry_over-In removed updated (u ∷ rows) t (inl same) p =
      rw (carry_over, ap (λ (r : Row fl). contains removed r.hash) (sym same) ∙ p)
        (inl (ap (λ (r : Row fl). unwrap_or (lookup updated r.hash) r) same))
  carry_over-In removed updated (u ∷ rows) t (inr i) p =
      let later = carry_over-In removed updated rows t i p in
      elim (Bool-cases (contains removed u.hash)) [
        | inl gone ↦ rw (carry_over, gone) later
        | inr stays ↦ rw (carry_over, stays) (inr later)
      ]

  pub carried-hash :
      (rows : List (Row fl)) (t : Row fl)
      → (unwrap_or (lookup (table fl rows) t.hash) t).hash ≡ t.hash
  carried-hash rows t = elim (Option-cases (lookup (table fl rows) t.hash)) [
    | inl e ↦ rw e
    | inr (u, e) ↦ rw e (lookup-table fl rows t.hash u e).1
  ]

  pub hashes-carry_over :
      (removed : HashSet) (updated rows : List (Row fl))
      → hashes fl (carry_over fl removed (table fl updated) rows)
        ≡ filter (λ h. not (contains removed h)) (hashes fl rows)
  unfolding carry_over
  hashes-carry_over removed updated [] = refl
  hashes-carry_over removed updated (t ∷ rows) = elim (Bool-cases (contains removed t.hash)) [
    | inl gone ↦ rw (carry_over, gone) (hashes-carry_over removed updated rows)
    | inr stays ↦
        rw (carry_over, stays, carried-hash updated t, hashes-carry_over removed updated rows)
  ]
