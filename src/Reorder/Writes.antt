-- ===== src/Reorder/Writes.antt =====
-- The writes of a reorder against its assignments.
use rstorrent.Base.{
  suc, ◌-◌, ltb, Text, text_beq, text_beq_iff, ℤ, HashSet, contains, lookup, lookup-put, length,
  get_elem?, is_some, ◌&&◌, List, [], ◌∷◌, ◌++◌, map, reverse, Distinct, Distinct-snoc,
  contains-append, ◌≡◌, refl, ap, ◌∙◌, inl, inr, Bool-cases, Option-cases, arith,
}
use rstorrent.Reorder.{
  MoveDir, top, up, down, bottom, Reorder, Emitted, rewrite_first, emit_reorder, exchange, place,
  up_step, down_step, top_step, bottom_step, each, ordered_hashes, plan_reorder,
}
use rstorrent.Torrent.{RawTorrent}

abbrev pub written : List Reorder → List Text
written = map (λ (r : Reorder). r.hash)

-- Each write has an assignment and the other way round, and no torrent has two writes.
pub record InStep (e : Emitted) : Type 0 where
  pub once : Distinct (written e.out)
  pub same : (h : Text) → contains (written e.out) h ≡ is_some (lookup e.assigned h)

written-rewrite_first :
    (hash : Text) (key : ℤ × ℤ) (out : List Reorder)
    → written (rewrite_first hash key out) ≡ written out
unfolding rewrite_first
written-rewrite_first hash key [] = refl
written-rewrite_first hash key (r ∷ out) = elim (Bool-cases (text_beq r.hash hash)) [
  | inl e ↦ rw e
  | inr e ↦ rw e (ap (λ hs. r.hash ∷ hs) (written-rewrite_first hash key out))
]

written-snoc :
    (out : List Reorder) (r : Reorder) → written (out ++ r ∷ []) ≡ written out ++ r.hash ∷ []
written-snoc [] r = refl
written-snoc (x ∷ out) r = ap (λ hs. x.hash ∷ hs) (written-snoc out r)

emit_reorder-InStep :
    (hash : Text) (key : ℤ × ℤ) (e : Emitted) → InStep e → InStep (emit_reorder hash key e)
unfolding emit_reorder
emit_reorder-InStep hash key e s = elim (Option-cases (lookup e.assigned hash)) [
  | inl new ↦
      rw (emit_reorder, new)
        (record {
          once =
              rw (written-snoc e.out _)
                (Distinct-snoc (written e.out) hash s.once (s.same hash ∙ ap is_some new));
          same = λ h. rw (written-snoc e.out _) (
              ground (
                arith,
                contains-append (written e.out) (hash ∷ []) h,
                s.same h,
                lookup-put e.assigned hash h key,
              ));
        })
  | inr (old, found) ↦
      rw (emit_reorder, found)
        (record {
          once = rw (written-rewrite_first hash key e.out) s.once;
          same = λ h. rw (written-rewrite_first hash key e.out) (
              ground (
                arith,
                s.same h,
                s.same hash,
                found,
                lookup-put e.assigned hash h key,
                text_beq_iff hash h,
              ));
        })
]

exchange-InStep :
    (raw : List RawTorrent) (hash other : Text) (e : Emitted)
    → InStep e
    → InStep (exchange raw hash other e)
unfolding exchange
exchange-InStep raw hash other e s = emit_reorder-InStep other _ _ (emit_reorder-InStep hash _ e s)

up_step-InStep :
    (raw : List RawTorrent) (selected : HashSet) (hash : Text) (s : List Text × Emitted)
    → InStep s.1
    → InStep (up_step raw selected hash s).1
unfolding up_step
up_step-InStep raw selected hash (ordered, e) i =
    elim (Bool-cases (contains selected hash && ltb 0 (place ordered hash))) [
      | inr stay ↦ rw (up_step, stay) i
      | inl go ↦ elim (Option-cases (get_elem? ordered (place ordered hash - 1))) [
        | inl out ↦ rw (up_step, go, out) i
        | inr (pred, found) ↦ rw (up_step, go, found) (exchange-InStep raw hash pred e i)
      ]
    ]

down_step-InStep :
    (raw : List RawTorrent) (selected : HashSet) (hash : Text) (s : List Text × Emitted)
    → InStep s.1
    → InStep (down_step raw selected hash s).1
unfolding down_step
down_step-InStep raw selected hash (ordered, e) i =
    elim (Bool-cases (contains selected hash && ltb (suc (place ordered hash)) (length ordered))) [
      | inr stay ↦ rw (down_step, stay) i
      | inl go ↦ elim (Option-cases (get_elem? ordered (suc (place ordered hash)))) [
        | inl out ↦ rw (down_step, go, out) i
        | inr (next, found) ↦ rw (down_step, go, found) (exchange-InStep raw hash next e i)
      ]
    ]

top_step-InStep :
    (selected : HashSet) (hash : Text) (s : ℤ × Emitted)
    → InStep s.1
    → InStep (top_step selected hash s).1
unfolding top_step
top_step-InStep selected hash (floor, e) i = elim (Bool-cases (contains selected hash)) [
  | inr stay ↦ rw (top_step, stay) i
  | inl go ↦ rw (top_step, go) (emit_reorder-InStep hash _ e i)
]

bottom_step-InStep :
    (selected : HashSet) (hash : Text) (s : ℤ × Emitted)
    → InStep s.1
    → InStep (bottom_step selected hash s).1
unfolding bottom_step
bottom_step-InStep selected hash (ceil, e) i = elim (Bool-cases (contains selected hash)) [
  | inr stay ↦ rw (bottom_step, stay) i
  | inl go ↦ rw (bottom_step, go) (emit_reorder-InStep hash _ e i)
]

each-InStep :
    {S : Type 0} (step : Text → S × Emitted → S × Emitted) (hashes : List Text) (s : S × Emitted)
    → ((hash : Text) (s : S × Emitted) → InStep s.1 → InStep (step hash s).1)
    → InStep s.1
    → InStep (each step hashes s).1
unfolding each
each-InStep step [] s keeps i = i
each-InStep step (hash ∷ hashes) s keeps i =
    each-InStep step hashes (step hash s) keeps (keeps hash s i)

nothing-InStep : InStep (record { assigned = []; out = [] })
nothing-InStep = record { once = tt; same = λ h. refl }

-- A reorder writes each torrent at most once, in every direction and for every selection: repeats
-- for a torrent that glides with its block are merged.
pub plan_reorder-Distinct :
    (raw : List RawTorrent) (hashes : List Text) (dir : MoveDir)
    → Distinct (written (plan_reorder raw hashes dir))
unfolding plan_reorder
plan_reorder-Distinct raw [] dir = tt
plan_reorder-Distinct raw (h ∷ hs) up =
    (each-InStep _ (ordered_hashes raw) _ (up_step-InStep raw _) nothing-InStep).once
plan_reorder-Distinct raw (h ∷ hs) down =
    (each-InStep _ (reverse (ordered_hashes raw)) _ (down_step-InStep raw _) nothing-InStep).once
plan_reorder-Distinct raw (h ∷ hs) top =
    (each-InStep _ (ordered_hashes raw) _ (top_step-InStep _) nothing-InStep).once
plan_reorder-Distinct raw (h ∷ hs) bottom =
    (each-InStep _ (reverse (ordered_hashes raw)) _ (bottom_step-InStep _) nothing-InStep).once
