-- ===== src/Complete/Collision.antt =====
-- The names that `resolve_collision` gives, and when it refuses.
use rstorrent.Base.{
  ℕ, zero, suc, ◌+◌, ◌≤◌, ◌<◌, Text, codes, text_beq, text_beq_iff, trim, trim_end_slashes, any,
  map, In, true, false, not, ◌≡◌, ◌⊎◌, Bool-cases, inl, inr, refl, sym, ap, ◌∙◌, subst, ltb, List,
  [], ◌∷◌, ◌++◌, arith,
}
use rstorrent.Complete.{
  CollisionPolicy, Resolved, error, auto_rename, ok, taken, numbered, is_free, first_free,
  resolve_collision,
}

module _ (lower : Text → Text) (names : List Text) where
  -- A name of the directory is this one, case aside; and none is.
  abbrev pub IsTaken : Text → Type 0
  IsTaken candidate = (s : Text) × In s names × (lower s ≡ lower candidate)

  abbrev pub IsFree : Text → Type 0
  IsFree candidate = (s : Text) → In s names → lower s ≡ lower candidate → ⊥

  -- The name itself where it is free; else, under `auto_rename` alone, the name with the least number
  -- from 1 to 999 that is free.
  pub data IsChosen (policy : CollisionPolicy) (name : Text) : Text → Type 0 where
    as_is : IsFree name → IsChosen policy name name
    renamed :
        (n : ℕ)
        → policy ≡ auto_rename
        → IsTaken name
        → 1 ≤ n
        → n ≤ 999
        → IsFree (numbered name n)
        → ((m : ℕ) → 1 ≤ m → m < n → IsTaken (numbered name m))
        → IsChosen policy name (numbered name n)

  -- A refusal: the name is taken, and under `auto_rename` so are all its numbered forms.
  pub record IsRefused (policy : CollisionPolicy) (name : Text) : Type 0 where
    pub own : IsTaken name
    pub numbers : policy ≡ auto_rename → (m : ℕ) → 1 ≤ m → m ≤ 999 → IsTaken (numbered name m)

  abbrev pub Resolves : CollisionPolicy → Text → Text → Resolved → Type 0
  Resolves policy dir name (ok path) =
      (candidate : Text) × (path ≡ dir ++ codes "/" ++ candidate) × IsChosen policy name candidate
  Resolves policy dir name (taken path) = (path ≡ dir ++ codes "/" ++ name) × IsRefused policy name

  any-taken :
      (ns : List Text) (candidate : Text)
      → any (λ s. text_beq s (lower candidate)) (map lower ns) ≡ true
      → (s : Text) × In s ns × (lower s ≡ lower candidate)
  any-taken [] candidate e = absurd (ground (arith, e))
  any-taken (n ∷ ns) candidate e = elim (Bool-cases (text_beq (lower n) (lower candidate))) [
    | inl same ↦ (n, inl refl, (text_beq_iff (lower n) (lower candidate)).0 same)
    | inr other ↦ let (s, i, q) = any-taken ns candidate (rw other at e) in (s, inr i, q)
  ]

  any-free :
      (ns : List Text) (candidate : Text)
      → any (λ s. text_beq s (lower candidate)) (map lower ns) ≡ false
      → (s : Text) → In s ns
      → lower s ≡ lower candidate
      → ⊥
  any-free [] candidate e s i q = i
  any-free (n ∷ ns) candidate e s (inl same) q =
      let hit : text_beq (lower n) (lower candidate) ≡ true =
        (text_beq_iff (lower n) (lower candidate)).1 (ap lower (sym same) ∙ q) in
      ground (arith, e, hit)
  any-free (n ∷ ns) candidate e s (inr i) q = any-free ns candidate (ground (arith, e)) s i q

  IsFree-cases :
      (dir name candidate : Text)
      → ((is_free lower (map lower names) dir name candidate ≡ true) × IsFree candidate)
        ⊎ ((is_free lower (map lower names) dir name candidate ≡ false) × IsTaken candidate)
  IsFree-cases dir name candidate =
      elim (Bool-cases (any (λ s. text_beq s (lower candidate)) (map lower names))) [
        | inl e ↦ inr (ap not e, any-taken names candidate e)
        | inr e ↦ inl (ap not e, any-free names candidate e)
      ]

  -- The loop, from a number on, where those before it are taken.
  first_free-Resolves :
      (dir name : Text) (n left : ℕ)
      → IsTaken name
      → 1 ≤ n
      → n + left ≡ 1000
      → ((m : ℕ) → 1 ≤ m → m < n → IsTaken (numbered name m))
      → Resolves auto_rename dir name (first_free lower (map lower names) dir name n left)
  unfolding first_free
  first_free-Resolves dir name n zero own low sum before =
      (refl, record { own = own; numbers = λ _ m p q. before m p (omega (arith, q, sum)) })
  first_free-Resolves dir name n (suc left) own low sum before =
      elim (IsFree-cases dir name (numbered name n)) [
        | inl (e, free) ↦
            rw (first_free, e)
              (numbered name n, refl, renamed n refl own low (omega (arith, sum)) free before)
        | inr (e, hit) ↦
            rw (first_free, e)
              (first_free-Resolves dir name (suc n) left own (omega (arith, low))
                (omega (arith, sum))
                (λ m p q. elim (Bool-cases (ltb m n)) [
                  | inl less ↦ before m p (ground (arith, less))
                  | inr more ↦
                      let same : n ≡ m = ground (arith, more, q) in
                      subst (λ x. IsTaken (numbered name x)) same hit
                ]))
      ]

  by_policy :
      (dst_dir name : Text) (policy : CollisionPolicy)
      → IsTaken (trim name)
      → Resolves policy (trim_end_slashes (trim dst_dir)) (trim name) (elim policy [
        | error ↦ taken (trim_end_slashes (trim dst_dir) ++ codes "/" ++ trim name)
        | auto_rename ↦
            first_free lower (map lower names) (trim_end_slashes (trim dst_dir)) (trim name) 1 999
      ])
  by_policy dst_dir name error own = (refl, record { own = own; numbers = λ e. cc })
  by_policy dst_dir name auto_rename own =
      first_free-Resolves (trim_end_slashes (trim dst_dir)) (trim name) 1 999 own (omega arith)
        (omega arith) (λ m p q. absurd (omega (arith, p, q)))

  -- The siblings are given in lower case. A target is the destination directory and a name that no
  -- sibling has, case aside: the wanted one if it is free; else, under auto_rename alone, the one
  -- with the least number from 1 to 999 that is free. A refusal says that the wanted name is taken,
  -- and under auto_rename that all the numbered ones are too.
  pub resolve_collision-Resolves :
      (dst_dir name : Text) (policy : CollisionPolicy)
      → Resolves policy
          (trim_end_slashes (trim dst_dir))
          (trim name)
          (resolve_collision lower dst_dir name (map lower names) policy)
  unfolding resolve_collision
  resolve_collision-Resolves dst_dir name policy =
      elim (IsFree-cases (trim_end_slashes (trim dst_dir)) (trim name) (trim name)) [
        | inl (e, free) ↦ rw (resolve_collision, e) (trim name, refl, as_is free)
        | inr (e, own) ↦ rw (resolve_collision, e) (by_policy dst_dir name policy own)
      ]
