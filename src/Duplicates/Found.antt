-- ===== src/Duplicates/Found.antt =====
-- Which row an add collides with first, and for which reason.
use rstorrent.Base.{
  Text, codes, trim, trim_end_slashes, is_empty, to_ascii_lowercase, eq_ignore_ascii_case, text_beq,
  text_beq_iff, find, In, pos, beq_ℤ, beq_ℤ_iff, ltb_ℤ, ◌<ℤ◌, Bool, true, false, not, ◌&&◌, Option,
  none, some, List, [], ◌∷◌, ◌++◌, ◌≡◌, ◌⊎◌, inl, inr, refl, sym, ap, ◌∙◌, subst, Bool-cases,
  Option-cases, arith,
}
use rstorrent.Duplicates.{
  AddCandidate, Duplicate, normalise_path, target, report, exact, same_name_and_size,
  destination_in_use, find_exact, find_same, find_in_use, detect,
}
use rstorrent.Types.{TorrentDto}

-- A row of which the property holds, after rows of which it does not.
pub record IsFirst {A : Type 0} (R : A → Type 0) (t : A) (rows : List A) : Type 0 where
  pub before : List A
  pub after : List A
  pub split : rows ≡ before ++ t ∷ after
  pub holds : R t
  pub earlier : (u : A) → In u before → R u → ⊥

abbrev pub Nowhere : {A : Type 0} → (A → Type 0) → List A → Type 0
Nowhere R rows = (u : _) → In u rows → R u → ⊥

-- `find` with a test that decides the property.
find-IsFirst :
    {A : Type 0} {R : A → Type 0} (p : A → Bool) (rows : List A)
    → ((t : A) → p t ≡ true → R t)
    → ((t : A) → R t → p t ≡ true)
    → ((find p rows ≡ none) × Nowhere R rows)
      ⊎ ((t : A) × (find p rows ≡ some t) × IsFirst R t rows)
find-IsFirst p [] sound complete = inl (refl, λ u i h. i)
find-IsFirst p (t ∷ rows) sound complete = elim (Bool-cases (p t)) [
  | inl e ↦ inr (
    t,
    rw (e) refl,
    record { before = []; after = rows; split = refl; holds = sound t e; earlier = λ u i h. i },
  )
  | inr e ↦ elim (find-IsFirst p rows sound complete) [
    | inl (absent, nowhere) ↦ inl (
      rw (e) absent,
      λ u i h. elim i [
        | inl same ↦ let hit : p t ≡ true = subst (λ x. p x ≡ true) same (complete u h) in cc
        | inr j ↦ nowhere u j h
      ],
    )
    | inr (u, found, first) ↦ inr (
      u,
      rw (e) found,
      record {
        before = t ∷ first.before;
        after = first.after;
        split = ap (λ xs. t ∷ xs) first.split;
        holds = first.holds;
        earlier = λ v i h. elim i [
          | inl same ↦ let hit : p t ≡ true = subst (λ x. p x ≡ true) same (complete v h) in cc
          | inr j ↦ first.earlier v j h
        ];
      },
    )
  ]
]

eq_ignore_ascii_case_iff :
    (s t : Text)
    → (eq_ignore_ascii_case s t ≡ true → to_ascii_lowercase s ≡ to_ascii_lowercase t)
      × (to_ascii_lowercase s ≡ to_ascii_lowercase t → eq_ignore_ascii_case s t ≡ true)
unfolding eq_ignore_ascii_case
eq_ignore_ascii_case_iff s t =
    let (sound, complete) = text_beq_iff (to_ascii_lowercase s) (to_ascii_lowercase t) in
    (sound, complete)

module _ {F : Type 0} (c : AddCandidate) where
  -- The candidate has a hash that is not blank, and the row's is that without its outer white space,
  -- ASCII case aside.
  abbrev pub SameHash : TorrentDto F → Type 0
  SameHash t =
      (hash : Text) × (c.hash ≡ some hash)
      × (is_empty (trim hash) ≡ false)
      × (to_ascii_lowercase t.hash ≡ to_ascii_lowercase (trim hash))

  -- The same of the name, with a size above 0 that is the row's.
  abbrev pub SameNameAndSize : TorrentDto F → Type 0
  SameNameAndSize t =
      (name : Text) × (c.name ≡ some name)
      × (c.size ≡ some t.size)
      × (is_empty (trim name) ≡ false)
      × (pos 0 <ℤ t.size)
      × (to_ascii_lowercase t.name ≡ to_ascii_lowercase (trim name))

  find_exact-IsFirst :
      (rows : List (TorrentDto F))
      → ((find_exact c.hash rows ≡ none) × Nowhere SameHash rows)
        ⊎ ((t : TorrentDto F) × (find_exact c.hash rows ≡ some (exact t.hash t.name))
            × IsFirst SameHash t rows)
  unfolding find_exact
  find_exact-IsFirst rows = elim (Option-cases c.hash) [
    | inl e ↦ inl (rw (find_exact, e) refl, λ u i (hash, given, full, same). cc)
    | inr (hash, e) ↦ elim (Bool-cases (is_empty (trim hash))) [
      | inl blank ↦ inl (
        rw (find_exact, e, blank) refl,
        λ u i (hash', given, full, same).
            let own : hash ≡ hash' = cc in
            let filled : is_empty (trim hash) ≡ false = rw own full in cc,
      )
      | inr full ↦
          elim (find-IsFirst {R = SameHash} (λ t. eq_ignore_ascii_case t.hash (trim hash)) rows
            (λ t h. (hash, e, full, (eq_ignore_ascii_case_iff t.hash (trim hash)).0 h))
            (λ t (hash', given, full', same).
              let own : hash ≡ hash' = cc in
              (eq_ignore_ascii_case_iff t.hash (trim hash)).1 (rw own same))) [
                | inl (absent, nowhere) ↦
                    inl (rw (find_exact, e, full, report, absent) refl, nowhere)
                | inr (t, found, first) ↦
                    inr (t, rw (find_exact, e, full, report, found) refl, first)
              ]
    ]
  ]

  find_same-IsFirst :
      (rows : List (TorrentDto F))
      → ((find_same c.name c.size rows ≡ none) × Nowhere SameNameAndSize rows)
        ⊎ ((t : TorrentDto F) × (find_same c.name c.size rows
              ≡ some (same_name_and_size t.hash t.name t.size))
            × IsFirst SameNameAndSize t rows)
  unfolding find_same
  find_same-IsFirst rows = elim (Option-cases c.name) [
    | inl e ↦ inl (rw (find_same, e) refl, λ u i (name, given, sized, full, above, same). cc)
    | inr (name, e) ↦ elim (Option-cases c.size) [
      | inl e' ↦
          inl (rw (find_same, e, e') refl, λ u i (name', given, sized, full, above, same). cc)
      | inr (size, e') ↦ elim (Bool-cases (not (is_empty (trim name)) && ltb_ℤ (pos 0) size)) [
        | inl full ↦
            elim (find-IsFirst {R = SameNameAndSize}
              (λ t. beq_ℤ t.size size && eq_ignore_ascii_case t.name (trim name)) rows
              (λ t h.
                let size_is : t.size ≡ size = (beq_ℤ_iff t.size size).0 (ground (arith, h)) in
                (
                  name,
                  e,
                  e' ∙ ap some (sym size_is),
                  ground (arith, full),
                  rw size_is (ground (arith, full)),
                  (eq_ignore_ascii_case_iff t.name (trim name)).0 (ground (arith, h)),
                ))
              (λ t (name', given, sized, full', above, same).
                let own : name ≡ name' = cc in
                let size_is : t.size ≡ size = cc in
                let sizes : beq_ℤ t.size size ≡ true = (beq_ℤ_iff t.size size).1 size_is in
                let names : eq_ignore_ascii_case t.name (trim name) ≡ true =
                  (eq_ignore_ascii_case_iff t.name (trim name)).1 (rw own same) in
                ground (arith, sizes, names))) [
                  | inl (absent, nowhere) ↦
                      inl (rw (find_same, e, e', full, report, absent) refl, nowhere)
                  | inr (t, found, first) ↦
                      let size_is : size ≡ t.size =
                        let (name', given, sized, full', above, same) = first.holds in cc in
                      inr (t, rw (find_same, e, e', full, report, found, size_is) refl, first)
                ]
        | inr blank ↦ inl (
          rw (find_same, e, e', blank) refl,
          λ u i (name', given, sized, full, above, same).
              let own : name' ≡ name = cc in
              let size_is : u.size ≡ size = cc in
              let full' : is_empty (trim name) ≡ false = rw own at full in
              let above' : pos 0 <ℤ size = rw size_is at above in
              ground (arith, blank, full', above'),
        )
      ]
    ]
  ]

module _ (lower : Text → Text) {F : Type 0} (c : AddCandidate) where
  -- Neither the candidate's destination nor its name is blank, and the row is in the folder of the
  -- name below the destination: the destination without its last slashes, a slash, and the name
  -- without its outer white space. Of either whole path the outer white space, then the last
  -- slashes and the case are set aside.
  abbrev pub SamePlace : TorrentDto F → Type 0
  SamePlace t =
      (destination name : Text) × (c.destination ≡ some destination)
      × (c.name ≡ some name)
      × (is_empty (trim destination) ≡ false)
      × (is_empty (trim name) ≡ false)
      × (lower (trim_end_slashes (trim t.save_path))
          ≡ lower
              (trim_end_slashes (trim (trim_end_slashes destination ++ codes "/" ++ trim name))))

  find_in_use-IsFirst :
      (rows : List (TorrentDto F))
      → ((find_in_use lower c.destination c.name rows ≡ none) × Nowhere SamePlace rows)
        ⊎ ((t : TorrentDto F) × (find_in_use lower c.destination c.name rows
              ≡ some (destination_in_use t.hash t.name t.save_path))
            × IsFirst SamePlace t rows)
  unfolding find_in_use normalise_path target
  find_in_use-IsFirst rows = elim (Option-cases c.destination) [
    | inl e ↦ inl (
      rw (find_in_use, e) refl,
      λ u i (destination, name, given, named, full_d, full_n, same). cc,
    )
    | inr (destination, e) ↦ elim (Option-cases c.name) [
      | inl e' ↦ inl (
        rw (find_in_use, e, e') refl,
        λ u i (destination', name', given, named, full_d, full_n, same). cc,
      )
      | inr (name, e') ↦
          elim (Bool-cases (not (is_empty (trim destination)) && not (is_empty (trim name)))) [
            | inl full ↦
                elim (find-IsFirst {R = SamePlace}
                  (λ t.
                    text_beq (normalise_path lower t.save_path)
                      (target lower destination (trim name)))
                  rows
                  (λ t h. (
                    destination,
                    name,
                    e,
                    e',
                    ground (arith, full),
                    ground (arith, full),
                    (text_beq_iff (normalise_path lower t.save_path)
                          (target lower destination (trim name))).0
                        h,
                  ))
                  (λ t (destination', name', given, named, full_d, full_n, same).
                    let own : destination ≡ destination' = cc in
                    let own' : name ≡ name' = cc in
                    (text_beq_iff (normalise_path lower t.save_path)
                        (target lower destination (trim name))).1
                      (rw (own, own') same))) [
                        | inl (absent, nowhere) ↦
                            inl (rw (find_in_use, e, e', full, report, absent) refl, nowhere)
                        | inr (t, found, first) ↦
                            inr (t, rw (find_in_use, e, e', full, report, found) refl, first)
                      ]
            | inr blank ↦ inl (
              rw (find_in_use, e, e', blank) refl,
              λ u i (destination', name', given, named, full_d, full_n, same).
                  let own : destination' ≡ destination = cc in
                  let own' : name' ≡ name = cc in
                  let full_d' : is_empty (trim destination) ≡ false = rw own at full_d in
                  let full_n' : is_empty (trim name) ≡ false = rw own' at full_n in
                  ground (arith, blank, full_d', full_n'),
            )
          ]
    ]
  ]

  -- A report names the first row of its reason, and no row of the library has a stronger reason;
  -- where nothing is reported, no row has any.
  pub data Reports (library : List (TorrentDto F)) : Option Duplicate → Type 0 where
    clean :
        Nowhere (SameHash c) library
        → Nowhere (SameNameAndSize c) library
        → Nowhere SamePlace library
        → Reports library none
    by_hash :
        (t : TorrentDto F)
        → IsFirst (SameHash c) t library
        → Reports library (some (exact t.hash t.name))
    by_name :
        (t : TorrentDto F)
        → Nowhere (SameHash c) library
        → IsFirst (SameNameAndSize c) t library
        → Reports library (some (same_name_and_size t.hash t.name t.size))
    by_place :
        (t : TorrentDto F)
        → Nowhere (SameHash c) library
        → Nowhere (SameNameAndSize c) library
        → IsFirst SamePlace t library
        → Reports library (some (destination_in_use t.hash t.name t.save_path))

  -- An add is reported for the first row of the library that has its hash; if there is none, for the
  -- first that has its name and size; if there is none, for the first that is in the folder it would
  -- get; and not at all only if there is none. The candidate's hash, name and destination count
  -- where they are not blank, and a size above 0. Of the candidate's hash and name the outer white
  -- space is set aside, of the row's it is not; case is that of ASCII. Paths are compared without
  -- outer white space, last slashes and case, once the name stands below the destination, from
  -- which only the last slashes are taken.
  pub detect-Reports : (library : List (TorrentDto F)) → Reports library (detect lower c library)
  unfolding detect
  detect-Reports library = elim (find_exact-IsFirst c library) [
    | inr (t, e, first) ↦ rw (detect, e) (by_hash t first)
    | inl (e, no_hash) ↦ elim (find_same-IsFirst c library) [
      | inr (t, e', first) ↦ rw (detect, e, e') (by_name t no_hash first)
      | inl (e', no_name) ↦ elim (find_in_use-IsFirst library) [
        | inr (t, e'', first) ↦ rw (detect, e, e', e'') (by_place t no_hash no_name first)
        | inl (e'', no_place) ↦ rw (detect, e, e', e'') (clean no_hash no_name no_place)
      ]
    ]
  ]
