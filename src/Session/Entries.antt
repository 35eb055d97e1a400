-- ===== src/Session/Entries.antt =====
-- The entries of a manifest, without their indices.
use rstorrent.Base.{
  ℕ, suc, ◌≤◌, ◌<◌, nat_beq, Text, HashSet, any, if◌then◌else◌, true, false, not, Option, none,
  some, List, [], ◌∷◌, ◌≡◌, ◌⊎◌, refl, ap, ◌∙◌, Option-cases, inl, inr, arith,
}
use rstorrent.Session.{
  ManifestTorrent, ItemProblem, Fallible, Finding, fine, failing, warning, entry_finding,
  entry_problems, RestoreItem, add_item, skip_have, skip_unselected, skip_invalid, remap_path,
  reason_at, is_selected, plan_entry, plan_entries, key_of,
}
use rstorrent.Base.{eq_ignore_ascii_case}

pub Finding-cases :
    (f : Finding) → ((m : Text) × (f ≡ failing m)) ⊎ ((m : Text) × (f ≡ warning m)) ⊎ (f ≡ fine)
Finding-cases fine = inr (inr refl)
Finding-cases (failing m) = inl (m, refl)
Finding-cases (warning m) = inr (inl (m, refl))

module _ (decode read_info_hash : Text → Fallible) where
  abbrev pub errors_of : ℕ → HashSet → List ManifestTorrent → List ItemProblem
  errors_of index seen torrents = (entry_problems decode read_info_hash index seen torrents).0

  abbrev pub finding_of : HashSet → ManifestTorrent → Finding
  finding_of seen t = (entry_finding decode read_info_hash seen t).1

  abbrev pub seen_after : HashSet → ManifestTorrent → HashSet
  seen_after seen t = (entry_finding decode read_info_hash seen t).0

  -- What an entry adds to the errors.
  pub errors_of-cases :
      (index : ℕ) (seen : HashSet) (t : ManifestTorrent) (torrents : List ManifestTorrent)
      → ((m : Text) × (finding_of seen t ≡ failing m)
          × (errors_of index seen (t ∷ torrents)
              ≡ record { index = some index; hash = t.hash; message = m }
                ∷ errors_of (suc index) (seen_after seen t) torrents))
        ⊎ ((errors_of index seen (t ∷ torrents)
              ≡ errors_of (suc index) (seen_after seen t) torrents)
            × ((m : Text) → finding_of seen t ≡ failing m → ⊥))
  unfolding entry_problems
  errors_of-cases index seen t torrents = elim (Finding-cases (finding_of seen t)) [
    | inl (m, e) ↦ inl (m, e, rw (errors_of, entry_problems, e))
    | inr (inl (m, e)) ↦ inr (rw (errors_of, entry_problems, e), λ k f. ground (arith, e, f))
    | inr (inr e) ↦ inr (rw (errors_of, entry_problems, e), λ k f. ground (arith, e, f))
  ]

  reason_at-cons :
      (i index : ℕ) (hash m : Text) (errors : List ItemProblem)
      → nat_beq i index ≡ false
      → reason_at i (record { index = some index; hash = hash; message = m } ∷ errors)
        ≡ reason_at i errors
  unfolding reason_at
  reason_at-cons i index hash m errors other = elim (Option-cases (reason_at i errors)) [
    | inl e ↦ rw (reason_at, e, other)
    | inr (r, e) ↦ rw (reason_at, e)
  ]

  reason_at-head :
      (i : ℕ) (hash m : Text) (errors : List ItemProblem)
      → reason_at i errors ≡ none
      → reason_at i (record { index = some i; hash = hash; message = m } ∷ errors) ≡ some m
  unfolding reason_at
  reason_at-head i hash m errors e =
      let same : nat_beq i i ≡ true = ground arith in rw (reason_at, e, same)

  -- The errors of later entries have later indices.
  reason_at-earlier :
      (i index : ℕ) (seen : HashSet) (torrents : List ManifestTorrent)
      → i < index
      → reason_at i (errors_of index seen torrents) ≡ none
  unfolding entry_problems reason_at
  reason_at-earlier i index seen [] lt = refl
  reason_at-earlier i index seen (t ∷ torrents) lt = elim (errors_of-cases index seen t torrents) [
    | inl (m, f, e) ↦ rw e (
        reason_at-cons i index t.hash m (errors_of (suc index) (seen_after seen t) torrents)
          (ground arith)
        ∙ reason_at-earlier i (suc index) (seen_after seen t) torrents (omega arith))
    | inr (e, f) ↦ rw e (reason_at-earlier i (suc index) (seen_after seen t) torrents (omega arith))
  ]

  module _ (existing : HashSet) (selected : Option HashSet) (remaps : List (Text × Text)) where
    -- What an entry that passes validation comes to.
    abbrev pub plan_valid : ManifestTorrent → RestoreItem
    plan_valid t =
        if any (λ h. eq_ignore_ascii_case h (key_of t)) existing
        then record { torrent = t; action = skip_have; dst_dir = [] }
        else (if not (is_selected existing selected remaps (key_of t))
            then record { torrent = t; action = skip_unselected; dst_dir = [] }
            else record { torrent = t; action = add_item; dst_dir = remap_path t.save_path remaps })

    abbrev pub verdict : Finding → ManifestTorrent → RestoreItem
    verdict (failing m) t = record { torrent = t; action = skip_invalid m; dst_dir = [] }
    verdict _ t = plan_valid t

    -- The plan in one pass, each entry by what validation says of it there and then.
    abbrev pub one_pass : HashSet → List ManifestTorrent → List RestoreItem
    one_pass seen [] = []
    one_pass seen (t ∷ torrents) =
        verdict (finding_of seen t) t ∷ one_pass (seen_after seen t) torrents

    plan_entry-valid :
        (errors : List ItemProblem) (index : ℕ) (t : ManifestTorrent)
        → reason_at index errors ≡ none
        → plan_entry existing selected remaps errors index t ≡ plan_valid t
    unfolding plan_entry
    plan_entry-valid errors index t e = rw (plan_entry, e)

    plan_entry-invalid :
        (errors : List ItemProblem) (index : ℕ) (t : ManifestTorrent) (m : Text)
        → reason_at index errors ≡ some m
        → plan_entry existing selected remaps errors index t
          ≡ record { torrent = t; action = skip_invalid m; dst_dir = [] }
    unfolding plan_entry
    plan_entry-invalid errors index t m e = rw (plan_entry, e)

    pub verdict-valid :
        (f : Finding) (t : ManifestTorrent)
        → ((m : Text) → f ≡ failing m → ⊥)
        → verdict f t ≡ plan_valid t
    verdict-valid fine t h = refl
    verdict-valid (warning m) t h = refl
    verdict-valid (failing m) t h = absurd (h m refl)

    pub plan_entries-one_pass :
        (errors : List ItemProblem) (index : ℕ) (seen : HashSet) (torrents : List ManifestTorrent)
        → ((i : ℕ) → index ≤ i → reason_at i errors ≡ reason_at i (errors_of index seen torrents))
        → plan_entries existing selected remaps errors index torrents ≡ one_pass seen torrents
    unfolding plan_entries
    plan_entries-one_pass errors index seen [] agree = refl
    plan_entries-one_pass errors index seen (t ∷ torrents) agree =
        let rest = errors_of (suc index) (seen_after seen t) torrents in
        let past : reason_at index rest ≡ none =
          reason_at-earlier index (suc index) (seen_after seen t) torrents (omega arith) in
        elim (errors_of-cases index seen t torrents) [
          | inl (m, f, e) ↦
              let here : reason_at index errors ≡ some m =
                agree index (omega arith)
                ∙ ap (reason_at index) e
                ∙ reason_at-head index t.hash m rest past in
              rw (
                plan_entry-invalid errors index t m here,
                f,
                plan_entries-one_pass errors (suc index) (seen_after seen t) torrents (λ i le.
                    agree i (omega arith)
                    ∙ ap (reason_at i) e
                    ∙ reason_at-cons i index t.hash m rest (ground arith)),
              )
          | inr (e, f) ↦
              let here : reason_at index errors ≡ none =
                agree index (omega arith) ∙ ap (reason_at index) e ∙ past in
              rw (
                plan_entry-valid errors index t here,
                verdict-valid (finding_of seen t) t f,
                plan_entries-one_pass errors (suc index) (seen_after seen t) torrents
                    (λ i le. agree i (omega arith) ∙ ap (reason_at i) e),
              )
        ]
