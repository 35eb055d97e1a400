-- ===== src/Session/Restore.antt =====
-- What the plan of a restore adds.
use rstorrent.Base.{
  ℕ, suc, ◌+◌, ◌≤◌, Text, codes, text_beq, eq_ignore_ascii_case, HashSet, contains, insert,
  contains-insert, any, all, filter, length, is_none, Bool, true, false, not, ◌&&◌, Option, none,
  List, [], ◌∷◌, map, In, Distinct, In-map, In-filter, text_beq_refl, ◌≡◌, ◌⊎◌, refl, sym, ap, ◌∙◌,
  subst, Bool-cases, inl, inr, arith,
}
use rstorrent.Session.Entries.{
  finding_of, seen_after, errors_of, errors_of-cases, plan_valid, verdict, verdict-valid, one_pass,
  plan_entries-one_pass,
}
use rstorrent.Session.{
  ManifestTorrent, Manifest, ItemProblem, Fallible, Finding, failing, entry_finding, entry_problems,
  of_entry, validate_manifest, RestoreItem, add_item, skip_invalid, remap_path, is_selected,
  is_info_hash, key_of, reason_at, plan_entry, plan_entries, plan_restore, format_tag,
}

abbrev pub is_add : RestoreItem → Bool
is_add item = elim item.action [ add_item ↦ true | _ ↦ false ]

abbrev pub is_invalid : RestoreItem → Bool
is_invalid item = elim item.action [ skip_invalid m ↦ true | _ ↦ false ]

abbrev pub item_key : RestoreItem → Text
item_key item = key_of item.torrent

module _ (decode read_info_hash : Text → Fallible) where
  -- Errors of entries all have an index, and there are no more of them than entries.
  errors-indexed :
      (index : ℕ) (seen : HashSet) (torrents : List ManifestTorrent)
      → (any
            (λ (e : ItemProblem). is_none e.index)
            (errors_of decode read_info_hash index seen torrents)
          ≡ false)
        × (filter
              (of_entry decode read_info_hash)
              (errors_of decode read_info_hash index seen torrents)
            ≡ errors_of decode read_info_hash index seen torrents)
  unfolding entry_problems
  errors-indexed index seen [] = (refl, refl)
  errors-indexed index seen (t ∷ torrents) =
      let (a, b) = errors-indexed (suc index) (seen_after decode read_info_hash seen t) torrents in
      elim (errors_of-cases decode read_info_hash index seen t torrents) [
        | inl (m, f, e) ↦ rw (e, b) (a, refl)
        | inr (e, f) ↦ rw e (a, b)
      ]

  module _ (existing : HashSet) (selected : Option HashSet) (remaps : List (Text × Text)) where
    abbrev plan : HashSet → List ManifestTorrent → List RestoreItem
    plan = one_pass decode read_info_hash existing selected remaps

    plan_valid-valid :
        (t : ManifestTorrent)
        → is_invalid (plan_valid decode read_info_hash existing selected remaps t) ≡ false
    plan_valid-valid t = ground arith

    -- Every entry is invalid in the plan exactly if validation has an error for it.
    length-one_pass :
        (index : ℕ) (seen : HashSet) (torrents : List ManifestTorrent)
        → length (filter (λ i. not (is_invalid i)) (plan seen torrents))
            + length (errors_of decode read_info_hash index seen torrents)
          ≡ length torrents
    length-one_pass index seen [] = unfold entry_problems in refl
    length-one_pass index seen (t ∷ torrents) =
        let ih = length-one_pass (suc index) (seen_after decode read_info_hash seen t) torrents in
        elim (errors_of-cases decode read_info_hash index seen t torrents) [
          | inl (m, f, e) ↦ rw (f, e) (omega (arith, ih))
          | inr (e, f) ↦
              let v : is_invalid (
                    verdict decode read_info_hash existing selected remaps
                      (finding_of decode read_info_hash seen t) t)
                  ≡ false =
                ap is_invalid (
                  verdict-valid decode read_info_hash existing selected remaps
                    (finding_of decode read_info_hash seen t) t f)
                ∙ plan_valid-valid t in
              rw (e, v) (omega (arith, ih))
        ]

    -- With the right format tag the plan is the one pass over the entries.
    plan_restore-one_pass :
        (manifest : Manifest)
        → text_beq manifest.format format_tag ≡ true
        → plan_restore existing selected remaps decode read_info_hash manifest
          ≡ plan [] manifest.torrents
    unfolding plan_restore validate_manifest
    plan_restore-one_pass manifest e =
        let test : (not (
                all (λ (p : ItemProblem). is_none p.index)
                  (validate_manifest decode read_info_hash manifest).errors)
              && not (text_beq manifest.format format_tag))
            ≡ false =
          ground (arith, e) in
        rw (test, e)
          (plan_entries-one_pass decode read_info_hash existing selected remaps _ 0 []
            manifest.torrents (λ i le. refl))

    -- In a manifest with the right format tag the entries that the report counts as restorable are those
    -- that the plan does not call invalid, whatever is loaded or selected; no count wraps around.
    pub restorable_count-plan :
        (manifest : Manifest)
        → text_beq manifest.format format_tag ≡ true
        → ((validate_manifest decode read_info_hash manifest).restorable_count
            ≡ length (
                filter
                  (λ i. not (is_invalid i))
                  (plan_restore existing selected remaps decode read_info_hash manifest)))
          × (length (validate_manifest decode read_info_hash manifest).errors
              ≤ length manifest.torrents)
    unfolding validate_manifest
    restorable_count-plan manifest e =
        let (a, b) = errors-indexed 0 [] manifest.torrents in
        let count = length-one_pass 0 [] manifest.torrents in
        rw (plan_restore-one_pass manifest e, e, a, b) (omega (arith, count), omega (arith, count))

    -- An entry that the plan adds.
    pub record IsFresh (seen : HashSet) (item : RestoreItem) : Type 0 where
      pub valid : is_info_hash (item_key item) ≡ true
      pub unseen : contains seen (item_key item) ≡ false
      pub absent : any (λ h. eq_ignore_ascii_case h (item_key item)) existing ≡ false
      pub chosen : is_selected existing selected remaps (item_key item) ≡ true
      pub target : item.dst_dir ≡ remap_path item.torrent.save_path remaps

    plan_valid-added :
        (t : ManifestTorrent)
        → is_add (plan_valid decode read_info_hash existing selected remaps t) ≡ true
        → (any (λ h. eq_ignore_ascii_case h (key_of t)) existing ≡ false)
          × (is_selected existing selected remaps (key_of t) ≡ true)
          × (plan_valid decode read_info_hash existing selected remaps t
              ≡ record { torrent = t; action = add_item; dst_dir = remap_path t.save_path remaps })
    plan_valid-added t e =
        elim (Bool-cases (any (λ h. eq_ignore_ascii_case h (key_of t)) existing)) [
          | inl loaded ↦ ground (arith, e, loaded)
          | inr absent ↦ elim (Bool-cases (is_selected existing selected remaps (key_of t))) [
            | inl chosen ↦ (absent, chosen, rw (plan_valid, absent, chosen))
            | inr other ↦ ground (arith, e, absent, other)
          ]
        ]

    entry_finding-passed :
        (seen : HashSet) (t : ManifestTorrent)
        → ((m : Text) → finding_of decode read_info_hash seen t ≡ failing m → ⊥)
        → (is_info_hash (key_of t) ≡ true)
          × (contains seen (key_of t) ≡ false)
          × (seen_after decode read_info_hash seen t ≡ insert seen (key_of t))
    unfolding entry_finding
    entry_finding-passed seen t h = elim (Bool-cases (is_info_hash (key_of t))) [
      | inr bad ↦
          absurd (h (codes "not a 40-digit hex info-hash") (rw (finding_of, entry_finding, bad)))
      | inl valid ↦ elim (Bool-cases (contains seen (key_of t))) [
        | inl twice ↦ absurd (
            h (codes "duplicate info-hash in this manifest")
              (rw (finding_of, entry_finding, valid, twice)))
        | inr new ↦ (valid, new, rw (seen_after, entry_finding, valid, new))
      ]
    ]

    not_failing :
        (f : Finding) (t : ManifestTorrent)
        → is_add (verdict decode read_info_hash existing selected remaps f t) ≡ true
        → (m : Text) → f ≡ failing m
        → ⊥
    not_failing f t e m k =
        let bad : is_add (verdict decode read_info_hash existing selected remaps (failing m) t)
            ≡ true =
          subst (λ g. is_add (verdict decode read_info_hash existing selected remaps g t) ≡ true) k
            e in
        ground (arith, bad)

    abbrev verdict_of : HashSet → ManifestTorrent → RestoreItem
    verdict_of seen t =
        verdict decode read_info_hash existing selected remaps
          (finding_of decode read_info_hash seen t) t

    verdict-IsFresh :
        (seen : HashSet) (t : ManifestTorrent)
        → is_add (verdict_of seen t) ≡ true
        → IsFresh seen (verdict_of seen t)
          × (item_key (verdict_of seen t) ≡ key_of t)
          × (seen_after decode read_info_hash seen t ≡ insert seen (key_of t))
    verdict-IsFresh seen t e =
        let passed = not_failing (finding_of decode read_info_hash seen t) t e in
        let same : verdict_of seen t ≡ plan_valid decode read_info_hash existing selected remaps t =
          verdict-valid decode read_info_hash existing selected remaps
            (finding_of decode read_info_hash seen t) t passed in
        let (valid, unseen, after) = entry_finding-passed seen t passed in
        let (absent, chosen, shape) = plan_valid-added t (ap is_add (sym same) ∙ e) in
        let whole = sym (same ∙ shape) in
        (
          subst (IsFresh seen) whole (record {
            valid = valid;
            unseen = unseen;
            absent = absent;
            chosen = chosen;
            target = refl;
          }),
          ap item_key (sym whole),
          after,
        )

    weaken :
        (seen : HashSet) (h : Text) (item : RestoreItem)
        → IsFresh (insert seen h) item
        → IsFresh seen item
    weaken seen h item f = record {
      valid = f.valid;
      unseen = ground (arith, f.unseen, contains-insert seen h (item_key item));
      absent = f.absent;
      chosen = f.chosen;
      target = f.target;
    }

    -- The seen hashes only grow.
    after_cases :
        (seen : HashSet) (t : ManifestTorrent)
        → (seen_after decode read_info_hash seen t ≡ seen)
          ⊎ (seen_after decode read_info_hash seen t ≡ insert seen (key_of t))
    unfolding entry_finding
    after_cases seen t = elim (Bool-cases (is_info_hash (key_of t))) [
      | inr bad ↦ inl (rw (seen_after, entry_finding, bad))
      | inl valid ↦ elim (Bool-cases (contains seen (key_of t))) [
        | inl twice ↦ inl (rw (seen_after, entry_finding, valid, twice))
        | inr new ↦ inr (rw (seen_after, entry_finding, valid, new))
      ]
    ]

    weaken_after :
        (seen : HashSet) (t : ManifestTorrent) (item : RestoreItem)
        → IsFresh (seen_after decode read_info_hash seen t) item
        → IsFresh seen item
    weaken_after seen t item f = elim (after_cases seen t) [
      | inl e ↦ subst (λ s. IsFresh s item) e f
      | inr e ↦ weaken seen (key_of t) item (subst (λ s. IsFresh s item) e f)
    ]

    one_pass-IsFresh :
        (seen : HashSet) (torrents : List ManifestTorrent) (item : RestoreItem)
        → In item (plan seen torrents)
        → is_add item ≡ true
        → IsFresh seen item
    one_pass-IsFresh seen [] item i e = absurd i
    one_pass-IsFresh seen (t ∷ torrents) item (inl same) e =
        subst (IsFresh seen) (sym same) (verdict-IsFresh seen t (ap is_add (sym same) ∙ e)).0
    one_pass-IsFresh seen (t ∷ torrents) item (inr i) e =
        weaken_after seen t item
          (one_pass-IsFresh (seen_after decode read_info_hash seen t) torrents item i e)

    one_pass-Distinct :
        (seen : HashSet) (torrents : List ManifestTorrent)
        → Distinct (map item_key (filter is_add (plan seen torrents)))
    one_pass-Distinct seen [] = tt
    one_pass-Distinct seen (t ∷ torrents) =
        let later = one_pass-Distinct (seen_after decode read_info_hash seen t) torrents in
        elim (Bool-cases (is_add (verdict_of seen t))) [
          | inr other ↦ rw other later
          | inl added ↦ rw added (
            λ i.
                let (_, key, after) = verdict-IsFresh seen t added in
                let (item, j, q) = In-map item_key (item_key (verdict_of seen t)) _ i in
                let (k, e) = In-filter is_add item _ j in
                let fresh =
                  one_pass-IsFresh (seen_after decode read_info_hash seen t) torrents item k e in
                let out : contains (insert seen (key_of t)) (key_of t) ≡ false =
                  ap (λ s. contains s (key_of t)) (sym after)
                  ∙ ap (contains (seen_after decode read_info_hash seen t)) (sym key ∙ q)
                  ∙ fresh.unseen in
                ground (
                  arith,
                  out,
                  contains-insert seen (key_of t) (key_of t),
                  text_beq_refl (key_of t),
                ),
            later,
          )
        ]

    -- For a manifest with the right format tag: what the plan adds has a hash of 40 hex digits that no
    -- loaded torrent has, case aside, was selected, and goes to the remapped path; and no hash is added
    -- twice, case aside.
    pub plan_restore-IsFresh :
        (manifest : Manifest)
        → text_beq manifest.format format_tag ≡ true
        → ((item : RestoreItem)
            → In item (plan_restore existing selected remaps decode read_info_hash manifest)
            → is_add item ≡ true
            → IsFresh [] item)
          × Distinct (
              map item_key (
                filter is_add
                  (plan_restore existing selected remaps decode read_info_hash manifest)))
    plan_restore-IsFresh manifest e =
        rw (plan_restore-one_pass manifest e)
          (one_pass-IsFresh [] manifest.torrents, one_pass-Distinct [] manifest.torrents)

    plan_entries-unchecked :
        (errors : List ItemProblem) (index : ℕ) (torrents : List ManifestTorrent)
        → ((i : ℕ) → reason_at i errors ≡ none)
        → plan_entries existing selected remaps errors index torrents
          ≡ map (plan_valid decode read_info_hash existing selected remaps) torrents
    unfolding plan_entries plan_entry
    plan_entries-unchecked errors index [] none_at = refl
    plan_entries-unchecked errors index (t ∷ torrents) none_at =
        rw (plan_entry, none_at index, plan_entries-unchecked errors (suc index) torrents none_at)

    -- A manifest of another format is planned as if validation had found nothing: no entry is invalid,
    -- and each is judged by what is loaded and selected alone, a hash that is none included.
    pub plan_restore_unsupported :
        (manifest : Manifest)
        → text_beq manifest.format format_tag ≡ false
        → plan_restore existing selected remaps decode read_info_hash manifest
          ≡ map (plan_valid decode read_info_hash existing selected remaps) manifest.torrents
    unfolding plan_restore validate_manifest reason_at
    plan_restore_unsupported manifest e =
        rw (plan_restore, validate_manifest, e)
          (plan_entries-unchecked _ 0 manifest.torrents (λ i. refl))
