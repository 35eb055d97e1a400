-- ===== src/Mover/Plans.antt =====
-- What `decide_moves` plans, and how it stands to `homed_hashes`.
use rstorrent.Base.{
  Text, text_beq_refl, HashSet, contains, contains-insert, insert, true, false, not, ◌&&◌, some,
  List, [], ◌∷◌, map, In, Distinct, In-map, In-filter, same_key, ◌≡◌, ◌⊎◌, subst, refl, sym, ap,
  ◌∙◌, inl, inr, Bool-cases, Option-cases, arith,
}
use rstorrent.Complete.{MoveRule}
use rstorrent.Mover.{
  MoveIntent, intent_of, settled, decide_from, decide_moves, is_homed, homed_hashes,
}
use rstorrent.Torrent.{RawTorrent}

module _ (lower : Text → Text) (move_rules : List MoveRule) (label_paths : List (Text × Text)) where
  intent_of-hash :
      (t : RawTorrent) (i : MoveIntent)
      → intent_of lower move_rules label_paths t ≡ some i
      → i.hash ≡ t.hash
  unfolding intent_of
  intent_of-hash t i e = ground arith

  homed-unplanned :
      (t : RawTorrent) (i : MoveIntent)
      → is_homed lower move_rules label_paths t ≡ true
      → intent_of lower move_rules label_paths t ≡ some i
      → ⊥
  unfolding is_homed intent_of
  homed-unplanned t i h e = ground arith

  module _ (skip busy : HashSet) where
    -- An intent comes from a listed torrent that is complete and settled, and that no sibling
    -- policy, no move in flight and no earlier row has.
    pub record IsPlanned (seen : HashSet) (raw : List RawTorrent) (i : MoveIntent) : Type 0 where
      pub torrent : RawTorrent
      pub listed : In torrent raw
      pub same : i.hash ≡ torrent.hash
      pub planned : intent_of lower move_rules label_paths torrent ≡ some i
      pub ready : settled lower move_rules label_paths torrent ≡ true
      pub unseen : contains seen i.hash ≡ false
      pub unskipped : contains skip i.hash ≡ false
      pub idle : contains busy i.hash ≡ false

    later_row :
        (seen : HashSet) (t : RawTorrent) (raw : List RawTorrent) (i : MoveIntent)
        → IsPlanned (insert seen t.hash) raw i
        → IsPlanned seen (t ∷ raw) i
    later_row seen t raw i p = record {
      torrent = p.torrent;
      listed = inr p.listed;
      same = p.same;
      planned = p.planned;
      ready = p.ready;
      unseen = ground (arith, p.unseen, contains-insert seen t.hash i.hash);
      unskipped = p.unskipped;
      idle = p.idle;
    }

    unseen_row :
        (seen : HashSet) (t : RawTorrent) (raw : List RawTorrent) (i : MoveIntent)
        → IsPlanned seen raw i
        → IsPlanned seen (t ∷ raw) i
    unseen_row seen t raw i p = record {
      torrent = p.torrent;
      listed = inr p.listed;
      same = p.same;
      planned = p.planned;
      ready = p.ready;
      unseen = p.unseen;
      unskipped = p.unskipped;
      idle = p.idle;
    }

    abbrev plans : HashSet → List RawTorrent → List MoveIntent
    plans = decide_from lower move_rules label_paths skip busy

    -- What one row adds.
    row_cases :
        (seen : HashSet) (t : RawTorrent) (raw : List RawTorrent)
        → (plans seen (t ∷ raw) ≡ plans seen raw)
          ⊎ (plans seen (t ∷ raw) ≡ plans (insert seen t.hash) raw)
          ⊎ ((i : MoveIntent) × (plans seen (t ∷ raw) ≡ i ∷ plans (insert seen t.hash) raw)
              × (i.hash ≡ t.hash)
              × IsPlanned seen (t ∷ raw) i)
    unfolding decide_from
    row_cases seen t raw =
        elim (Bool-cases (settled lower move_rules label_paths t && not (contains seen t.hash))) [
          | inr no_row ↦ inl (rw no_row)
          | inl row ↦ elim (Bool-cases (not (contains skip t.hash) && not (contains busy t.hash))) [
            | inr held ↦ inr (inl (rw (row, held)))
            | inl clear ↦ elim (Option-cases (intent_of lower move_rules label_paths t)) [
              | inl e ↦ inr (inl (rw (row, clear, e, decide_from)))
              | inr (i, e) ↦
                  let k = intent_of-hash t i e in
                  inr (
                    inr (
                      i,
                      rw (row, clear, e, decide_from),
                      k,
                      record {
                        torrent = t;
                        listed = inl refl;
                        same = k;
                        planned = e;
                        ready = ground arith;
                        unseen = ap (contains seen) k ∙ ground arith;
                        unskipped = ap (contains skip) k ∙ ground arith;
                        idle = ap (contains busy) k ∙ ground arith;
                      },
                    ))
            ]
          ]
        ]

    decide_from-IsPlanned :
        (raw : List RawTorrent) (seen : HashSet) (i : MoveIntent)
        → In i (plans seen raw)
        → IsPlanned seen raw i
    decide_from-IsPlanned [] seen i j = absurd (unfold decide_from in j)
    decide_from-IsPlanned (t ∷ raw) seen i j = elim (row_cases seen t raw) [
      | inl e ↦ unseen_row seen t raw i (decide_from-IsPlanned raw seen i (subst (In i) e j))
      | inr (inl e) ↦
          later_row seen t raw i
            (decide_from-IsPlanned raw (insert seen t.hash) i (subst (In i) e j))
      | inr (inr (k, e, own, p)) ↦ elim (subst (In i) e j) [
        | inl same ↦ subst (IsPlanned seen (t ∷ raw)) (sym same) p
        | inr later ↦
            later_row seen t raw i (decide_from-IsPlanned raw (insert seen t.hash) i later)
      ]
    ]

    decide_from-Distinct :
        (raw : List RawTorrent) (seen : HashSet)
        → Distinct (map (λ (i : MoveIntent). i.hash) (plans seen raw))
    decide_from-Distinct [] seen = unfold decide_from in tt
    decide_from-Distinct (t ∷ raw) seen = elim (row_cases seen t raw) [
      | inl e ↦ rw e (decide_from-Distinct raw seen)
      | inr (inl e) ↦ rw e (decide_from-Distinct raw (insert seen t.hash))
      | inr (inr (k, e, own, p)) ↦ rw e (
        λ again.
            let (i, j, same) = In-map (λ (i : MoveIntent). i.hash) k.hash _ again in
            let q = decide_from-IsPlanned raw (insert seen t.hash) i j in
            absurd (
              ground (
                arith,
                q.unseen,
                ap (contains (insert seen t.hash)) (sym own ∙ same),
                contains-insert seen t.hash t.hash,
                text_beq_refl t.hash,
              )),
        decide_from-Distinct raw (insert seen t.hash),
      )
    ]

  -- Each intent of a tick is for a listed torrent that is complete, not hashing and has a path and a
  -- name, it is the one that the rules give for it, and its hash is neither skipped nor busy with a
  -- move.
  pub decide_moves-IsPlanned :
      (raw : List RawTorrent) (skip busy : HashSet) (i : MoveIntent)
      → In i (decide_moves lower move_rules label_paths raw skip busy)
      → IsPlanned skip busy [] raw i
  unfolding decide_moves
  decide_moves-IsPlanned raw skip busy i j = decide_from-IsPlanned skip busy raw [] i j

  -- No hash is planned twice in one tick, however often the daemon lists it.
  pub decide_moves-Distinct :
      (raw : List RawTorrent) (skip busy : HashSet)
      → Distinct (
          map
            (λ (i : MoveIntent). i.hash)
            (decide_moves lower move_rules label_paths raw skip busy))
  unfolding decide_moves
  decide_moves-Distinct raw skip busy = decide_from-Distinct skip busy raw []

  -- A torrent whose recorded directory is stale is not planned for a move: where no two listed
  -- torrents share a hash, no intent of a tick is for a hash that `homed_hashes` gives.
  pub homed-decide_moves :
      (raw : List RawTorrent) (skip busy : HashSet) (i : MoveIntent)
      → Distinct (map (λ (t : RawTorrent). t.hash) raw)
      → In i (decide_moves lower move_rules label_paths raw skip busy)
      → ¬ In i.hash (homed_hashes lower move_rules label_paths raw)
  unfolding decide_moves homed_hashes
  homed-decide_moves raw skip busy i d j home =
      let p = decide_from-IsPlanned skip busy raw [] i j in
      let (t, k, e) = In-map (λ (t : RawTorrent). t.hash) i.hash _ home in
      let (listed, homed) = In-filter (is_homed lower move_rules label_paths) t raw k in
      let one : p.torrent ≡ t =
        same_key (λ (t : RawTorrent). t.hash) raw p.torrent t d p.listed listed (sym p.same ∙ e) in
      homed-unplanned t i homed
        (subst (λ u. intent_of lower move_rules label_paths u ≡ some i) one p.planned)
