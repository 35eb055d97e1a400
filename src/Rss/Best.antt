-- ===== src/Rss/Best.antt =====
-- What a smart rule takes: the best item of each episode.
use rstorrent.Base.{
  ℕ, ◌≤◌, ltb, Text, text_beq, text_beq_iff, text_beq_refl, HashSet, lookup, put, lookup-put, some,
  List, [], ◌∷◌, In, Distinct, Bool-cases, Option-cases, ◌≡◌, ◌⊎◌, inl, inr, refl, arith,
}
use rstorrent.Rss.Maps.{In-put, keys, put-Distinct}
use rstorrent.Rss.Plan.{BestMap, item_key, item_score, note_best}
use rstorrent.Rss.Pool.{note_all}
use rstorrent.Rss.{Rule, FeedItem, Outside}

module _ (env : Outside) (rule : Rule) where
  -- An item with this score or a better one stands for the key.
  abbrev pub IsNoted : BestMap env → Text → ℕ → Type 0
  IsNoted best key score =
      (guid : Text) × (high : ℕ) × (lookup best key ≡ some (guid, high)) × (score ≤ high)

  abbrev entered : FeedItem → BestMap env → BestMap env
  entered item best = put best (item_key env item) (item.guid, item_score env rule item)

  -- The item stands for its key from now on, or another does at least as well.
  note_best-cases :
      (item : FeedItem) (best : BestMap env)
      → ((note_best env rule item best ≡ entered item best)
          × ((guid : Text) (score : ℕ)
              → lookup best (item_key env item) ≡ some (guid, score)
              → score ≤ item_score env rule item))
        ⊎ ((note_best env rule item best ≡ best)
            × IsNoted best (item_key env item) (item_score env rule item))
  unfolding note_best
  note_best-cases item best = elim (Option-cases (lookup best (item_key env item))) [
    | inl e ↦ inl (rw (note_best, e) refl, λ guid score h. cc)
    | inr ((guid, score), e) ↦ elim (Bool-cases (ltb score (item_score env rule item))) [
      | inl less ↦ inl (
        rw (note_best, e, less) refl,
        λ guid' score' h. let same : score ≡ score' = cc in ground (arith, less, same),
      )
      | inr more ↦ inr (rw (note_best, e, more) refl, (guid, score, e, ground (arith, more)))
    ]
  ]

  note_best-new :
      (item : FeedItem) (best : BestMap env)
      → IsNoted (note_best env rule item best) (item_key env item) (item_score env rule item)
  note_best-new item best = elim (note_best-cases item best) [
    | inl (same, low) ↦ (
      item.guid,
      item_score env rule item,
      rw
          (
            same,
            lookup-put best (item_key env item) (item_key env item)
                (item.guid, item_score env rule item),
            text_beq_refl (item_key env item),
          )
          refl,
      omega arith,
    )
    | inr (same, noted) ↦ rw same noted
  ]

  note_best-kept :
      (item : FeedItem) (best : BestMap env) (key : Text) (score : ℕ)
      → IsNoted best key score
      → IsNoted (note_best env rule item best) key score
  note_best-kept item best key score (guid, high, e, le) = elim (note_best-cases item best) [
    | inl (same, low) ↦ elim (Bool-cases (text_beq (item_key env item) key)) [
      | inl own ↦
          let own_key : item_key env item ≡ key = (text_beq_iff (item_key env item) key).0 own in
          let higher : high ≤ item_score env rule item = low guid high (rw own_key e) in
          (
            item.guid,
            item_score env rule item,
            rw
                (
                  same,
                  lookup-put best (item_key env item) key (item.guid, item_score env rule item),
                  own,
                )
                refl,
            omega (arith, le, higher),
          )
      | inr other ↦ (
        guid,
        high,
        rw
            (
              same,
              lookup-put best (item_key env item) key (item.guid, item_score env rule item),
              other,
            )
            e,
        le,
      )
    ]
    | inr (same, noted) ↦ rw same (guid, high, e, le)
  ]

  note_all-kept :
      (items : List FeedItem) (best : BestMap env) (seen : HashSet) (key : Text) (score : ℕ)
      → IsNoted best key score
      → IsNoted (note_all env rule seen items best) key score
  note_all-kept [] best seen key score h = h
  note_all-kept (item ∷ items) best seen key score h =
      note_all-kept items (note_best env rule item best) seen key score
        (note_best-kept item best key score h)

  pub note_all-IsNoted :
      (items : List FeedItem) (best : BestMap env) (seen : HashSet) (item : FeedItem)
      → In item items
      → IsNoted (note_all env rule seen items best) (item_key env item) (item_score env rule item)
  note_all-IsNoted [] best seen item i = absurd i
  note_all-IsNoted (item' ∷ items) best seen item (inl e) = rw e (
      note_all-kept items (note_best env rule item' best) seen (item_key env item')
        (item_score env rule item') (note_best-new item' best))
  note_all-IsNoted (item' ∷ items) best seen item (inr i) =
      note_all-IsNoted items (note_best env rule item' best) seen item i

  -- An entry is that of an item among the candidates.
  abbrev pub IsFrom : List FeedItem → Text × (Text × ℕ) → Type 0
  IsFrom items (key, (guid, score)) =
      (item : FeedItem) × In item items
      × (item_key env item ≡ key)
      × (item.guid ≡ guid)
      × (item_score env rule item ≡ score)

  pub note_all-IsFrom :
      (all items : List FeedItem) (best : BestMap env) (seen : HashSet)
      → ((item : FeedItem) → In item items → In item all)
      → ((e : Text × (Text × ℕ)) → In e best → IsFrom all e)
      → (e : Text × (Text × ℕ)) → In e (note_all env rule seen items best)
      → IsFrom all e
  note_all-IsFrom all [] best seen sub from e' i' = from e' i'
  note_all-IsFrom all (item ∷ items) best seen sub from e' i' =
      note_all-IsFrom all items (note_best env rule item best) seen (λ x i. sub x (inr i))
        (λ e i. elim (note_best-cases item best) [
          | inl (same, low) ↦
              elim (In-put best (item_key env item) (item.guid, item_score env rule item) e
                (rw same at i)) [
                  | inl new ↦ rw new (item, sub item (inl refl), refl, refl, refl)
                  | inr old ↦ from e old
                ]
          | inr (same, noted) ↦ from e (rw same at i)
        ])
        e' i'

  pub note_all-Distinct :
      (items : List FeedItem) (best : BestMap env) (seen : HashSet)
      → Distinct (keys best)
      → Distinct (keys (note_all env rule seen items best))
  note_all-Distinct [] best seen d = d
  note_all-Distinct (item ∷ items) best seen d =
      note_all-Distinct items (note_best env rule item best) seen
        (elim (note_best-cases item best) [
          | inl (same, low) ↦
              rw same
                (put-Distinct best (item_key env item) (item.guid, item_score env rule item) d)
          | inr (same, noted) ↦ rw same d
        ])
