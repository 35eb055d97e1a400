-- ===== src/Rss/Winners.antt =====
-- The winners of a smart rule's table, and the items that are taken for them.
use rstorrent.Base.{
  ℕ, ◌≤◌, Text, HashSet, contains, lookup, filter, Bool, true, not, ◌&&◌, some, List, [], ◌∷◌, In,
  In-append, In-append_left, In-append_right, In-filter, filter-In, In-map, map-In, In→contains,
  contains→In, Bool-cases, ◌≡◌, inl, inr, refl, sym, ap, ◌∙◌,
}
use rstorrent.Rss.Best.{IsFrom, note_all-IsNoted, note_all-IsFrom, note_all-Distinct}
use rstorrent.Rss.Maps.{lookup-In, In-lookup}
use rstorrent.Rss.Plan.{
  Fetched, in_scope, BestMap, item_key, item_score, best_feeds, best_keys, winning_items,
  candidates_deduped,
}
use rstorrent.Rss.Pool.{IsOffered, IsOffered-later, pool, note_all, best_feeds-pool}
use rstorrent.Rss.{Feed, Rule, FeedItem, Outside}

module _ (env : Outside) (rule : Rule) (seen : HashSet) where
  abbrev pub is_winner : List Text → FeedItem → Bool
  is_winner winners item = contains winners item.guid && not (contains seen item.guid)

  winning_items-filter :
      (winners : List Text) (items : List FeedItem)
      → winning_items env seen winners items ≡ filter (is_winner winners) items
  unfolding winning_items
  winning_items-filter winners [] = refl
  winning_items-filter winners (item ∷ items) = rw (winning_items-filter winners items) refl

  pub In-deduped :
      (winners : List Text) (feeds : List Fetched) (item : FeedItem)
      → In item (candidates_deduped env rule feeds seen winners)
      → IsOffered rule feeds item × (is_winner winners item ≡ true)
  unfolding candidates_deduped
  In-deduped winners [] item i = absurd i
  In-deduped winners ((feed, items) ∷ feeds) item i = elim (Bool-cases (in_scope rule feed)) [
    | inl e ↦
        elim (In-append item (filter (is_winner winners) items)
          (candidates_deduped env rule feeds seen winners)
          (rw (candidates_deduped, e, winning_items-filter winners items) at i)) [
            | inl j ↦
                let (k, won) = In-filter (is_winner winners) item items j in
                ((feed, items, inl refl, e, k), won)
            | inr j ↦
                let (offered, won) = In-deduped winners feeds item j in
                (IsOffered-later rule (feed, items) feeds item offered, won)
          ]
    | inr e ↦
        let (offered, won) = In-deduped winners feeds item (rw (candidates_deduped, e) at i) in
        (IsOffered-later rule (feed, items) feeds item offered, won)
  ]

  pub deduped-In :
      (winners : List Text) (feeds : List Fetched) (feed : Feed) (items : List FeedItem)
      (item : FeedItem)
      → In (feed, items) feeds
      → in_scope rule feed ≡ true
      → In item items
      → is_winner winners item ≡ true
      → In item (candidates_deduped env rule feeds seen winners)
  unfolding candidates_deduped
  deduped-In winners [] feed items item i scope j won = absurd i
  deduped-In winners ((feed', items') ∷ feeds) feed items item (inl e) scope j won =
      let same_feed : feed ≡ feed' = ap (λ f. f.0) e in
      let same_items : items ≡ items' = ap (λ f. f.1) e in
      let scope' : in_scope rule feed' ≡ true = rw same_feed at scope in
      let j' : In item items' = rw same_items at j in
      rw (candidates_deduped, scope', winning_items-filter winners items')
        (In-append_left item (filter (is_winner winners) items')
          (candidates_deduped env rule feeds seen winners)
          (filter-In (is_winner winners) item items' j' won))
  deduped-In winners ((feed', items') ∷ feeds) feed items item (inr i) scope j won =
      let later : In item (candidates_deduped env rule feeds seen winners) =
        deduped-In winners feeds feed items item i scope j won in
      elim (Bool-cases (in_scope rule feed')) [
        | inl e ↦
            rw (candidates_deduped, e)
              (In-append_right item (winning_items env seen winners items')
                (candidates_deduped env rule feeds seen winners) later)
        | inr e ↦ rw (candidates_deduped, e) later
      ]

  abbrev pub final : List Fetched → BestMap env
  final feeds = note_all env rule seen (pool env rule seen feeds) []

  abbrev pub winners_of : List Fetched → List Text
  winners_of feeds = best_keys env rule feeds seen

  pub final-IsFrom :
      (feeds : List Fetched) (e : Text × (Text × ℕ))
      → In e (final feeds)
      → IsFrom env rule (pool env rule seen feeds) e
  final-IsFrom feeds =
      note_all-IsFrom env rule (pool env rule seen feeds) (pool env rule seen feeds) [] seen
        (λ x i. i) (λ e i. absurd i)

  -- A winner's guid is that of a candidate, which the table holds for its key.
  pub winner_entry :
      (feeds : List Fetched) (guid : Text)
      → contains (winners_of feeds) guid ≡ true
      → (w : FeedItem) × In w (pool env rule seen feeds)
        × (w.guid ≡ guid)
        × (lookup (final feeds) (item_key env w) ≡ some (guid, item_score env rule w))
  unfolding best_keys
  winner_entry feeds guid h =
      let ((key, (guid', score)), i, same) =
        In-map (λ (key, (guid, score)). guid) guid (best_feeds env rule seen feeds [])
          (contains→In (winners_of feeds) guid h) in
      let j : In (key, (guid', score)) (final feeds) =
        rw (best_feeds-pool env rule seen feeds []) at i in
      let (w, k, own_key, own_guid, own_score) = final-IsFrom feeds (key, (guid', score)) j in
      (
        w,
        k,
        own_guid ∙ sym same,
        rw (own_key, own_score, same)
            (In-lookup (final feeds) key (guid', score)
              (note_all-Distinct env rule (pool env rule seen feeds) [] seen tt) j),
      )

  -- The candidates' best.
  pub winner_exists :
      (feeds : List Fetched) (item : FeedItem)
      → In item (pool env rule seen feeds)
      → (w : FeedItem) × In w (pool env rule seen feeds)
        × (contains (winners_of feeds) w.guid ≡ true)
        × (item_key env w ≡ item_key env item)
        × (item_score env rule item ≤ item_score env rule w)
  unfolding best_keys
  winner_exists feeds item i =
      let (guid, high, found, le) =
        note_all-IsNoted env rule (pool env rule seen feeds) [] seen item i in
      let j : In (item_key env item, (guid, high)) (final feeds) =
        lookup-In (final feeds) (item_key env item) (guid, high) found in
      let (w, k, own_key, own_guid, own_score) =
        final-IsFrom feeds (item_key env item, (guid, high)) j in
      let entry : In (item_key env item, (guid, high)) (best_feeds env rule seen feeds []) =
        rw (best_feeds-pool env rule seen feeds []) j in
      (
        w,
        k,
        In→contains (winners_of feeds) w.guid (
            rw own_guid (
              map-In (λ (key, (guid, score)). guid) (item_key env item, (guid, high))
                (best_feeds env rule seen feeds []) entry)),
        own_key,
        rw own_score le,
      )
