-- ===== src/Server/Trace.antt =====
-- The server and a client of `GET /api/delta` over any sequence of polls, failures and requests. The
-- client sends no `If-None-Match`.
use rstorrent.Base.{
  ℕ, suc, ◌<◌, nat_beq, nat_beq_iff, Text, ◌&&◌, Option, none, some, unwrap_or, [], ◌⊎◌, In, map-In,
  ◌+◌, ◌%◌, Distinct, ◌≡◌, inl, inr, refl, sym, ap, ◌∙◌, subst, Bool-cases, Option-cases, arith,
}
use rstorrent.Delta.Follow.{apply-diff-StandsFor}
use rstorrent.Delta.{Applied, applied, diff, apply}
use rstorrent.Derive.{status, to_dto, to_dtos, to_globals}
use rstorrent.Torrent.{RawTorrent}
use rstorrent.Server.Api.{
  ok_delta, json_bytes_cached, connecting_snapshot, connecting_response, get_state, delta_or_full,
  get_delta, matches,
}
use rstorrent.Server.Coherent.{
  receive, Mirrors, Mirrors-refl, IsCoherent, publish-IsCoherent, set_disconnected-IsCoherent,
}
use rstorrent.Server.Poll.{
  App, Poll, assemble, publish, store, Config, raw_hashes, take_in, poll_once, set_disconnected,
  is_connected,
}
use rstorrent.Server.{Wire, Cached, CachedDelta, u64_mod}
use rstorrent.Types.{Floats, TorrentDto, Snapshot, SnapshotDelta}

module _ (fl : Floats) (w : Wire fl.F) where
  -- The client's snapshot is the published one with its revision.
  mirrored :
      (s : App fl w) (c : Snapshot fl.F) (inv : IsCoherent fl w s (some c)) (p : Snapshot fl.F)
      → In p inv.published
      → c.revision ≡ p.revision
      → Mirrors fl w c p
  mirrored s c inv p i e = elim (inv.client c refl) [
    | inl z ↦ let (lo, _, _) = inv.bounded p i in ground (arith, z, e, lo)
    | inr (q, j, m) ↦ subst (λ x. Mirrors fl w c x) (inv.once q p j i (sym m.revision ∙ e)) m
  ]

  receive_delta :
      (c n : Snapshot fl.F) (d : CachedDelta fl.F w.Body) (x : SnapshotDelta fl.F)
      → d.delta ≡ x
      → apply fl c x ≡ applied n
      → receive fl w (ok_delta d) (some c) ≡ some n
  receive_delta c n d x f e =
      ap
        (λ (a : Applied fl.F). elim a as (λ _. Option (Snapshot fl.F)) [
          | applied m ↦ some m
          | _ ↦ none
        ])
        (ap (apply fl c) f ∙ e)

  Current : App fl w → Snapshot fl.F → Cached fl.F w.Body → Type 0
  Current s c cached =
      (n : Snapshot fl.F) × (receive fl w (get_delta fl w (some c.revision) none s) (some c)
        ≡ some n)
      × Mirrors fl w n cached.snapshot

  answer :
      (s : App fl w) (c : Snapshot fl.F) (cached : Cached fl.F w.Body)
      → IsCoherent fl w s (some c)
      → s.cache ≡ some cached
      → Current s c cached
  unfolding Current diff get_delta delta_or_full matches
  answer s c cached inv has =
      let i = inv.cached cached has in
      let (_, _, dq) = inv.bounded cached.snapshot i in
      let full = Mirrors-refl fl w cached.snapshot dq in
      elim (Bool-cases (nat_beq c.revision cached.snapshot.revision)) [
        | inl same ↦ (
          c,
          rw (get_delta, has, same),
          mirrored s c inv cached.snapshot i
              ((nat_beq_iff c.revision cached.snapshot.revision).0 same),
        )
        | inr other ↦ elim (Option-cases s.delta_cache) [
          | inl without ↦
              (cached.snapshot, rw (get_delta, has, other, delta_or_full, without), full)
          | inr (d, holds) ↦
              elim (Bool-cases (
                nat_beq d.delta.base_revision c.revision
                && nat_beq d.delta.revision cached.snapshot.revision)) [
                  | inr apart ↦ (
                    cached.snapshot,
                    rw (get_delta, has, other, delta_or_full, holds, apart),
                    full,
                  )
                  | inl leads ↦
                      let (p, q, j, k, f) = inv.diffed d holds in
                      let from : c.revision ≡ p.revision =
                        sym
                          ((nat_beq_iff d.delta.base_revision c.revision).0 (ground (arith, leads)))
                        ∙ ap (λ (x : SnapshotDelta fl.F). x.base_revision) f in
                      let to : q.revision ≡ cached.snapshot.revision =
                        sym (ap (λ (x : SnapshotDelta fl.F). x.revision) f)
                        ∙ (nat_beq_iff d.delta.revision cached.snapshot.revision).0
                            (ground (arith, leads)) in
                      let sent : get_delta fl w (some c.revision) none s ≡ ok_delta d =
                        rw (get_delta, has, other, delta_or_full, holds, leads, matches) in
                      let m = mirrored s c inv p j from in
                      let (_, _, dp) = inv.bounded p j in
                      let (_, _, dn) = inv.bounded q k in
                      let (n, e, r, g, t, rows) = apply-diff-StandsFor fl p q c dp dn from m.rows in
                      (
                        n,
                        ap (λ r. receive fl w r (some c)) sent
                            ∙ receive_delta c n d (diff fl p q) f e,
                        subst (λ x. Mirrors fl w n x) (inv.once q cached.snapshot k i to)
                            (record { revision = r; globals = g; connection = t; rows = rows }),
                      )
                ]
        ]
      ]

-- What a server and a client reach, from a start without caches, where each poll lists no hash
-- twice and the revisions stay below 2 ^ 64.
pub data Reaches (fl : Floats) (w : Wire fl.F) (upper lower : Text → Text) (config : Config)
    : App fl w → Option (Snapshot fl.F) → Type 0 where
  start :
      (s : App fl w)
      → s.cache ≡ none
      → s.delta_cache ≡ none
      → s.prev_snapshot ≡ none
      → Reaches fl w upper lower config s none
  polled :
      {s : App fl w} {held : Option (Snapshot fl.F)} (p : Poll) (tick : ℕ)
      → Distinct (raw_hashes p.raw)
      → suc s.revision < u64_mod
      → Reaches fl w upper lower config s held
      → Reaches fl w upper lower config (poll_once fl w upper lower config p tick s).0 held
  failed :
      {s : App fl w} {held : Option (Snapshot fl.F)} (err : Text) (delay : ℕ)
      → suc s.revision < u64_mod
      → Reaches fl w upper lower config s held
      → Reaches fl w upper lower config (set_disconnected fl w config err delay s) held
  loaded :
      {s : App fl w} {held : Option (Snapshot fl.F)}
      → Reaches fl w upper lower config s held
      → Reaches fl w upper lower config s (receive fl w (get_state fl w none s) held)
  asked :
      {s : App fl w} {c : Snapshot fl.F}
      → Reaches fl w upper lower config s (some c)
      → Reaches fl w upper lower config s
          (receive fl w (get_delta fl w (some c.revision) none s) (some c))

module _ (fl : Floats) (w : Wire fl.F) where
  -- Another client's snapshot in place of the one that is held.
  holds :
      (s : App fl w) (held : Option (Snapshot fl.F)) (c : Snapshot fl.F)
      (inv : IsCoherent fl w s held)
      → (c.revision ≡ 0) ⊎ ((p : Snapshot fl.F) × In p inv.published × Mirrors fl w c p)
      → IsCoherent fl w s (some c)
  holds s held c inv m = record {
    published = inv.published;
    bounded = inv.bounded;
    once = inv.once;
    cached = inv.cached;
    diffed = inv.diffed;
    previous = inv.previous;
    client = λ x e.
        let same : c ≡ x = ap (λ o. unwrap_or o c) e in
        subst
          (λ y. (y.revision ≡ 0) ⊎ ((p : Snapshot fl.F) × In p inv.published × Mirrors fl w y p))
          same m;
  }

  load-IsCoherent :
      (s : App fl w) (held : Option (Snapshot fl.F))
      → IsCoherent fl w s held
      → IsCoherent fl w s (receive fl w (get_state fl w none s) held)
  unfolding get_state connecting_response json_bytes_cached matches connecting_snapshot
  load-IsCoherent s held inv = elim (Option-cases s.cache) [
    | inl cold ↦
        let e : receive fl w (get_state fl w none s) held ≡ some (connecting_snapshot fl w s) =
          rw (get_state, cold) in
        subst (λ h. IsCoherent fl w s h) (sym e)
          (holds s held (connecting_snapshot fl w s) inv (inl refl))
    | inr (cached, warm) ↦
        let i = inv.cached cached warm in
        let (_, _, d) = inv.bounded cached.snapshot i in
        let e : receive fl w (get_state fl w none s) held ≡ some cached.snapshot =
          rw (get_state, warm) in
        subst (λ h. IsCoherent fl w s h) (sym e)
          (holds s held cached.snapshot inv
            (inr (cached.snapshot, i, Mirrors-refl fl w cached.snapshot d)))
  ]

  ask-IsCoherent :
      (s : App fl w) (c : Snapshot fl.F)
      → IsCoherent fl w s (some c)
      → IsCoherent fl w s (receive fl w (get_delta fl w (some c.revision) none s) (some c))
  unfolding get_delta connecting_response json_bytes_cached matches connecting_snapshot Current
  ask-IsCoherent s c inv = elim (Option-cases s.cache) [
    | inl cold ↦
        let e : receive fl w (get_delta fl w (some c.revision) none s) (some c)
            ≡ some (connecting_snapshot fl w s) =
          rw (get_delta, cold) in
        subst (λ h. IsCoherent fl w s h) (sym e)
          (holds s (some c) (connecting_snapshot fl w s) inv (inl refl))
    | inr (cached, warm) ↦
        let (n, e, m) = answer fl w s c cached inv warm in
        subst (λ h. IsCoherent fl w s h) (sym e)
          (holds s (some c) n inv (inr (cached.snapshot, inv.cached cached warm, m)))
  ]

module _ (fl : Floats) (w : Wire fl.F) (upper lower : Text → Text) (config : Config) where
  poll-IsCoherent :
      (p : Poll) (tick : ℕ) (s : App fl w) (held : Option (Snapshot fl.F))
      → Distinct (raw_hashes p.raw)
      → suc s.revision < u64_mod
      → IsCoherent fl w s held
      → IsCoherent fl w (poll_once fl w upper lower config p tick s).0 held
  unfolding poll_once take_in
  poll-IsCoherent p tick s held d fits inv =
      publish-IsCoherent fl w config p tick (is_connected s.conn.phase)
        (take_in fl w upper lower config p tick s) held d fits inv

  Reaches-IsCoherent :
      {s : App fl w} {held : Option (Snapshot fl.F)}
      → Reaches fl w upper lower config s held
      → IsCoherent fl w s held
  Reaches-IsCoherent (start s no_cache no_delta no_prev) = record {
    published = [];
    bounded = λ p i. absurd i;
    once = λ p q i j e. absurd i;
    cached = λ c e. ground (arith, e, no_cache);
    diffed = λ d e. ground (arith, e, no_delta);
    previous = λ p e. ground (arith, e, no_prev);
    client = λ c e. ground arith;
  }
  Reaches-IsCoherent (polled {s} {held} p tick d fits r) =
      poll-IsCoherent p tick s held d fits (Reaches-IsCoherent r)
  Reaches-IsCoherent (failed {s} {held} err delay fits r) =
      set_disconnected-IsCoherent fl w config err delay s held fits (Reaches-IsCoherent r)
  Reaches-IsCoherent (loaded {s} {held} r) = load-IsCoherent fl w s held (Reaches-IsCoherent r)
  Reaches-IsCoherent (asked {s} {c} r) = ask-IsCoherent fl w s c (Reaches-IsCoherent r)

-- After any sequence of polls, failures and requests, in which each poll lists no hash twice and the
-- revisions stay below 2 ^ 64, one more `GET /api/delta` without `If-None-Match` gives a client that
-- holds a snapshot one that mirrors what the server published last: its revision, globals and
-- connection, with rows that stand for its rows; whether the answer is a 304, a delta or the whole.
pub get_delta_current :
    (fl : Floats) (w : Wire fl.F) (upper lower : Text → Text) (config : Config) (s : App fl w)
    (c : Snapshot fl.F) (cached : Cached fl.F w.Body)
    → Reaches fl w upper lower config s (some c)
    → s.cache ≡ some cached
    → (n : Snapshot fl.F) × (receive fl w (get_delta fl w (some c.revision) none s) (some c)
        ≡ some n)
      × Mirrors fl w n cached.snapshot
unfolding Current
get_delta_current fl w upper lower config s c cached r has =
    answer fl w s c cached (Reaches-IsCoherent fl w upper lower config r) has

-- After any such sequence, a poll that lists no hash twice, and whose snapshot serialises, shows in
-- the client's next answer: each torrent that the daemon listed has a row with its hash, the status
-- that `status` derives, its message and its completed bytes.
pub client_shows_poll :
    (fl : Floats) (w : Wire fl.F) (upper lower : Text → Text) (config : Config) (s : App fl w)
    (c : Snapshot fl.F) (p : Poll) (tick : ℕ) (body : w.Body) (t : RawTorrent)
    → Reaches fl w upper lower config s (some c)
    → Distinct (raw_hashes p.raw)
    → suc s.revision < u64_mod
    → w.snapshot_json (
        assemble fl w config p
          ((s.revision + 1) % u64_mod)
          (take_in fl w upper lower config p tick s))
      ≡ some body
    → In t p.raw
    → let s' = (poll_once fl w upper lower config p tick s).0 in
      (n : Snapshot fl.F) × (receive fl w (get_delta fl w (some c.revision) none s') (some c)
        ≡ some n)
      × (row : TorrentDto fl.F) × In row n.torrents
      × (row.hash ≡ t.hash)
      × (row.status ≡ status t)
      × (row.status_msg ≡ t.message)
      × (row.bytes_done ≡ t.bytes_done)
unfolding poll_once publish store assemble to_dtos to_dto take_in to_globals
client_shows_poll fl w upper lower config s c p tick body t r d fits json i =
    let s' = (poll_once fl w upper lower config p tick s).0 in
    let snapshot =
      assemble fl w config p ((s.revision + 1) % u64_mod)
        (take_in fl w upper lower config p tick s) in
    let has : s'.cache ≡ some (record { etag = w.etag_of body; body = body; snapshot = snapshot }) =
      rw (poll_once, publish, store, json) in
    let (n, e, m) = get_delta_current fl w upper lower config s' c _ (polled p tick d fits r) has in
    let (row, j, shows) =
      m.rows.complete _ (map-In (λ (x : RawTorrent). to_dto fl x _ none) t p.raw i) in
    (n, e, row, j, shows.hash, shows.status, shows.status_msg, shows.bytes_done)
