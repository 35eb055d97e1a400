-- ===== src/Server/Coherent.antt =====
-- The snapshots that the caches of server/src/state.rs come from, through each change of the poller,
-- and what a client holds of them. The client applies deltas as crates/rtorrent/src/delta.rs does.
use rstorrent.Base.{
  ℕ, suc, ◌+◌, ◌%◌, ◌≤◌, ◌<◌, Text, ℤ, Bool, not, ◌||◌, Option, none, some, List, [], ◌∷◌, In,
  Distinct, is_none, unwrap_or, ◌≡◌, ◌⊎◌, inl, inr, refl, sym, ap, ◌∙◌, subst, Bool-cases,
  Option-cases, arith,
}
use rstorrent.Delta.Follow.{StandsFor, StandsFor-refl}
use rstorrent.Delta.Tables.{hashes}
use rstorrent.Delta.{diff, apply, applied}
use rstorrent.Derive.{to_dto, to_dtos}
use rstorrent.Server.Api.{Response, not_modified, ok_snapshot, ok_delta, conflict, bad_request}
use rstorrent.Server.Poll.{
  App, Poll, Config, raw_hashes, assemble, next_delta, is_full_tick, store, publish,
  disconnected_snapshot, set_disconnected,
}
use rstorrent.Server.{Wire, Cached, CachedDelta, tracker_host, u64_mod}
use rstorrent.Torrent.{RawTorrent}
use rstorrent.Types.{Floats, Snapshot}

module _ (fl : Floats) (w : Wire fl.F) where
  -- What a client holds after a response.
  abbrev pub receive : Response fl w → Option (Snapshot fl.F) → Option (Snapshot fl.F)
  receive (ok_snapshot c) held = some c.snapshot
  receive (conflict c) held = some c.snapshot
  receive (ok_delta d) none = none
  receive (ok_delta d) (some c) = elim (apply fl c d.delta) [ applied n ↦ some n | _ ↦ none ]
  receive (not_modified etag) held = held
  receive bad_request held = held

  -- A snapshot stands for a published one.
  pub record Mirrors (c p : Snapshot fl.F) : Type 0 where
    pub revision : c.revision ≡ p.revision
    pub globals : c.globals ≡ p.globals
    pub connection : c.connection ≡ p.connection
    pub rows : StandsFor fl c.torrents p.torrents

  pub Mirrors-refl : (p : Snapshot fl.F) → Distinct (hashes fl p.torrents) → Mirrors p p
  Mirrors-refl p d = record {
    revision = refl;
    globals = refl;
    connection = refl;
    rows = StandsFor-refl fl p.torrents d;
  }

  pub record Inv (r : ℕ) (cache : Option (Cached fl.F w.Body))
      (delta : Option (CachedDelta fl.F w.Body)) (prev held : Option (Snapshot fl.F)) : Type 0 where
    pub published : List (Snapshot fl.F)
    pub bounded :
        (p : Snapshot fl.F)
        → In p published
        → (1 ≤ p.revision) × (p.revision ≤ r) × Distinct (hashes fl p.torrents)
    pub once :
        (p q : Snapshot fl.F) → In p published → In q published → p.revision ≡ q.revision → p ≡ q
    pub cached : (c : Cached fl.F w.Body) → cache ≡ some c → In c.snapshot published
    pub diffed :
        (d : CachedDelta fl.F w.Body)
        → delta ≡ some d
        → (p : Snapshot fl.F) × (q : Snapshot fl.F) × In p published
          × In q published
          × (d.delta ≡ diff fl p q)
    pub previous : (p : Snapshot fl.F) → prev ≡ some p → In p published
    pub client :
        (c : Snapshot fl.F)
        → held ≡ some c
        → (c.revision ≡ 0) ⊎ ((p : Snapshot fl.F) × In p published × Mirrors c p)

  module _ (r : ℕ) (cache : Option (Cached fl.F w.Body)) (delta : Option (CachedDelta fl.F w.Body))
      (prev held : Option (Snapshot fl.F)) (inv : Inv r cache delta prev held) where
    -- A revision that is not published.
    bump : Inv (suc r) cache delta prev held
    bump = record {
      published = inv.published;
      bounded = λ p i. let (lo, hi, d) = inv.bounded p i in (lo, omega (arith, hi), d);
      once = inv.once;
      cached = inv.cached;
      diffed = inv.diffed;
      previous = inv.previous;
      client = inv.client;
    }

    newer :
        (n p q : Snapshot fl.F)
        → n.revision ≡ suc r
        → p ≡ n
        → In q inv.published
        → p.revision ≡ q.revision
        → ⊥
    newer n p q at a b e =
        let (_, below, _) = inv.bounded q b in
        let same : p.revision ≡ n.revision = ap (λ (x : Snapshot fl.F). x.revision) a in
        ground (arith, at, same, e, below)

    grow :
        (k : ℕ) (n : Snapshot fl.F) (etag : Text) (body : w.Body)
        (delta' : Option (CachedDelta fl.F w.Body))
        → k ≡ suc r
        → n.revision ≡ k
        → Distinct (hashes fl n.torrents)
        → ((d : CachedDelta fl.F w.Body)
            → delta' ≡ some d
            → (delta ≡ some d) ⊎ ((p : Snapshot fl.F) × (prev ≡ some p) × (d.delta ≡ diff fl p n)))
        → Inv k (some (record { etag = etag; body = body; snapshot = n })) delta' (some n) held
    grow k n etag body delta' next at dn step = record {
      published = n ∷ inv.published;
      bounded = λ p i. elim i [
        | inl e ↦
            subst
              (λ (x : Snapshot fl.F).
                (1 ≤ x.revision) × (x.revision ≤ k) × Distinct (hashes fl x.torrents))
              (sym e) (omega (arith, at, next), omega (arith, at), dn)
        | inr j ↦ let (lo, hi, d) = inv.bounded p j in (lo, omega (arith, hi, next), d)
      ];
      once = λ p q i j e. elim i [
        | inl a ↦ elim j [ inl b ↦ a ∙ sym b | inr b ↦ absurd (newer n p q (at ∙ next) a b e) ]
        | inr a ↦ elim j [
          | inl b ↦ absurd (newer n q p (at ∙ next) b a (sym e))
          | inr b ↦ inv.once p q a b e
        ]
      ];
      cached = λ c e. inl (
          ap (λ (o : Option (Cached fl.F w.Body)). elim o [ none ↦ n | some x ↦ x.snapshot ])
            (sym e));
      diffed = λ d e. elim (step d e) [
        | inl old ↦ let (p, q, i, j, f) = inv.diffed d old in (p, q, inr i, inr j, f)
        | inr (p, i, f) ↦ (p, n, inr (inv.previous p i), inl refl, f)
      ];
      previous = λ p e. inl (sym (ap (λ o. unwrap_or o n) e));
      client = λ h e. elim (inv.client h e) [ inl z ↦ inl z | inr (p, i, m) ↦ inr (p, inr i, m) ];
    }

  abbrev pub IsCoherent : App fl w → Option (Snapshot fl.F) → Type 0
  IsCoherent s held = Inv s.revision s.cache s.delta_cache s.prev_snapshot held

  next_revision : (r : ℕ) → suc r < u64_mod → (r + 1) % u64_mod ≡ suc r
  next_revision r h = ground arith

  pub hashes-to_dtos :
      (raw : List RawTorrent) (hosts : Text → Text) (limits : Text → Option (ℤ × ℤ))
      → hashes fl (to_dtos fl raw hosts limits) ≡ raw_hashes raw
  unfolding to_dtos to_dto
  hashes-to_dtos [] hosts limits = refl
  hashes-to_dtos (t ∷ raw) hosts limits = ap (λ x. t.hash ∷ x) (hashes-to_dtos raw hosts limits)

  -- The new entry of the delta cache is the old one, or the difference to the new snapshot.
  next_delta_steps :
      (n : Snapshot fl.F) (tick : ℕ) (was_connected : Bool) (s : App fl w)
      (d : CachedDelta fl.F w.Body)
      → next_delta fl w n tick was_connected s ≡ some d
      → (s.delta_cache ≡ some d)
        ⊎ ((p : Snapshot fl.F) × (s.prev_snapshot ≡ some p) × (d.delta ≡ diff fl p n))
  unfolding next_delta
  next_delta_steps n tick was_connected s d e =
      elim (Bool-cases (is_none s.prev_snapshot || not was_connected || is_full_tick tick)) [
        | inl full ↦ ground (arith, e, full)
        | inr follows ↦ elim (Option-cases s.prev_snapshot) [
          | inl first ↦ inl (rw (next_delta, follows, first) at e)
          | inr (p, again) ↦ elim (Option-cases (w.delta_json (diff fl p n))) [
            | inl fails ↦ inl (rw (next_delta, follows, again, fails) at e)
            | inr (body, f) ↦ inr (
              p,
              again,
              sym (
                  ap
                    (λ (o : Option (CachedDelta fl.F w.Body)). elim o [
                      | none ↦ diff fl p n
                      | some x ↦ x.delta
                    ])
                    (rw (next_delta, follows, again, f) at e)),
            )
          ]
        ]
      ]

  pub publish-IsCoherent :
      (config : Config) (p : Poll) (tick : ℕ) (was_connected : Bool) (s : App fl w)
      (held : Option (Snapshot fl.F))
      → Distinct (raw_hashes p.raw)
      → suc s.revision < u64_mod
      → IsCoherent s held
      → IsCoherent (publish fl w config p tick was_connected s) held
  unfolding publish store assemble next_delta
  publish-IsCoherent config p tick was_connected s held dr fits inv =
      let rev = (s.revision + 1) % u64_mod in
      let n = assemble fl w config p rev s in
      elim (Option-cases (w.snapshot_json n)) [
        | inl fails ↦
            rw (publish, store, fails, next_revision s.revision fits)
              (bump s.revision s.cache s.delta_cache s.prev_snapshot held inv)
        | inr (body, f) ↦
            rw (publish, store, f)
              (grow s.revision s.cache s.delta_cache s.prev_snapshot held inv rev n (w.etag_of body)
                body (next_delta fl w n tick was_connected s) (next_revision s.revision fits) refl
                (rw (hashes-to_dtos p.raw (tracker_host s) (λ name. none)) dr)
                (next_delta_steps n tick was_connected s))
      ]

  pub set_disconnected-IsCoherent :
      (config : Config) (err : Text) (delay : ℕ) (s : App fl w) (held : Option (Snapshot fl.F))
      → suc s.revision < u64_mod
      → IsCoherent s held
      → IsCoherent (set_disconnected fl w config err delay s) held
  unfolding set_disconnected
  set_disconnected-IsCoherent config err delay s held fits inv =
      let rev = (s.revision + 1) % u64_mod in
      grow s.revision s.cache s.delta_cache s.prev_snapshot held inv rev
        (disconnected_snapshot fl w config err delay rev) _ _ none (next_revision s.revision fits)
        refl tt (λ d e. ground arith)
