-- ===== src/Sessions/Keeps.antt =====
-- A minted token over the calls that follow, and over a restart.
use rstorrent.Base.{
  ℕ, Text, text_beq, text_beq_iff, text_beq_refl, lookup, lookup-put, put, lookup-remove_key,
  remove_key, text_beq_ne, ltb_ℤ, ◌≤ℤ◌, ◌<ℤ◌, ℤ, add_i64, is_some, Bool, true, some, List, [], ◌∷◌,
  ◌≡◌, inl, inr, refl, sym, ap, ◌∙◌, Bool-cases, Option-cases, arith,
}
use rstorrent.Sessions.Restart.{
  Call, create_call, validate_call, revoke_call, revoke_all_call, call, run, keep_live-some,
}
use rstorrent.Sessions.Tokens.{live_at, validate-live_at}
use rstorrent.Sessions.{Sessions, due, ttl_ms, persist, with_store, create, validate, revoke}

module _ (hash_token : Text → Text) (token : Text) (expiry : ℤ) where
  -- The call does not end the token's lifetime before `expiry`: it is no revocation of all or of a
  -- token with its hash, and a minting or a request with a token of its hash is at a time from which
  -- a lifetime lasts as long, the request before `expiry`.
  abbrev pub Spares : Call → Type 0
  Spares (create_call other now at) =
      hash_token other ≡ hash_token token → expiry ≤ℤ add_i64 now ttl_ms
  Spares (validate_call other now at) =
      hash_token other ≡ hash_token token → (now <ℤ expiry) × (expiry ≤ℤ add_i64 now ttl_ms)
  Spares (revoke_call other at) = hash_token other ≡ hash_token token → ⊥
  Spares (revoke_all_call at) = ⊥

  abbrev pub AllSpare : List Call → Type 0
  AllSpare [] = Unit
  AllSpare (c ∷ calls) = Spares c × AllSpare calls

  -- The token lives until `expiry` at least.
  abbrev Lasts : List (Text × ℤ) → Type 0
  Lasts m = (end : ℤ) × (lookup m (hash_token token) ≡ some end) × (expiry ≤ℤ end)

  record IsHeld (s : Sessions) : Type 0 where
    pub path : s.has_path ≡ true
    pub tokens : Lasts s.tokens
    pub stored : Lasts s.stored

  persist-IsHeld :
      (at : ℕ) (s : Sessions) → s.has_path ≡ true → Lasts s.tokens → IsHeld (persist at true s)
  unfolding persist
  persist-IsHeld at s p (end, found, le) = record {
    path = p;
    tokens = (end, found, le);
    stored = (end, rw p found, le);
  }

  put-Lasts :
      (m : List (Text × ℤ)) (key : Text) (end : ℤ)
      → Lasts m
      → (key ≡ hash_token token → expiry ≤ℤ end)
      → Lasts (put m key end)
  put-Lasts m key end (end', found, le) later =
      elim (Bool-cases (text_beq key (hash_token token))) [
        | inl e ↦ (
          end,
          lookup-put m key (hash_token token) end ∙ rw (e) refl,
          later ((text_beq_iff key (hash_token token)).0 e),
        )
        | inr e ↦ (end', lookup-put m key (hash_token token) end ∙ rw (e) found, le)
      ]

  remove-Lasts :
      (m : List (Text × ℤ)) (key : Text)
      → Lasts m
      → (key ≡ hash_token token → ⊥)
      → Lasts (remove_key m key)
  remove-Lasts m key (end, found, le) other = (
    end,
    lookup-remove_key m key (hash_token token)
        ∙ rw (text_beq_ne (hash_token token) key (λ e. other (sym e))) found,
    le,
  )

  create-IsHeld :
      (other : Text) (now : ℤ) (at : ℕ) (s : Sessions)
      → s.has_path ≡ true
      → Lasts (put s.tokens (hash_token other) (add_i64 now ttl_ms))
      → IsHeld (create hash_token other now at true s)
  unfolding create
  create-IsHeld other now at s p lasts =
      persist-IsHeld at (record s { tokens = put s.tokens (hash_token other) (add_i64 now ttl_ms) })
        p lasts

  validate-IsHeld :
      (other : Text) (now : ℤ) (at : ℕ) (s : Sessions)
      → Spares (validate_call other now at)
      → IsHeld s
      → IsHeld (validate hash_token other now at true s).0
  unfolding validate
  validate-IsHeld other now at s spares held =
      elim (Option-cases (lookup s.tokens (hash_token other))) [
        | inl e ↦ rw (e, validate) held
        | inr (end, e) ↦ elim (Bool-cases (ltb_ℤ now end)) [
          | inl ahead ↦
              let lasts =
                put-Lasts s.tokens (hash_token other) (add_i64 now ttl_ms) held.tokens
                  (λ same. (spares same).1) in
              elim (Bool-cases (due hash_token s.last_persist at)) [
                | inl d ↦ rw (e, validate, ahead, d) (persist-IsHeld at _ held.path lasts)
                | inr d ↦
                    rw (e, validate, ahead, d)
                      (record { path = held.path; tokens = lasts; stored = held.stored })
              ]
          | inr past ↦
              let (end', found, le) = held.tokens in
              rw (e, validate, past)
                (persist-IsHeld at _ held.path (
                  remove-Lasts s.tokens (hash_token other) held.tokens (λ same.
                    let own : some end ≡ some end' = sym e ∙ ap (lookup s.tokens) same ∙ found in
                    let ends : end ≡ end' = cc in
                    let before : now <ℤ expiry = (spares same).0 in
                    ground (arith, past, ends, le, before))))
        ]
      ]

  revoke-IsHeld :
      (other : Text) (at : ℕ) (s : Sessions)
      → (hash_token other ≡ hash_token token → ⊥)
      → IsHeld s
      → IsHeld (revoke hash_token other at true s)
  unfolding revoke
  revoke-IsHeld other at s spares held =
      elim (Bool-cases (is_some (lookup s.tokens (hash_token other)))) [
        | inl e ↦
            rw (revoke, e)
              (persist-IsHeld at _ held.path
                (remove-Lasts s.tokens (hash_token other) held.tokens spares))
        | inr e ↦ rw (revoke, e) held
      ]

  call-IsHeld : (c : Call) (s : Sessions) → Spares c → IsHeld s → IsHeld (call hash_token c s)
  call-IsHeld (create_call other now at) s spares held =
      create-IsHeld other now at s held.path
        (put-Lasts s.tokens (hash_token other) (add_i64 now ttl_ms) held.tokens spares)
  call-IsHeld (validate_call other now at) s spares held =
      validate-IsHeld other now at s spares held
  call-IsHeld (revoke_call other at) s spares held = revoke-IsHeld other at s spares held
  call-IsHeld (revoke_all_call at) s spares held = absurd spares

  run-IsHeld :
      (calls : List Call) (s : Sessions)
      → AllSpare calls
      → IsHeld s
      → IsHeld (run hash_token calls s)
  run-IsHeld [] s spares held = held
  run-IsHeld (c ∷ calls) s spares held =
      run-IsHeld calls (call hash_token c s) spares.1 (call-IsHeld c s spares.0 held)

ends_now : (a : ℤ) → a ≤ℤ a
ends_now a = omega arith

minted-IsHeld :
    (hash_token : Text → Text) (token : Text) (now : ℤ) (at : ℕ) (s : Sessions)
    → s.has_path ≡ true
    → IsHeld hash_token token (add_i64 now ttl_ms) (create hash_token token now at true s)
minted-IsHeld hash_token token now at s p =
    create-IsHeld hash_token token (add_i64 now ttl_ms) token now at s p (
      add_i64 now ttl_ms,
      lookup-put s.tokens (hash_token token) (hash_token token) (add_i64 now ttl_ms)
          ∙ rw (text_beq_refl (hash_token token)) refl,
      ends_now (add_i64 now ttl_ms),
    )

-- A login survives a restart. A token is minted under a store with a file; any calls follow, of
-- which none revokes all tokens or one with its hash, and in which each minting or request with a
-- token of its hash is at a time from which a lifetime lasts no less long, the request within the
-- first lifetime; and every write succeeds. Then a server that starts from the file lets a request
-- with the token pass at any later time within the lifetime that the token was minted with.
pub create-with_store :
    (hash_token : Text → Text) (token : Text) (now again later : ℤ) (at at' : ℕ) (written : Bool)
    (s : Sessions) (calls : List Call)
    → s.has_path ≡ true
    → AllSpare hash_token token (add_i64 now ttl_ms) calls
    → again ≤ℤ later
    → later <ℤ add_i64 now ttl_ms
    → (validate hash_token token later at' written
        (with_store again (run hash_token calls (create hash_token token now at true s)).stored)).1
      ≡ true
unfolding with_store
create-with_store hash_token token now again later at at' written s calls p spare le lt =
    let minted = create hash_token token now at true s in
    let held =
      run-IsHeld hash_token token (add_i64 now ttl_ms) calls minted spare
        (minted-IsHeld hash_token token now at s p) in
    let (end, found, longer) = held.stored in
    let kept =
      keep_live-some again end (run hash_token calls minted).stored (hash_token token) found
        (ground (arith, le, lt, longer)) in
    validate-live_at hash_token token later at' written
      (with_store again (run hash_token calls minted).stored)
    ∙ ap (λ o. live_at o later) kept
    ∙ ground (arith, lt, longer)
