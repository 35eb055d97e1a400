-- ===== src/Sessions/Restart.antt =====
-- The session store across a restart: what the file behind it brings back.
use rstorrent.Base.{
  ℕ, Text, text_beq_refl, lookup, ltb_ℤ, ℤ, Bool, true, false, none, some, List, [], ◌∷◌, ◌≡◌, refl,
  arith, ap, ◌∙◌, Option-cases, Bool-cases, inl, inr, ◌≤ℤ◌, lookup-put, put, is_some, is_empty,
}
use rstorrent.Sessions.Tokens.{live_at, validate-live_at, revoke-tokens}
use rstorrent.Sessions.{
  Sessions, due, persist, keep_live, with_store, create, validate, revoke, revoke_all,
}

keep_live-none :
    (now : ℤ) (m : List (Text × ℤ)) (key : Text)
    → lookup m key ≡ none
    → lookup (keep_live now m) key ≡ none
unfolding keep_live
keep_live-none now [] key e = refl
keep_live-none now ((k, expiry) ∷ m) key e = ground (arith, keep_live-none now m key)

pub keep_live-some :
    (now expiry : ℤ) (m : List (Text × ℤ)) (key : Text)
    → lookup m key ≡ some expiry
    → ltb_ℤ now expiry ≡ true
    → lookup (keep_live now m) key ≡ some expiry
unfolding keep_live
keep_live-some now expiry [] key e live = e
keep_live-some now expiry ((k, x) ∷ m) key e live = ground (arith, keep_live-some now expiry m key)

-- The calls that a server makes on its store, each with its clocks.
pub data Call : Type 0 where
  create_call validate_call : (token : Text) (now : ℤ) (at : ℕ) → Call
  revoke_call : (token : Text) (at : ℕ) → Call
  revoke_all_call : (at : ℕ) → Call

module _ (hash_token : Text → Text) where
  -- A run in which every write of the file succeeds.
  abbrev pub call : Call → Sessions → Sessions
  call (create_call token now at) s = create hash_token token now at true s
  call (validate_call token now at) s = (validate hash_token token now at true s).0
  call (revoke_call token at) s = revoke hash_token token at true s
  call (revoke_all_call at) s = revoke_all at true s

  abbrev pub run : List Call → Sessions → Sessions
  run [] s = s
  run (c ∷ calls) s = run calls (call c s)

keep_live-later :
    (t0 t1 : ℤ) (m : List (Text × ℤ)) (key : Text)
    → t0 ≤ℤ t1
    → lookup (keep_live t0 m) key ≡ none
    → lookup (keep_live t1 m) key ≡ none
unfolding keep_live
keep_live-later t0 t1 [] key le e = refl
keep_live-later t0 t1 ((k, expiry) ∷ m) key le e = ground (arith, keep_live-later t0 t1 m key le)

-- The store has a file, which holds nothing that lives at `start` of a key that the store has
-- dropped.
pub record IsCovered (start : ℤ) (s : Sessions) : Type 0 where
  pub path : s.has_path ≡ true
  pub covered :
      (key : Text) → lookup s.tokens key ≡ none → lookup (keep_live start s.stored) key ≡ none

module _ (hash_token : Text → Text) (start : ℤ) where
  persist-IsCovered :
      (at : ℕ) (s : Sessions) → s.has_path ≡ true → IsCovered start (persist at true s)
  unfolding persist
  persist-IsCovered at s p = record {
    path = p;
    covered = λ key e. rw p (keep_live-none start s.tokens key e);
  }

  slide-IsCovered :
      (s : Sessions) (key : Text) (expiry : ℤ)
      → IsCovered start s
      → IsCovered start (record s { tokens = put s.tokens key expiry })
  slide-IsCovered s key expiry c = record {
    path = c.path;
    covered = λ k e. c.covered k (ground (arith, lookup-put s.tokens key k expiry));
  }

  validate-IsCovered :
      (token : Text) (now : ℤ) (at : ℕ) (s : Sessions)
      → IsCovered start s
      → IsCovered start (validate hash_token token now at true s).0
  unfolding validate
  validate-IsCovered token now at s c = elim (Option-cases (lookup s.tokens (hash_token token))) [
    | inl e ↦ rw (e, validate) c
    | inr (expiry, e) ↦ elim (Bool-cases (ltb_ℤ now expiry)) [
      | inl ahead ↦ elim (Bool-cases (due hash_token s.last_persist at)) [
        | inl d ↦ rw (e, validate, ahead, d) (persist-IsCovered at _ c.path)
        | inr d ↦ rw (e, validate, ahead, d) (slide-IsCovered s _ _ c)
      ]
      | inr past ↦ rw (e, validate, past) (persist-IsCovered at _ c.path)
    ]
  ]

  revoke-IsCovered :
      (token : Text) (at : ℕ) (s : Sessions)
      → IsCovered start s
      → IsCovered start (revoke hash_token token at true s)
  unfolding revoke
  revoke-IsCovered token at s c = elim (Bool-cases (is_some (lookup s.tokens (hash_token token)))) [
    | inl e ↦ rw e (persist-IsCovered at _ c.path)
    | inr e ↦ rw e c
  ]

  revoke_all-IsCovered :
      (at : ℕ) (s : Sessions) → IsCovered start s → IsCovered start (revoke_all at true s)
  unfolding revoke_all
  revoke_all-IsCovered at s c = elim (Bool-cases (is_empty s.tokens)) [
    | inl e ↦ rw e c
    | inr e ↦ rw e (persist-IsCovered at _ c.path)
  ]

  call-IsCovered :
      (c : Call) (s : Sessions) → IsCovered start s → IsCovered start (call hash_token c s)
  unfolding create
  call-IsCovered (create_call token now at) s h = persist-IsCovered at _ h.path
  call-IsCovered (validate_call token now at) s h = validate-IsCovered token now at s h
  call-IsCovered (revoke_call token at) s h = revoke-IsCovered token at s h
  call-IsCovered (revoke_all_call at) s h = revoke_all-IsCovered at s h

  run-IsCovered :
      (calls : List Call) (s : Sessions)
      → IsCovered start s
      → IsCovered start (run hash_token calls s)
  run-IsCovered [] s h = h
  run-IsCovered (c ∷ calls) s h = run-IsCovered calls (call hash_token c s) (call-IsCovered c s h)

  with_store-IsCovered : (stored : List (Text × ℤ)) → IsCovered start (with_store start stored)
  unfolding with_store
  with_store-IsCovered stored = record { path = refl; covered = λ key e. e }

  -- A revoked token does not come back with a restart: over any run of calls of a server that
  -- started from any file, with every write succeeding, once the token is revoked a server that
  -- starts later from the file lets no request with it pass.
  pub revoke-with_store :
      (stored : List (Text × ℤ)) (calls : List Call) (token : Text) (at at' : ℕ) (again now : ℤ)
      (written : Bool)
      → start ≤ℤ again
      → (validate hash_token token now at' written (
          with_store again
            (revoke hash_token token at true
              (run hash_token calls (with_store start stored))).stored)).1
        ≡ false
  unfolding with_store
  revoke-with_store stored calls token at at' again now written le =
      let s = run hash_token calls (with_store start stored) in
      let c = revoke-IsCovered token at s (run-IsCovered calls _ (with_store-IsCovered stored)) in
      let gone : lookup (revoke hash_token token at true s).tokens (hash_token token) ≡ none =
        revoke-tokens hash_token token at true s (hash_token token) ∙ rw text_beq_refl in
      let absent =
        keep_live-later start again (revoke hash_token token at true s).stored (hash_token token) le
          (c.covered (hash_token token) gone) in
      validate-live_at hash_token token now at' written
        (with_store again (revoke hash_token token at true s).stored)
      ∙ ap (λ o. live_at o now) absent
