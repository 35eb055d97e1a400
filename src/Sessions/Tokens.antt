-- ===== src/Sessions/Tokens.antt =====
-- What a token is worth after each operation of the session store.
use rstorrent.Base.{
  ℕ, Text, text_beq, text_beq_iff, text_beq_refl, lookup, lookup-put, lookup-remove_key, ltb_ℤ, ℤ,
  add_i64, if◌then◌else◌, Bool, false, not, ◌&&◌, Option, none, some, List, [], ◌∷◌, ◌≡◌, refl,
  arith,
}
use rstorrent.Sessions.{Sessions, ttl_ms, persist, create, validate, revoke, revoke_all}

-- An expiry that lies ahead.
abbrev pub live_at : Option ℤ → ℤ → Bool
live_at none now = false
live_at (some expiry) now = ltb_ℤ now expiry

pub persist-tokens :
    (at : ℕ) (written : Bool) (s : Sessions) → (persist at written s).tokens ≡ s.tokens
unfolding persist
persist-tokens at written s = refl

module _ (hash_token : Text → Text) where
  -- A request passes if the store holds an expiry for the token's hash that lies ahead.
  pub validate-live_at :
      (token : Text) (now : ℤ) (at : ℕ) (written : Bool) (s : Sessions)
      → (validate hash_token token now at written s).1
        ≡ live_at (lookup s.tokens (hash_token token)) now
  unfolding validate
  validate-live_at token now at written s = ground arith

  pub create-tokens :
      (token : Text) (now : ℤ) (at : ℕ) (written : Bool) (s : Sessions) (key : Text)
      → lookup (create hash_token token now at written s).tokens key ≡ (
          if text_beq (hash_token token) key
          then some (add_i64 now ttl_ms)
          else lookup s.tokens key)
  unfolding create persist
  create-tokens token now at written s key =
      lookup-put s.tokens (hash_token token) key (add_i64 now ttl_ms)

  -- A validation slides the expiry of a live token, drops a token past its expiry, and leaves the
  -- others.
  pub validate-tokens :
      (token : Text) (now : ℤ) (at : ℕ) (written : Bool) (s : Sessions) (key : Text)
      → lookup (validate hash_token token now at written s).0.tokens key ≡ (
          if text_beq (hash_token token) key
          then (if live_at (lookup s.tokens (hash_token token)) now
              then some (add_i64 now ttl_ms)
              else none)
          else lookup s.tokens key)
  unfolding validate persist
  validate-tokens token now at written s key = ground (
    arith,
    lookup-put s.tokens (hash_token token) key (add_i64 now ttl_ms),
    lookup-remove_key s.tokens (hash_token token) key,
    text_beq_iff (hash_token token) key,
    text_beq_iff key (hash_token token),
  )

  pub revoke-tokens :
      (token : Text) (at : ℕ) (written : Bool) (s : Sessions) (key : Text)
      → lookup (revoke hash_token token at written s).tokens key
        ≡ (if text_beq (hash_token token) key then none else lookup s.tokens key)
  unfolding revoke persist
  revoke-tokens token at written s key = ground (
    arith,
    lookup-remove_key s.tokens (hash_token token) key,
    text_beq_iff (hash_token token) key,
    text_beq_iff key (hash_token token),
  )

  -- A minted token passes exactly until its lifetime is over, whatever the store held before.
  pub create-validate :
      (token : Text) (now later : ℤ) (at at' : ℕ) (written written' : Bool) (s : Sessions)
      → (validate hash_token token later at' written' (create hash_token token now at written s)).1
        ≡ ltb_ℤ later (add_i64 now ttl_ms)
  create-validate token now later at at' written written' s = ground (
    arith,
    validate-live_at token later at' written' (create hash_token token now at written s),
    create-tokens token now at written s (hash_token token),
    text_beq_refl (hash_token token),
  )

  -- The expiry slides: after a request at `now` the token passes at `later` exactly if it passed
  -- at `now` and `later` lies within a lifetime of `now`.
  pub validate-validate :
      (token : Text) (now later : ℤ) (at at' : ℕ) (written written' : Bool) (s : Sessions)
      → (validate hash_token token later at' written'
          (validate hash_token token now at written s).0).1
        ≡ ((validate hash_token token now at written s).1 && ltb_ℤ later (add_i64 now ttl_ms))
  validate-validate token now later at at' written written' s = ground (
    arith,
    validate-live_at token later at' written' (validate hash_token token now at written s).0,
    validate-live_at token now at written s,
    validate-tokens token now at written s (hash_token token),
    text_beq_refl (hash_token token),
  )

  -- After `revoke` no request with a token of the same hash passes, and every other token passes
  -- exactly as it did.
  pub revoke-validate :
      (token other : Text) (now : ℤ) (at at' : ℕ) (written written' : Bool) (s : Sessions)
      → (validate hash_token other now at' written' (revoke hash_token token at written s)).1 ≡ (
          not (text_beq (hash_token token) (hash_token other))
          && (validate hash_token other now at' written' s).1)
  revoke-validate token other now at at' written written' s = ground (
    arith,
    validate-live_at other now at' written' (revoke hash_token token at written s),
    validate-live_at other now at' written' s,
    revoke-tokens token at written s (hash_token other),
  )

pub revoke_all-tokens :
    (at : ℕ) (written : Bool) (s : Sessions) → (revoke_all at written s).tokens ≡ []
unfolding revoke_all persist
revoke_all-tokens at written s = go s.tokens refl
  where
    go : (m : List (Text × ℤ)) → s.tokens ≡ m → (revoke_all at written s).tokens ≡ []
    go [] e = rw e
    go (x ∷ m) e = rw e

-- After `revoke_all` no request passes.
pub revoke_all-validate :
    (hash_token : Text → Text) (token : Text) (now : ℤ) (at at' : ℕ) (written written' : Bool)
    (s : Sessions)
    → (validate hash_token token now at' written' (revoke_all at written s)).1 ≡ false
revoke_all-validate hash_token token now at at' written written' s = ground (
  arith,
  validate-live_at hash_token token now at' written' (revoke_all at written s),
  revoke_all-tokens at written s,
)
