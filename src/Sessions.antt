-- ===== src/Sessions.antt =====
-- server/src/auth.rs: the session store of the web console, and the login rate limiter.
-- The SHA-256 of a token is a parameter, and so is the token that the random generator gives.
-- Clocks are arguments: `now` is the wall clock in milliseconds (an `i64`), `at` the monotonic one.

pub mod Tokens
pub mod Restart
pub mod Keeps
pub mod Limiter
mod Tests
use rstorrent.Base.{
  ℕ, suc, ◌+◌, ◌-◌, ◌%◌, ◌^◌, Text, text_beq, lookup, put, remove_key, length, filter, is_empty,
  is_some, ltb_ℤ, leb, ltb, ℤ, pos, add_i64, if◌then◌else◌, Bool, true, false, not, ◌&&◌, Option,
  none, some, List, [], ◌∷◌,
}

-- SESSION_TTL in milliseconds, and PERSIST_EVERY in milliseconds of the monotonic clock.
abbrev pub ttl_ms : ℤ
ttl_ms = pos 2592000000

abbrev pub persist_every : ℕ
persist_every = 300000

-- The store with the file behind it: `stored` is what the file holds, if the store has a path.
pub record Sessions : Type 0 where
  pub tokens : List (Text × ℤ)
  pub last_persist : Option ℕ
  pub has_path : Bool
  pub stored : List (Text × ℤ)

-- `persist`: the write goes to a temporary file that is renamed, so the file has the new text or
-- keeps the old; `written` says whether it succeeded.
unfoldable pub persist : ℕ → Bool → Sessions → Sessions
persist at written s = record s {
  last_persist = some at;
  stored = if s.has_path && written then s.tokens else s.stored;
}

-- `with_store`: what a restarted server holds, from the text of the file.
unfoldable pub keep_live : ℤ → List (Text × ℤ) → List (Text × ℤ)
keep_live now [] = []
keep_live now ((key, expiry) ∷ m) =
    if ltb_ℤ now expiry then (key, expiry) ∷ keep_live now m else keep_live now m

unfoldable pub with_store : ℤ → List (Text × ℤ) → Sessions
with_store now stored = record {
  tokens = keep_live now stored;
  last_persist = none;
  has_path = true;
  stored = stored;
}

module _ (hash_token : Text → Text) where
  unfoldable pub create : Text → ℤ → ℕ → Bool → Sessions → Sessions
  create token now at written s =
      persist at written
        (record s { tokens = put s.tokens (hash_token token) (add_i64 now ttl_ms) })

  -- `last_persist.is_none_or(|at| at.elapsed() >= PERSIST_EVERY)`.
  abbrev pub due : Option ℕ → ℕ → Bool
  due none at = true
  due (some last) at = leb persist_every (at - last)

  unfoldable pub validate : Text → ℤ → ℕ → Bool → Sessions → Sessions × Bool
  validate token now at written s =
      let key = hash_token token in
      elim (lookup s.tokens key) [
        | none ↦ (s, false)
        | some expiry ↦
            if ltb_ℤ now expiry
            then (let s' : Sessions = record s { tokens = put s.tokens key (add_i64 now ttl_ms) } in
                (if due s.last_persist at then persist at written s' else s', true))
            else (persist at written (record s { tokens = remove_key s.tokens key }), false)
      ]

  unfoldable pub revoke : Text → ℕ → Bool → Sessions → Sessions
  revoke token at written s =
      let key = hash_token token in
      if is_some (lookup s.tokens key)
      then persist at written (record s { tokens = remove_key s.tokens key })
      else s

unfoldable pub revoke_all : ℕ → Bool → Sessions → Sessions
revoke_all at written s =
    if not (is_empty s.tokens) then persist at written (record s { tokens = [] }) else s

unfoldable pub active : Sessions → ℕ
active s = length s.tokens

-- RATE_WINDOW in milliseconds, and RATE_MAX.
abbrev pub rate_window : ℕ
rate_window = 60000

abbrev pub rate_max : ℕ
rate_max = 5

abbrev pub RateLimiter : Type 0
RateLimiter = List (Text × (ℕ × ℕ))

-- `duration_since` answers zero where the clock stands before the window's start.
abbrev pub window_at : Option (ℕ × ℕ) → ℕ → ℕ × ℕ
window_at none now = (0, now)
window_at (some (tries, since)) now =
    if ltb rate_window (now - since) then (0, now) else (tries, since)

-- `allow`: the count is a `u32`.
unfoldable pub allow : Text → ℕ → RateLimiter → RateLimiter × Bool
allow ip now m =
    let (tries, since) = window_at (lookup m ip) now in
    let tries' = (tries + 1) % 4294967296 in (put m ip (tries', since), leb tries' rate_max)

unfoldable pub sessions_program : Unit {0}
unfolding persist keep_live with_store create validate revoke revoke_all active allow put remove_key
    text_beq add_i64
sessions_program = tt
