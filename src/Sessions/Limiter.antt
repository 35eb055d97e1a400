-- ===== src/Sessions/Limiter.antt =====
-- The login rate limiter over a run of attempts from many addresses.
use rstorrent.Base.{
  ℕ, suc, ◌+◌, ◌-◌, ◌≤◌, ◌<◌, min, Text, text_beq, text_beq_iff, text_beq_refl, lookup, lookup-put,
  leb, if◌then◌else◌, true, false, some, List, [], ◌∷◌, ◌≡◌, ◌∙◌, ◌%◌, arith, All, Bool-cases, inl,
  inr,
}
use rstorrent.Sessions.{RateLimiter, allow, window_at, rate_window, rate_max}

-- How many attempts of an address a run allows, and how many it makes.
abbrev pub allowed : Text → RateLimiter → List (Text × ℕ) → ℕ
allowed ip m [] = 0
allowed ip m ((from, now) ∷ tries) =
    let (m', passed) = allow from now m in
    (if text_beq from ip then (if passed then 1 else 0) else 0) + allowed ip m' tries

abbrev pub attempts : Text → List (Text × ℕ) → ℕ
attempts ip [] = 0
attempts ip ((from, now) ∷ tries) = (if text_beq from ip then 1 else 0) + attempts ip tries

-- No attempt comes later than a window after `since`.
abbrev pub Within : Text → ℕ → List (Text × ℕ) → Type 0
Within ip since = All (λ a. text_beq a.0 ip ≡ true → a.1 - since ≤ rate_window)

allow_other :
    (ip from : Text) (now : ℕ) (m : RateLimiter)
    → text_beq from ip ≡ false
    → lookup (allow from now m).0 ip ≡ lookup m ip
unfolding allow
allow_other ip from now m e = ground (
  arith,
  lookup-put m from ip
      (((window_at (lookup m from) now).0 + 1) % 4294967296, (window_at (lookup m from) now).1),
)

allow_self :
    (ip : Text) (now n since : ℕ) (m : RateLimiter)
    → window_at (lookup m ip) now ≡ (n, since)
    → n + 1 < 4294967296
    → (lookup (allow ip now m).0 ip ≡ some (n + 1, since))
      × ((allow ip now m).1 ≡ leb (n + 1) rate_max)
unfolding allow
allow_self ip now n since m e b =
    let small : (n + 1) % 4294967296 ≡ n + 1 = omega arith in
    (rw (e, small) (lookup-put m ip ip (n + 1, since) ∙ rw text_beq_refl), rw (e, small))

allowed_window :
    (ip : Text) (tries : List (Text × ℕ)) (m : RateLimiter) (n since : ℕ)
    → lookup m ip ≡ some (n, since)
    → Within ip since tries
    → n + attempts ip tries < 4294967296
    → allowed ip m tries ≡ min (5 - n) (attempts ip tries)
allowed_window ip [] m n since e w b = omega arith
allowed_window ip ((from, now) ∷ tries) m n since e w b = elim (Bool-cases (text_beq from ip)) [
  | inl same ↦
      let p : from ≡ ip = (text_beq_iff from ip).0 same in
      let b' : n + suc (attempts ip tries) < 4294967296 = ground arith in
      let early : now - since ≤ rate_window = w.0 same in
      let opened : window_at (lookup m from) now ≡ (n, since) = ground arith in
      let (next, passed) = allow_self from now n since m opened (omega arith) in
      let rest =
        allowed_window ip tries (allow from now m).0 (n + 1) since (rw (← p) next) w.1
          (omega arith) in
      ground arith
  | inr differ ↦
      let rest =
        allowed_window ip tries (allow from now m).0 n since (allow_other ip from now m differ ∙ e)
          w.1 (ground arith) in
      ground arith
]

-- However many addresses try, and in whatever order: from an attempt of an address that opens a
-- window, on through every attempt that comes at most RATE_WINDOW later, the limiter lets through
-- exactly the first five of that address, or all where there are fewer (while the attempts fit the
-- `u32` that counts them).
pub allowed_exactly :
    (ip : Text) (first : ℕ) (tries : List (Text × ℕ)) (m : RateLimiter)
    → window_at (lookup m ip) first ≡ (0, first)
    → Within ip first tries
    → suc (attempts ip tries) < 4294967296
    → allowed ip m ((ip, first) ∷ tries) ≡ min 5 (suc (attempts ip tries))
allowed_exactly ip first tries m opened w b =
    let (next, passed) = allow_self ip first 0 first m opened (omega arith) in
    let rest = allowed_window ip tries (allow ip first m).0 1 first next w (omega arith) in
    ground (arith, text_beq_refl ip)
