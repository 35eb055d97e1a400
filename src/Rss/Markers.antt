-- ===== src/Rss/Markers.antt =====
-- The markers of episodes: the loop that strips them ends, and what counts as one.
use rstorrent.Base.{
  ℕ, zero, suc, ◌+◌, ◌-◌, ◌*◌, ◌≤◌, ◌<◌, min, leb, nat_beq, Text, text_beq, text_beq_refl,
  text_beq_iff, length, to_ascii_lowercase, true, false, none, some, [], ◌∷◌, ◌++◌, ◌≡◌, ◌≢◌, ◌⊎◌,
  inl, inr, refl, sym, ap, ◌∙◌, Bool-cases, Option-cases, arith,
}
use rstorrent.Rss.Episode.{
  u32_max, read_digits, read_num, skip_seps, number_after, Marker, marker_se, marker_x, marker,
  find_marker, parse_episode,
}
use rstorrent.Rss.Quality.{strip_episode, strip_rounds, strip_episodes}
use rstorrent.Scgi.Digits.{is_digit}

length-read_digits-le : (v : ℕ) (s : Text) → length (read_digits v s).1 ≤ length s
unfolding read_digits
length-read_digits-le v [] = omega arith
length-read_digits-le v (c ∷ s) =
    ground (arith, length-read_digits-le (min u32_max (min u32_max (v * 10) + (c - 48))) s)

read_num-lt : (s : Text) (n : ℕ) (r : Text) → read_num s ≡ some (n, r) → length r < length s
unfolding read_num read_digits
read_num-lt [] n r h = cc
read_num-lt (c ∷ s) n r h =
    ground (arith, h, length-read_digits-le (min u32_max (min u32_max (0 * 10) + (c - 48))) s)

length-skip_seps-le : (s : Text) → length (skip_seps s) ≤ length s
unfolding skip_seps
length-skip_seps-le [] = omega arith
length-skip_seps-le (c ∷ s) = ground (arith, length-skip_seps-le s)

number_after-lt :
    (l : ℕ) (s : Text) (n : ℕ) (r : Text)
    → number_after l s ≡ some (n, r)
    → suc (length r) < length s
unfolding number_after
number_after-lt l [] n r h = cc
number_after-lt l (c ∷ s) n r h = elim (Bool-cases (nat_beq c l)) [
  | inl e ↦
      let found : read_num s ≡ some (n, r) = ground (arith, h) in
      omega (arith, read_num-lt s n r found)
  | inr e ↦ ground (arith, h)
]

marker_se-lt : (s : Text) (m : Marker) → marker_se s ≡ some m → suc (length m.rest) < length s
unfolding marker_se
marker_se-lt s m h = elim (Option-cases (number_after b's' s)) [
  | inl e ↦ let nothing : marker_se s ≡ none = rw (marker_se, e) refl in cc
  | inr ((season, after), e) ↦ elim (Option-cases (number_after b'e' (skip_seps after))) [
    | inl e' ↦ let nothing : marker_se s ≡ none = rw (marker_se, e, e') refl in cc
    | inr ((episode, rest), e') ↦
        let found : marker_se s
            ≡ some (record { season = season; episode = episode; rest = rest }) =
          rw (marker_se, e, e') refl in
        let same : rest ≡ m.rest = cc in
        omega (
          arith,
          ap length same,
          number_after-lt b's' s season after e,
          length-skip_seps-le after,
          number_after-lt b'e' (skip_seps after) episode rest e',
        )
  ]
]

marker_x-lt : (s : Text) (m : Marker) → marker_x s ≡ some m → suc (length m.rest) < length s
unfolding marker_x
marker_x-lt s m h = elim (Option-cases (read_num s)) [
  | inl e ↦ let nothing : marker_x s ≡ none = rw (marker_x, e) refl in cc
  | inr ((season, after), e) ↦ elim (Option-cases (number_after b'x' after)) [
    | inl e' ↦ let nothing : marker_x s ≡ none = rw (marker_x, e, e') refl in cc
    | inr ((episode, rest), e') ↦ elim (Bool-cases (leb season 60)) [
      | inl small ↦
          let found : marker_x s
              ≡ some (record { season = season; episode = episode; rest = rest }) =
            rw (marker_x, e, e', small) refl in
          let same : rest ≡ m.rest = cc in
          omega (
            arith,
            ap length same,
            read_num-lt s season after e,
            number_after-lt b'x' after episode rest e',
          )
      | inr large ↦ let nothing : marker_x s ≡ none = rw (marker_x, e, e', large) refl in cc
    ]
  ]
]

marker-lt : (s : Text) (m : Marker) → marker s ≡ some m → suc (length m.rest) < length s
unfolding marker
marker-lt s m h = elim (Option-cases (marker_se s)) [
  | inl e ↦ marker_x-lt s m (sym (rw (marker, e) refl) ∙ h)
  | inr (m', e) ↦ marker_se-lt s m (e ∙ sym (rw (marker, e) refl) ∙ h)
]

strip_episode_same : (s : Text) → find_marker s ≡ none → strip_episode s ≡ s
unfolding find_marker strip_episode
strip_episode_same [] h = refl
strip_episode_same (c ∷ s) h = elim (Option-cases (marker (c ∷ s))) [
  | inl e ↦
      let absent : find_marker s ≡ none = sym (rw (find_marker, e) refl) ∙ h in
      rw (strip_episode, e, strip_episode_same s absent) refl
  | inr (m, e) ↦ let found : find_marker (c ∷ s) ≡ some m = rw (find_marker, e) refl in cc
]

-- Where a marker is left, stripping one makes the text shorter.
strip_episode_shorter : (s : Text) → (find_marker s ≡ none) ⊎ (length (strip_episode s) < length s)
unfolding find_marker strip_episode
strip_episode_shorter [] = inl refl
strip_episode_shorter (c ∷ s) = elim (Option-cases (marker (c ∷ s))) [
  | inl e ↦ elim (strip_episode_shorter s) [
    | inl absent ↦ inl (rw (find_marker, e, absent) refl)
    | inr shorter ↦ inr (rw (strip_episode, e) (omega (arith, shorter)))
  ]
  | inr (m, e) ↦ inr (rw (strip_episode, e) (omega (arith, marker-lt (c ∷ s) m e)))
]

strip_rounds-enough : (n : ℕ) (s : Text) → length s ≤ n → find_marker (strip_rounds n s) ≡ none
unfolding strip_rounds find_marker
strip_rounds-enough zero [] h = refl
strip_rounds-enough zero (c ∷ s) h = absurd (omega (arith, h))
strip_rounds-enough (suc n) s h = elim (strip_episode_shorter s) [
  | inl absent ↦ rw (strip_rounds, strip_episode_same s absent, text_beq_refl s) absent
  | inr shorter ↦ elim (Bool-cases (text_beq (strip_episode s) s)) [
    | inl e ↦
        let same : strip_episode s ≡ s = (text_beq_iff (strip_episode s) s).0 e in
        absurd (omega (arith, shorter, ap length same))
    | inr e ↦
        rw (strip_rounds, e) (strip_rounds-enough n (strip_episode s) (omega (arith, h, shorter)))
  ]
]

-- The loop that strips markers has rounds enough: it ends with a text in which there is none, which
-- one more round leaves as it is.
pub strip_episodes-find_marker :
    (s : Text)
    → (find_marker (strip_episodes s) ≡ none)
      × (strip_episode (strip_episodes s) ≡ strip_episodes s)
unfolding strip_episodes
strip_episodes-find_marker s =
    let absent : find_marker (strip_episodes s) ≡ none =
      strip_rounds-enough (length s) s (omega arith) in
    (absent, strip_episode_same (strip_episodes s) absent)

-- A digit, an `x` and a digit at the front of a text.
marker-digit :
    (d e : ℕ) (post : Text)
    → is_digit d ≡ true
    → is_digit e ≡ true
    → marker (d ∷ b'x' ∷ e ∷ post) ≢ none
unfolding marker marker_se marker_x read_num read_digits number_after
marker-digit d e post hd he =
    let not_s : nat_beq d b's' ≡ false = ground (arith, hd) in
    let small : leb (min u32_max (min u32_max 0 + (d - 48))) 60 ≡ true = ground (arith, hd) in
    rw (marker, marker_se, marker_x, number_after, read_num, read_digits, not_s, hd, he, small)
      (λ h. cc)

find_marker-append : (pre s : Text) → find_marker s ≢ none → find_marker (pre ++ s) ≢ none
unfolding find_marker
find_marker-append [] s h = h
find_marker-append (c ∷ pre) s h = elim (Option-cases (marker (c ∷ pre ++ s))) [
  | inl e ↦ rw (find_marker, e) (find_marker-append pre s h)
  | inr (m, e) ↦ rw (find_marker, e) (λ k. cc)
]

find_marker_first : (c : ℕ) (s : Text) → marker (c ∷ s) ≢ none → find_marker (c ∷ s) ≢ none
unfolding find_marker
find_marker_first c s h = elim (Option-cases (marker (c ∷ s))) [
  | inl e ↦ absurd (h e)
  | inr (m, e) ↦ rw (find_marker, e) (λ k. cc)
]

-- A title that has, case aside, a digit, an `x` and a digit in a row anywhere is read as an episode:
-- the bound of 60 on a season rejects no title, however large the number before the `x`.
pub parse_episode-digits :
    (title pre : Text) (d e : ℕ) (post : Text)
    → to_ascii_lowercase title ≡ pre ++ d ∷ b'x' ∷ e ∷ post
    → is_digit d ≡ true
    → is_digit e ≡ true
    → parse_episode title ≢ none
unfolding parse_episode find_marker
parse_episode-digits title pre d e post h hd he =
    elim (Option-cases (find_marker (to_ascii_lowercase title))) [
      | inl absent ↦ absurd (
          find_marker-append pre (d ∷ b'x' ∷ e ∷ post)
            (find_marker_first d (b'x' ∷ e ∷ post) (marker-digit d e post hd he))
            (sym (ap find_marker h) ∙ absent))
      | inr (m, found) ↦ rw (parse_episode, found) (λ k. cc)
    ]
