-- ===== src/ErrorKind/Wrap.antt =====
-- `classify` on a message and on one with more text around it, or in other letters.
use rstorrent.Base.{
  ℕ, ◌≤◌, codes, Text, trim, trim_end, trim_end_by, trim_start_by, is_empty, is_whitespace,
  ascii_lower, to_ascii_lowercase, eq_ignore_ascii_case, text_beq_iff, all, starts_with,
  contains_text, unwrap_or, subst, true, false, ◌&&◌, none, some, List, [], ◌∷◌, ◌++◌, map-append,
  ◌≡◌, ◌↔◌, inl, inr, refl, sym, ap, ◌∙◌, Bool-cases, arith,
}
use rstorrent.ErrorKind.{
  ErrorKind, unregistered, tracker_timeout, tracker_error, missing_files, no_space, permission,
  disk_error, other, contains_any, says_unregistered, says_no_space, says_permission, says_missing,
  says_not_opened, says_tracker, says_timeout, says_disk, says_file_failed, bucket, classify,
}

starts_with-append : (s q n : Text) → starts_with s n ≡ true → starts_with (s ++ q) n ≡ true
starts_with-append s q [] h = refl
starts_with-append [] q (c ∷ n) h = ground arith
starts_with-append (d ∷ s) q (c ∷ n) h = ground (arith, starts_with-append s q n)

contains-append : (s q n : Text) → contains_text s n ≡ true → contains_text (s ++ q) n ≡ true
unfolding contains_text
contains-append [] [] n h = h
contains-append [] (d ∷ q) [] h = refl
contains-append [] (d ∷ q) (c ∷ n) h = ground arith
contains-append (d ∷ s) q n h =
    ground (arith, starts_with-append (d ∷ s) q n, contains-append s q n)

contains-prepend : (p s n : Text) → contains_text s n ≡ true → contains_text (p ++ s) n ≡ true
unfolding contains_text
contains-prepend [] s n h = h
contains-prepend (d ∷ p) s n h = ground (arith, contains-prepend p s n)

abbrev pub wrapped : Text → Text → Text → Text
wrapped p s q = p ++ s ++ q

contains-wrapped :
    (p s q n : Text) → contains_text s n ≡ true → contains_text (wrapped p s q) n ≡ true
contains-wrapped p s q n h = contains-append (p ++ s) q n (contains-prepend p s n h)

any-wrapped :
    (p s q : Text) (needles : List Text)
    → contains_any s needles ≡ true
    → contains_any (wrapped p s q) needles ≡ true
unfolding contains_any
any-wrapped p s q [] h = h
any-wrapped p s q (n ∷ needles) h =
    ground (arith, contains-wrapped p s q n, any-wrapped p s q needles)

-- The order of the buckets: 0 is the most precise.
abbrev pub rank : ErrorKind → ℕ
rank unregistered = 0
rank no_space = 1
rank permission = 2
rank missing_files = 3
rank tracker_timeout = 4
rank tracker_error = 5
rank disk_error = 6
rank other = 7

lower-wrapped :
    (p s q : Text)
    → to_ascii_lowercase (wrapped p s q)
      ≡ wrapped (to_ascii_lowercase p) (to_ascii_lowercase s) (to_ascii_lowercase q)
unfolding to_ascii_lowercase
lower-wrapped p s q = rw (map-append, map-append)

says_unregistered-wrapped :
    (p s q : Text) → says_unregistered s ≡ true → says_unregistered (wrapped p s q) ≡ true
unfolding says_unregistered
says_unregistered-wrapped p s q = any-wrapped p s q _

says_no_space-wrapped :
    (p s q : Text) → says_no_space s ≡ true → says_no_space (wrapped p s q) ≡ true
unfolding says_no_space
says_no_space-wrapped p s q = any-wrapped p s q _

says_permission-wrapped :
    (p s q : Text) → says_permission s ≡ true → says_permission (wrapped p s q) ≡ true
unfolding says_permission
says_permission-wrapped p s q = any-wrapped p s q _

says_missing-wrapped : (p s q : Text) → says_missing s ≡ true → says_missing (wrapped p s q) ≡ true
unfolding says_missing
says_missing-wrapped p s q = any-wrapped p s q _

says_timeout-wrapped : (p s q : Text) → says_timeout s ≡ true → says_timeout (wrapped p s q) ≡ true
unfolding says_timeout
says_timeout-wrapped p s q = any-wrapped p s q _

says_disk-wrapped : (p s q : Text) → says_disk s ≡ true → says_disk (wrapped p s q) ≡ true
unfolding says_disk
says_disk-wrapped p s q = any-wrapped p s q _

says_not_opened-wrapped :
    (p s q : Text) → says_not_opened s ≡ true → says_not_opened (wrapped p s q) ≡ true
unfolding says_not_opened
says_not_opened-wrapped p s q h = ground (
  arith,
  contains-wrapped p s q (codes "could not open file"),
  contains-wrapped p s q (codes "couldn't open file"),
  contains-wrapped p s q (codes "failed to open"),
  contains-wrapped p s q (codes "open failed"),
)

says_file_failed-wrapped :
    (p s q : Text) → says_file_failed s ≡ true → says_file_failed (wrapped p s q) ≡ true
unfolding says_file_failed
says_file_failed-wrapped p s q h = ground (
  arith,
  contains-wrapped p s q (codes "file"),
  contains-wrapped p s q (codes "directory"),
  contains-wrapped p s q (codes "error"),
  contains-wrapped p s q (codes "failed"),
  contains-wrapped p s q (codes "failure"),
)

bucket-wrapped-le :
    (p s q : Text)
    → says_tracker (wrapped p s q) ≡ says_tracker s
    → rank (bucket (wrapped p s q)) ≤ rank (bucket s)
unfolding bucket
bucket-wrapped-le p s q same = ground (
  arith,
  says_unregistered-wrapped p s q,
  says_no_space-wrapped p s q,
  says_permission-wrapped p s q,
  says_missing-wrapped p s q,
  says_not_opened-wrapped p s q,
  says_timeout-wrapped p s q,
  says_disk-wrapped p s q,
  says_file_failed-wrapped p s q,
)

-- White space is no letter.
is_whitespace-lower : (c : ℕ) → is_whitespace (ascii_lower c) ≡ is_whitespace c
unfolding is_whitespace ascii_lower
is_whitespace-lower c = ground arith

trim_end_by-blank : (s : Text) → is_empty (trim_end_by is_whitespace s) ≡ all is_whitespace s
unfolding trim_end_by
trim_end_by-blank [] = refl
trim_end_by-blank (c ∷ s) = ground (arith, trim_end_by-blank s)

trim-blank : (s : Text) → is_empty (trim s) ≡ all is_whitespace s
unfolding trim trim_start_by trim_end
trim-blank [] = refl
trim-blank (c ∷ s) = elim (Bool-cases (is_whitespace c)) [
  | inl e ↦ rw (e) (trim-blank s)
  | inr e ↦ rw (e, trim_end_by-blank (c ∷ s), e)
]

-- The messages without a bucket are those of white space alone.
pub classify-none : (msg : Text) → (classify msg ≡ none) ↔ (all is_whitespace msg ≡ true)
unfolding classify
classify-none msg = ground (arith, trim-blank msg)

all-lower : (s : Text) → all is_whitespace (to_ascii_lowercase s) ≡ all is_whitespace s
unfolding to_ascii_lowercase
all-lower [] = refl
all-lower (c ∷ s) = rw (is_whitespace-lower c, all-lower s)

-- Two messages that are the same but for ASCII case have the same bucket, or both none.
pub classify_ascii_case : (a b : Text) → eq_ignore_ascii_case a b ≡ true → classify a ≡ classify b
unfolding classify eq_ignore_ascii_case
classify_ascii_case a b h =
    let e : to_ascii_lowercase a ≡ to_ascii_lowercase b =
      (text_beq_iff (to_ascii_lowercase a) (to_ascii_lowercase b)).0 h in
    rw (trim-blank a, trim-blank b, sym (all-lower a), sym (all-lower b), e)

all-append :
    (s t : Text) → all is_whitespace (s ++ t) ≡ (all is_whitespace s && all is_whitespace t)
all-append [] t = refl
all-append (c ∷ s) t = ground (arith, all-append s t)

wrapped-blank :
    (p s q : Text) → all is_whitespace s ≡ false → all is_whitespace (wrapped p s q) ≡ false
wrapped-blank p s q h = ground (arith, all-append (p ++ s) q, all-append p s)

-- More text around a message never makes its bucket less precise, in the order unregistered, no
-- space, permission, missing files, timeout, tracker error, disk error, other: a message with a
-- bucket has one with text before and after it, of the same rank or a lower one, unless the text
-- adds the word "tracker".
pub classify-wrapped-le :
    (p s q : Text) (k : ErrorKind)
    → says_tracker (to_ascii_lowercase (wrapped p s q)) ≡ says_tracker (to_ascii_lowercase s)
    → classify s ≡ some k
    → (k' : ErrorKind) × (classify (wrapped p s q) ≡ some k') × (rank k' ≤ rank k)
unfolding classify
classify-wrapped-le p s q k same e = elim (Bool-cases (all is_whitespace s)) [
  | inl blank ↦ ground (arith, e, (classify-none s).1 blank)
  | inr full ↦
      let lp = to_ascii_lowercase p in
      let ls = to_ascii_lowercase s in
      let lq = to_ascii_lowercase q in
      let full_class : classify s ≡ some (bucket ls) = rw (classify, trim-blank s, full) in
      let known : k ≡ bucket ls = ap (λ o. unwrap_or o k) (sym e ∙ full_class) in
      let le : rank (bucket (to_ascii_lowercase (wrapped p s q))) ≤ rank (bucket ls) =
        subst (λ x. rank (bucket x) ≤ rank (bucket ls)) (sym (lower-wrapped p s q))
          (bucket-wrapped-le lp ls lq (ap says_tracker (sym (lower-wrapped p s q)) ∙ same)) in
      (
        bucket (to_ascii_lowercase (wrapped p s q)),
        rw (classify, trim-blank (wrapped p s q), wrapped-blank p s q full),
        subst (λ x. rank (bucket (to_ascii_lowercase (wrapped p s q))) ≤ rank x) (sym known) le,
      )
]
