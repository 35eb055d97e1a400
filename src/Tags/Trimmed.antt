-- ===== src/Tags/Trimmed.antt =====
-- What `trim` leaves stays as it is, under a cut at the end too.
use rstorrent.Base.{
  ℕ, zero, suc, ◌≤◌, Text, trim, trim_end, trim_start_by, trim_end_by, is_whitespace, all, filter,
  take, length, Bool, true, not, [], ◌∷◌, ◌≡◌, refl, ap, sym, ◌∙◌, arith,
}

-- Nothing to strip at the front.
abbrev pub starts_well : (ℕ → Bool) → Text → Bool
starts_well p [] = true
starts_well p (c ∷ s) = not (p c)

starts_well-trim_start_by : (p : ℕ → Bool) (s : Text) → starts_well p (trim_start_by p s) ≡ true
unfolding trim_start_by
starts_well-trim_start_by p [] = refl
starts_well-trim_start_by p (c ∷ s) = ground (arith, starts_well-trim_start_by p s)

starts_well-trim_end_by :
    (p q : ℕ → Bool) (s : Text) → starts_well p s ≡ true → starts_well p (trim_end_by q s) ≡ true
unfolding trim_end_by
starts_well-trim_end_by p q [] h = refl
starts_well-trim_end_by p q (c ∷ s) h = ground arith

pub starts_well-take :
    (p : ℕ → Bool) (n : ℕ) (s : Text) → starts_well p s ≡ true → starts_well p (take n s) ≡ true
starts_well-take p zero s h = refl
starts_well-take p (suc n) [] h = refl
starts_well-take p (suc n) (c ∷ s) h = h

trim_start_by_id : (p : ℕ → Bool) (s : Text) → starts_well p s ≡ true → trim_start_by p s ≡ s
unfolding trim_start_by
trim_start_by_id p [] h = refl
trim_start_by_id p (c ∷ s) h = ground arith

trim_end_by_idem : (p : ℕ → Bool) (s : Text) → trim_end_by p (trim_end_by p s) ≡ trim_end_by p s
unfolding trim_end_by
trim_end_by_idem p [] = refl
trim_end_by_idem p (c ∷ s) = ground (arith, trim_end_by_idem p s)

pub length-trim_end_by-le : (p : ℕ → Bool) (s : Text) → length (trim_end_by p s) ≤ length s
unfolding trim_end_by
length-trim_end_by-le p [] = omega arith
length-trim_end_by-le p (c ∷ s) = ground (arith, length-trim_end_by-le p s)

-- A property of each character survives every cut.
pub all-trim_end_by : (q p : ℕ → Bool) (s : Text) → all q s ≡ true → all q (trim_end_by p s) ≡ true
unfolding trim_end_by
all-trim_end_by q p [] h = refl
all-trim_end_by q p (c ∷ s) h = ground (arith, all-trim_end_by q p s)

all-trim_start_by : (q p : ℕ → Bool) (s : Text) → all q s ≡ true → all q (trim_start_by p s) ≡ true
unfolding trim_start_by
all-trim_start_by q p [] h = refl
all-trim_start_by q p (c ∷ s) h = ground (arith, all-trim_start_by q p s)

pub all-trim : (q : ℕ → Bool) (s : Text) → all q s ≡ true → all q (trim s) ≡ true
unfolding trim trim_end
all-trim q s h =
    all-trim_end_by q is_whitespace (trim_start_by is_whitespace s)
      (all-trim_start_by q is_whitespace s h)

pub all-take : (q : ℕ → Bool) (n : ℕ) (s : Text) → all q s ≡ true → all q (take n s) ≡ true
all-take q zero s h = refl
all-take q (suc n) [] h = refl
all-take q (suc n) (c ∷ s) h = ground (arith, all-take q n s)

pub all-filter : (q : ℕ → Bool) (s : Text) → all q (filter q s) ≡ true
all-filter q [] = refl
all-filter q (c ∷ s) = ground (arith, all-filter q s)

pub filter-all : (q : ℕ → Bool) (s : Text) → all q s ≡ true → filter q s ≡ s
filter-all q [] h = refl
filter-all q (c ∷ s) h = ground (arith, filter-all q s)

pub take_short : (n : ℕ) (s : Text) → length s ≤ n → take n s ≡ s
take_short zero [] h = refl
take_short zero (c ∷ s) h = absurd (omega arith)
take_short (suc n) [] h = refl
take_short (suc n) (c ∷ s) h = ap (λ t. c ∷ t) (take_short n s (omega arith))

pub starts_well-trim : (s : Text) → starts_well is_whitespace (trim s) ≡ true
unfolding trim trim_end
starts_well-trim s =
    starts_well-trim_end_by is_whitespace is_whitespace (trim_start_by is_whitespace s)
      (starts_well-trim_start_by is_whitespace s)

-- A text that begins well is trimmed once its end is.
pub trim-trim_end : (s : Text) → starts_well is_whitespace s ≡ true → trim (trim_end s) ≡ trim_end s
unfolding trim trim_end
trim-trim_end s h =
    ap (trim_end_by is_whitespace) (
      trim_start_by_id is_whitespace (trim_end_by is_whitespace s)
        (starts_well-trim_end_by is_whitespace is_whitespace s h))
    ∙ trim_end_by_idem is_whitespace s

pub trim_end-trimmed : (s : Text) → trim s ≡ s → trim_end s ≡ s
unfolding trim trim_end
trim_end-trimmed s h =
    ap (trim_end_by is_whitespace) (sym h)
    ∙ trim_end_by_idem is_whitespace (trim_start_by is_whitespace s)
    ∙ h
