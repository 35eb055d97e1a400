-- ===== src/Complete/Journal.antt =====
-- complete.rs, `Journal`: the moves on record, and which torrents have one that needs work.
use rstorrent.Base.{
  Text, text_beq, eq_ignore_ascii_case, any, filter, find, ℤ, if◌then◌else◌, Bool, true, false, not,
  ◌&&◌, none, some, List, [], ◌∷◌, ◌++◌, ◌≡◌, refl, sym, arith, Bool-cases, Bool-ext, Option-cases,
  any-append, text_beq_iff, to_ascii_lowercase, inl, inr,
}

pub data MoveState : Type 0 where
  pending in_progress finished failed cancelled : MoveState

pub record MoveOp : Type 0 where
  pub id : Text
  pub hash : Text
  pub name : Text
  pub src : Text
  pub dst : Text
  pub state : MoveState
  pub error : Text
  pub size_bytes : ℤ
  pub created_at_ms : ℤ
  pub updated_at_ms : ℤ

abbrev pub Journal : Type 0
Journal = List MoveOp

abbrev pub resumable_state : MoveState → Bool
resumable_state pending = true
resumable_state in_progress = true
resumable_state failed = true
resumable_state _ = false

abbrev pub is_finished : MoveState → Bool
is_finished finished = true
is_finished _ = false

-- An entry for the hash that still needs work.
abbrev pub blocks : Text → MoveOp → Bool
blocks hash op = eq_ignore_ascii_case op.hash hash && resumable_state op.state

-- The journal, and the entry that the caller gets a reference to.
unfoldable pub add : MoveOp → Journal → Journal × MoveOp
add op ops = elim (find (blocks op.hash) ops) [
  | some old ↦ (ops, old)
  | none ↦ (ops ++ op ∷ [], op)
]

unfoldable pub resumable : Journal → List MoveOp
resumable ops = filter (λ op. resumable_state op.state) ops

unfoldable pub mark : Text → MoveState → Text → ℤ → Journal → Journal
mark id state error now_ms [] = []
mark id state error now_ms (op ∷ ops) =
    if text_beq op.id id
    then record op { state = state; error = error; updated_at_ms = now_ms } ∷ ops
    else op ∷ mark id state error now_ms ops

unfoldable pub prune_done : Journal → Journal
prune_done ops = filter (λ op. not (is_finished op.state)) ops

-- No two entries that need work are for one torrent, the case of the hash aside.
abbrev pub HasOneMove : Journal → Type 0
HasOneMove [] = Unit
HasOneMove (op ∷ ops) =
    (resumable_state op.state ≡ true → any (blocks op.hash) ops ≡ false) × HasOneMove ops

text_beq_comm : (s t : Text) → text_beq s t ≡ text_beq t s
text_beq_comm s t =
    Bool-ext (text_beq s t) (text_beq t s)
      (λ e. (text_beq_iff t s).1 (sym ((text_beq_iff s t).0 e)))
      (λ e. (text_beq_iff s t).1 (sym ((text_beq_iff t s).0 e)))

pub eq_ignore_ascii_case_comm : (s t : Text) → eq_ignore_ascii_case s t ≡ eq_ignore_ascii_case t s
unfolding eq_ignore_ascii_case
eq_ignore_ascii_case_comm s t = text_beq_comm (to_ascii_lowercase s) (to_ascii_lowercase t)

any-find : (p : MoveOp → Bool) (ops : Journal) → find p ops ≡ none → any p ops ≡ false
any-find p [] e = refl
any-find p (op ∷ ops) e = ground (arith, any-find p ops)

any-filter :
    (p q : MoveOp → Bool) (ops : Journal) → any p ops ≡ false → any p (filter q ops) ≡ false
any-filter p q [] e = refl
any-filter p q (op ∷ ops) e = ground (arith, any-filter p q ops)

pub filter-HasOneMove :
    (q : MoveOp → Bool) (ops : Journal) → HasOneMove ops → HasOneMove (filter q ops)
filter-HasOneMove q [] h = h
filter-HasOneMove q (op ∷ ops) h = elim (Bool-cases (q op)) [
  | inl e ↦ rw e (λ r. any-filter (blocks op.hash) q ops (h.0 r), filter-HasOneMove q ops h.1)
  | inr e ↦ rw e (filter-HasOneMove q ops h.1)
]

append-HasOneMove :
    (op : MoveOp) (ops : Journal)
    → any (blocks op.hash) ops ≡ false
    → HasOneMove ops
    → HasOneMove (ops ++ op ∷ [])
append-HasOneMove op [] e h = (λ r. refl, tt)
append-HasOneMove op (old ∷ ops) e h = (
  λ r. ground (
    arith,
    h.0 r,
    any-append (blocks old.hash) ops (op ∷ []),
    eq_ignore_ascii_case_comm old.hash op.hash,
  ),
  append-HasOneMove op ops (ground arith) h.1,
)

pub add-HasOneMove : (op : MoveOp) (ops : Journal) → HasOneMove ops → HasOneMove (add op ops).0
unfolding add
add-HasOneMove op ops h = elim (Option-cases (find (blocks op.hash) ops)) [
  | inl e ↦ rw (e, add) (append-HasOneMove op ops (any-find (blocks op.hash) ops e) h)
  | inr (old, e) ↦ rw (e, add) h
]

-- A mark that does not revive: where it sets a state that needs work, the entry needed work.
abbrev pub KeepsEnded : Text → MoveState → Journal → Type 0
KeepsEnded id state ops =
    (op : MoveOp)
    → find (λ o. text_beq o.id id) ops ≡ some op
    → resumable_state state ≡ true
    → resumable_state op.state ≡ true

any-mark :
    (hash id error : Text) (state : MoveState) (now_ms : ℤ) (ops : Journal)
    → KeepsEnded id state ops
    → any (blocks hash) ops ≡ false
    → any (blocks hash) (mark id state error now_ms ops) ≡ false
unfolding mark
any-mark hash id error state now_ms [] k e = refl
any-mark hash id error state now_ms (op ∷ ops) k e = elim (Bool-cases (text_beq op.id id)) [
  | inl same ↦
      let kept : resumable_state state ≡ true → resumable_state op.state ≡ true = k op (rw same) in
      rw same (ground arith)
  | inr other ↦
      let rest = any-mark hash id error state now_ms ops (λ o f. k o (rw other f)) (ground arith) in
      rw other (ground arith)
]

pub mark-HasOneMove :
    (id error : Text) (state : MoveState) (now_ms : ℤ) (ops : Journal)
    → KeepsEnded id state ops
    → HasOneMove ops
    → HasOneMove (mark id state error now_ms ops)
unfolding mark
mark-HasOneMove id error state now_ms [] k h = h
mark-HasOneMove id error state now_ms (op ∷ ops) k h = elim (Bool-cases (text_beq op.id id)) [
  | inl same ↦ rw same (λ r. h.0 (k op (rw same) r), h.1)
  | inr other ↦ rw other (
    λ r. any-mark op.hash id error state now_ms ops (λ o f. k o (rw other f)) (h.0 r),
    mark-HasOneMove id error state now_ms ops (λ o f. k o (rw other f)) h.1,
  )
]
