-- ===== src/Sessions/Tests.antt =====
-- Runs of the session store and the limiter, and the theorems at concrete inputs.
use rstorrent.Base.{
  ℕ, Text, text_beq, text_beq_iff, pos, true, false, none, List, [], ◌∷◌, ◌≡◌, refl, codes, arith,
}
use rstorrent.Sessions.Limiter.{allowed, allowed_exactly}
use rstorrent.Sessions.Keeps.{create-with_store}
use rstorrent.Sessions.Restart.{
  Call, create_call, validate_call, revoke_call, run, revoke-with_store,
}
use rstorrent.Sessions.{Sessions, with_store, create, validate, revoke, sessions_program}

-- A stand-in for SHA-256.
abbrev tag : Text → Text
tag token = b'#' ∷ token

abbrev store : Sessions
store = record { tokens = []; last_persist = none; has_path = true; stored = [] }

validate-run :
    (validate tag (codes "t") (pos 5) 0 true (create tag (codes "t") (pos 4) 0 true store)).1 ≡ true
unfolding sessions_program
validate-run = refl

revoke-with_store_example :
    (validate tag (codes "t") (pos 9) 0 true (
      with_store
        (pos 8)
        (revoke tag
          (codes "t")
          7
          true
          (run tag (create_call (codes "t") (pos 4) 0 ∷ []) (with_store (pos 1) []))).stored)).1
    ≡ false
revoke-with_store_example =
    revoke-with_store tag (pos 1) [] (create_call (codes "t") (pos 4) 0 ∷ []) (codes "t") 7 0
      (pos 8) (pos 9) true (omega arith)

-- Another login, a request with each token, and a logout of the other.
abbrev busy : List Call
busy =
    create_call (codes "u") (pos 5) 1
    ∷ validate_call (codes "t") (pos 6) 2
    ∷ validate_call (codes "u") (pos 6) 3
    ∷ revoke_call (codes "u") 4
    ∷ []

other_token : tag (codes "u") ≡ tag (codes "t") → ⊥
unfolding text_beq
other_token e =
    let same : text_beq (tag (codes "u")) (tag (codes "t")) ≡ true =
      (text_beq_iff (tag (codes "u")) (tag (codes "t"))).1 e in
    cc

create-with_store_example :
    (validate tag
      (codes "t")
      (pos 9)
      0
      true
      (with_store (pos 8) (run tag busy (create tag (codes "t") (pos 4) 0 true store)).stored)).1
    ≡ true
unfolding sessions_program
create-with_store_example =
    create-with_store tag (codes "t") (pos 4) (pos 8) (pos 9) 0 0 true store busy refl
      (
        λ e. absurd (other_token e),
        (λ e. (omega arith, omega arith), (λ e. absurd (other_token e), (other_token, tt))),
      )
      (omega arith) (omega arith)

-- Seven attempts of one address within a second, and one of another between them.
abbrev burst : List (Text × ℕ)
burst =
    (codes "a", 10)
    ∷ (codes "b", 20)
    ∷ (codes "a", 30)
    ∷ (codes "a", 40)
    ∷ (codes "a", 50)
    ∷ (codes "a", 60)
    ∷ (codes "a", 70)
    ∷ []

allowed-burst : allowed (codes "a") [] ((codes "a", 0) ∷ burst) ≡ 5
unfolding sessions_program
allowed-burst = refl

allowed_exactly_example : allowed (codes "a") [] ((codes "a", 0) ∷ burst) ≡ 5
unfolding sessions_program
allowed_exactly_example = allowed_exactly (codes "a") 0 burst [] refl (omega arith) (omega arith)
