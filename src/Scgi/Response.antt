-- ===== src/Scgi/Response.antt =====
-- A response as the client reads it.
use rstorrent.Base.{
  ℕ, suc, ◌+◌, nat_beq, Text, text_beq, take, drop, all, is_empty, true, false, not, some, List, [],
  ◌∷◌, ◌++◌, All, ◌≡◌, refl, arith,
}
use rstorrent.Scgi.{find_bytes, body, split_cgi_body}

abbrev blank_line : Text
blank_line = 13 ∷ 10 ∷ 13 ∷ 10 ∷ []

-- A header line without its end.
pub record IsLine (line : Text) : Type 0 where
  pub full : is_empty line ≡ false
  pub one : all (λ c. not (nat_beq c 13)) line ≡ true

-- Lines with their ends, the blank line, and the body.
pub response : List Text → Text → Text
response [] request = 13 ∷ 10 ∷ request
response (line ∷ lines) request = line ++ 13 ∷ 10 ∷ response lines request

-- The blank line is found, and the body follows it.
record LeadsTo (s answer : Text) : Type 0 where
  pub at : ℕ
  pub found : find_bytes s blank_line ≡ some at
  pub rest : drop (at + 4) s ≡ answer

skip_one :
    (c : ℕ) (s answer : Text)
    → text_beq (take 4 (c ∷ s)) blank_line ≡ false
    → LeadsTo s answer
    → LeadsTo (c ∷ s) answer
unfolding find_bytes
skip_one c s answer other l = record {
  at = suc l.at;
  found = rw (other, l.found);
  rest = let e : suc l.at + 4 ≡ suc (l.at + 4) = omega arith in rw e l.rest;
}

skip_line :
    (line s answer : Text)
    → all (λ c. not (nat_beq c 13)) line ≡ true
    → LeadsTo s answer
    → LeadsTo (line ++ s) answer
unfolding text_beq
skip_line [] s answer h l = l
skip_line (c ∷ line) s answer h l =
    skip_one c (line ++ s) answer (ground arith) (skip_line line s answer (ground arith) l)

found_here : (answer : Text) → LeadsTo (13 ∷ 10 ∷ 13 ∷ 10 ∷ answer) answer
unfolding find_bytes text_beq
found_here answer = record { at = 0; found = refl; rest = refl }

-- The end of a line that another line follows.
skip_end :
    (d : ℕ) (s answer : Text)
    → nat_beq d 13 ≡ false
    → LeadsTo (d ∷ s) answer
    → LeadsTo (13 ∷ 10 ∷ d ∷ s) answer
unfolding text_beq
skip_end d s answer h l =
    skip_one 13 (10 ∷ d ∷ s) answer (ground arith) (skip_one 10 (d ∷ s) answer (ground arith) l)

response-LeadsTo :
    (line : Text) (lines : List Text) (answer : Text)
    → All IsLine (line ∷ lines)
    → LeadsTo (response (line ∷ lines) answer) answer
unfolding response
response-LeadsTo line [] answer h = skip_line line _ answer h.0.one (found_here answer)
response-LeadsTo line ([] ∷ lines) answer h = let full = h.1.0.full in ground (arith, full)
response-LeadsTo line ((d ∷ next) ∷ lines) answer h =
    let one = h.1.0.one in
    skip_line line _ answer h.0.one
      (skip_end d _ answer (ground (arith, one)) (response-LeadsTo (d ∷ next) lines answer h.1))

-- Of a response with header lines, each with its end, a blank line and a body, the client takes the
-- body, whatever bytes it has: a blank line in the body does not count.
pub split_cgi_body-response :
    (line : Text) (lines : List Text) (answer : Text)
    → All IsLine (line ∷ lines)
    → split_cgi_body (response (line ∷ lines) answer) ≡ body answer
unfolding split_cgi_body
split_cgi_body-response line lines answer h =
    let l = response-LeadsTo line lines answer h in rw (split_cgi_body, l.found, l.rest)
