-- ===== src/Scgi/Frame.antt =====
-- A request as a server reads it.
use rstorrent.Base.{
  ℕ, nat_beq, Text, codes, take, drop, length, all, if◌then◌else◌, true, false, not, Option, none,
  some, List, [], ◌∷◌, ◌++◌, append_assoc, append-nil, ◌≡◌, refl, ap, ◌∙◌, arith,
}
use rstorrent.Scgi.Digits.{
  is_digit, read_number, read_number-to_string, read_number-to_string_all, all-to_string,
}
use rstorrent.Scgi.{to_string, headers, build_frame}

-- The parts that a zero byte ends.
pub parts : Text → Text → List Text
parts acc [] = []
parts acc (c ∷ s) = if nat_beq c 0 then acc ∷ parts [] s else parts (acc ++ c ∷ []) s

-- The headers of a netstring, and what follows it.
netstring : ℕ × Text → Option (List Text × Text)
netstring (n, []) = none
netstring (n, colon ∷ rest) =
    if nat_beq colon b':'
    then elim (drop n rest) [
      | [] ↦ none
      | comma ∷ request ↦
          if nat_beq comma b',' then some (parts [] (take n rest), request) else none
    ]
    else none

pub read_frame : Text → Option (List Text × Text)
read_frame frame = netstring (read_number 0 frame)

parts-append :
    (acc part rest : Text)
    → all (λ c. not (nat_beq c 0)) part ≡ true
    → parts acc (part ++ 0 ∷ rest) ≡ (acc ++ part) ∷ parts [] rest
unfolding parts
parts-append acc [] rest h = rw append-nil
parts-append acc (c ∷ part) rest h =
    let visible : nat_beq c 0 ≡ false = ground arith in
    rw visible
      (parts-append (acc ++ c ∷ []) part rest (ground arith) ∙ rw (append_assoc acc (c ∷ []) part))

digits-visible : (s : Text) → all is_digit s ≡ true → all (λ c. not (nat_beq c 0)) s ≡ true
digits-visible [] h = refl
digits-visible (c ∷ s) h = ground (arith, digits-visible s)

take-append : (s t : Text) → take (length s) (s ++ t) ≡ s
take-append [] t = refl
take-append (c ∷ s) t = ap (λ r. c ∷ r) (take-append s t)

drop-append : (s t : Text) → drop (length s) (s ++ t) ≡ t
drop-append [] t = refl
drop-append (c ∷ s) t = drop-append s t

abbrev pub request_headers : Text → List Text
request_headers request =
    codes "CONTENT_LENGTH" ∷ to_string (length request) ∷ codes "SCGI" ∷ codes "1" ∷ []

parts-headers : (request : Text) → parts [] (headers request) ≡ request_headers request
unfolding headers
parts-headers request =
    parts-append [] (codes "CONTENT_LENGTH") _ refl
    ∙ ap (λ l. codes "CONTENT_LENGTH" ∷ l)
        (parts-append [] (to_string (length request)) _
            (digits-visible (to_string (length request)) (all-to_string (length request)))
          ∙ ap (λ l. to_string (length request) ∷ l) (unfold parts in refl))

-- A server that reads the frame of a request finds the two headers that the protocol wants, the
-- length of the request among them, and the request byte for byte, whatever bytes it has.
pub read_frame-build_frame :
    (request : Text)
    → (read_frame (build_frame request) ≡ some (request_headers request, request))
      × (read_number 0 (to_string (length request)) ≡ (length request, []))
unfolding read_frame netstring build_frame
read_frame-build_frame request = (
  ap netstring (
        read_number-to_string (length (headers request)) b':' (headers request ++ b',' ∷ request)
          refl)
      ∙ rw (
        netstring,
        drop-append (headers request) (b',' ∷ request),
        take-append (headers request) (b',' ∷ request),
        parts-headers request,
      ),
  read_number-to_string_all (length request),
)
