-- ===== src/Scgi.antt =====
-- crates/rtorrent/src/rtorrent/scgi.rs: the frame of a request, and the body of a response. A text
-- here is a list of bytes; the socket is not modelled.
pub mod Digits
pub mod Frame
pub mod Response
mod Tests
use rstorrent.Base.{
  ℕ, zero, suc, ◌+◌, ◌/◌, ◌%◌, ltb, Text, codes, text_beq, take, drop, length, if◌then◌else◌, Bool,
  Option, none, some, List, [], ◌∷◌, ◌++◌,
}

-- `to_string` of a `usize`: the digits of n, before those of the text, with the rounds left.
unfoldable pub digits_from : ℕ → ℕ → Text → Text
digits_from zero n text = text
digits_from (suc fuel) n text =
    let more = digits_from fuel (n / 10) ((48 + n % 10) ∷ text) in
    if ltb n 10 then (48 + n) ∷ text else more

-- A number has fewer digits than one more than itself.
unfoldable pub to_string : ℕ → Text
to_string n = digits_from (suc n) n []

unfoldable pub headers : Text → Text
headers body =
    codes "CONTENT_LENGTH"
    ++ 0 ∷ (to_string (length body) ++ 0 ∷ (codes "SCGI" ++ 0 ∷ b'1' ∷ 0 ∷ []))

unfoldable pub build_frame : Text → Text
build_frame body = to_string (length (headers body)) ++ b':' ∷ (headers body ++ b',' ∷ body)

-- `windows(needle.len()).position(|w| w == needle)`: the needle is not empty, and a
-- window that is cut short differs from it.
unfoldable pub find_bytes : Text → Text → Option ℕ
find_bytes [] needle = none
find_bytes (c ∷ rest) needle =
    if text_beq (take (length needle) (c ∷ rest)) needle
    then some 0
    else elim (find_bytes rest needle) [ none ↦ none | some at ↦ some (suc at) ]

pub data Body : Type 0 where
  body : Text → Body
  protocol : Body

unfoldable pub split_cgi_body : Text → Body
split_cgi_body raw = elim (find_bytes raw (13 ∷ 10 ∷ 13 ∷ 10 ∷ [])) [
  | some at ↦ body (drop (at + 4) raw)
  | none ↦ elim (find_bytes raw (10 ∷ 10 ∷ [])) [
    | some at ↦ body (drop (at + 2) raw)
    | none ↦ protocol
  ]
]
