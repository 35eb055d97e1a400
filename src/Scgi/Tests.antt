-- ===== src/Scgi/Tests.antt =====
-- Runs of the frame and of the split, and the theorems at concrete inputs.
use rstorrent.Base.{Text, codes, text_beq, All, some, [], ◌∷◌, ◌++◌, ◌≡◌, refl}
use rstorrent.Scgi.Digits.{read_number}
use rstorrent.Scgi.Frame.{request_headers, read_frame, read_frame-build_frame}
use rstorrent.Scgi.Response.{IsLine}
use rstorrent.Scgi.{
  digits_from, to_string, headers, build_frame, find_bytes, body, protocol, split_cgi_body,
}

program : Unit {0}
unfolding text_beq digits_from to_string headers build_frame find_bytes split_cgi_body
program = tt

build_frame-abc :
    build_frame (codes "<a/>")
    ≡ codes "24:CONTENT_LENGTH" ++ 0 ∷ b'4' ∷ 0 ∷ (codes "SCGI" ++ 0 ∷ b'1' ∷ 0 ∷ codes ",<a/>")
unfolding program
build_frame-abc = refl

split_cgi_body-bare : split_cgi_body (codes "Status: 200" ++ 10 ∷ 10 ∷ codes "x") ≡ body (codes "x")
unfolding program
split_cgi_body-bare = refl

split_cgi_body-none : split_cgi_body (codes "Status: 200") ≡ protocol
unfolding program
split_cgi_body-none = refl

status_line : Text
status_line = codes "Status: 200 OK"

lines-IsLine : All IsLine (status_line ∷ [])
unfolding status_line
lines-IsLine = (record { full = refl; one = refl }, tt)

read_frame-build_frame_example :
    (read_frame (build_frame (codes "<a/>")) ≡ some (request_headers (codes "<a/>"), codes "<a/>"))
    × (read_number 0 (to_string 4) ≡ (4, []))
read_frame-build_frame_example = read_frame-build_frame (codes "<a/>")
