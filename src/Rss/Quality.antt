-- ===== src/Rss/Quality.antt =====
-- crates/rtorrent/src/rss.rs: the score of a release and the key that groups releases of an episode.
use rstorrent.Base.{
  ℕ, zero, suc, ◌+◌, ◌-◌, leb, Text, codes, text_beq, is_whitespace, starts_with, contains_text,
  length, map, if◌then◌else◌, Bool, true, false, ◌&&◌, ◌||◌, none, some, List, [], ◌∷◌, ◌++◌,
}
use rstorrent.ErrorKind.{contains_any}
use rstorrent.Rss.Episode.{marker}
use rstorrent.Scgi.Digits.{is_digit}

abbrev pub resolution : Text → ℕ
resolution s =
    if contains_any s (codes "2160p" ∷ codes "4k" ∷ [])
    then 400
    else (if contains_text s (codes "1080p")
        then 300
        else (if contains_text s (codes "720p")
            then 200
            else (if contains_text s (codes "480p") then 100 else 0)))

abbrev pub source : Text → ℕ
source s =
    if contains_any s (codes "bluray" ∷ codes "bdremux" ∷ codes "remux" ∷ [])
    then 30
    else (if contains_any s (codes "web-dl" ∷ codes "webdl" ∷ codes "webrip" ∷ codes " web " ∷ [])
        then 20
        else (if contains_text s (codes "hdtv")
            then 10
            else (if contains_any s (codes "dvdrip" ∷ codes "dvd" ∷ []) then 5 else 0)))

unfoldable pub quality_score : (Text → Text) → Text → ℕ
quality_score lower title = resolution (lower title) + source (lower title)

-- `regex_strip_episode`: the first marker becomes a space.
unfoldable pub strip_episode : Text → Text
strip_episode [] = []
strip_episode (c ∷ s) = elim (marker (c ∷ s)) [
  | some m ↦ b' ' ∷ m.rest
  | none ↦ c ∷ strip_episode s
]

-- The loop of `episode_key`, on as many rounds as it is given.
unfoldable pub strip_rounds : ℕ → Text → Text
strip_rounds zero s = s
strip_rounds (suc n) s = elim (text_beq (strip_episode s) s) [
  | true ↦ s
  | false ↦ strip_rounds n (strip_episode s)
]

unfoldable pub strip_episodes : Text → Text
strip_episodes s = strip_rounds (length s) s

-- `replace(token, " ")`; the number counts characters of a token that is replaced already.
unfoldable pub replace_from : ℕ → Text → Text → Text
replace_from n token [] = []
replace_from (suc n) token (c ∷ s) = replace_from n token s
replace_from zero token (c ∷ s) = elim (starts_with (c ∷ s) token) [
  | true ↦ b' ' ∷ replace_from (length token - 1) token s
  | false ↦ c ∷ replace_from zero token s
]

unfoldable pub replace_all : List Text → Text → Text
replace_all [] s = s
replace_all (token ∷ tokens) s = replace_all tokens (replace_from 0 token s)

abbrev pub noise : List Text
noise =
    codes "2160p"
    ∷ codes "1080p"
    ∷ codes "720p"
    ∷ codes "480p"
    ∷ codes "360p"
    ∷ codes "4k"
    ∷ codes "bluray"
    ∷ codes "bdremux"
    ∷ codes "remux"
    ∷ codes "web-dl"
    ∷ codes "webdl"
    ∷ codes "webrip"
    ∷ codes "hdtv"
    ∷ codes "dvdrip"
    ∷ codes "dvd"
    ∷ codes "x264"
    ∷ codes "x265"
    ∷ codes "h264"
    ∷ codes "h265"
    ∷ codes "hevc"
    ∷ codes "aac"
    ∷ codes "dts"
    ∷ codes "proper"
    ∷ codes "repack"
    ∷ []

abbrev pub is_alphanumeric : ℕ → Bool
is_alphanumeric c = is_digit c || (leb b'a' c && leb c b'z') || (leb b'A' c && leb c b'Z')

abbrev pub flush : Text → List Text → List Text
flush [] words = words
flush (c ∷ s) words = (c ∷ s) ∷ words

-- `split_whitespace`, with the word so far, and `join`.
unfoldable pub words_from : Text → Text → List Text
words_from word [] = flush word []
words_from word (c ∷ s) =
    if is_whitespace c then flush word (words_from [] s) else words_from (word ++ c ∷ []) s

abbrev pub split_whitespace : Text → List Text
split_whitespace s = words_from [] s

unfoldable pub join : Text → List Text → Text
join between [] = []
join between (w ∷ []) = w
join between (w ∷ v ∷ words) = w ++ (between ++ join between (v ∷ words))

unfoldable pub episode_key : (Text → Text) → Text → Text
episode_key lower title =
    let stripped = replace_all noise (strip_episodes (lower title)) in
    join (codes " ") (split_whitespace (map (λ c. if is_alphanumeric c then c else b' ') stripped))
