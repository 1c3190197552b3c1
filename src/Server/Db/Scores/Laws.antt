-- ===== src/Server/Db/Scores/Laws.antt =====
-- data/scores.txt implements a list of records, of which the first ones are loaded.
use mathlib.Core.List.{map-append}
use rain_typing_game.Prelude.{
  ℕ, zero, suc, ◌<◌, ◌≡◌, ◌≢◌, inl, refl, sym, ap, ◌∙◌, true, false, none, some, List, [], ◌∷◌,
  ◌++◌, map, Bytes, All, All-append, Lacks, length, length-append, take, arith, c_str_all,
  strchr-append, lt→ltb, str_copy_all, ℤ, IsInt,
}
use rain_typing_game.Common.Protocol.{max_id_len}
use rain_typing_game.Common.Decimal.{print_int}
use rain_typing_game.Common.Decimal.RoundTrip.{
  strtol-print_int, to_int_lem, length-print_int-le, print_int-Lacks,
}
use rain_typing_game.Server.Db.Lines.{IsLine, all_lines-print, print_lines, print_lines-append}
use rain_typing_game.Server.Db.Files.{ReadIo, good_write, append_text}
use rain_typing_game.Server.Db.Scores.{
  ScoreRecord, score_buffer_size, split_score, parse_score, load_lines, load_from_bytes,
  load_all_scores_from_file, score_line, add_score_to_file,
}

pub record IsStorable (r : ScoreRecord) : Type 0 where
  pub name_plain : Lacks b':' r.username
  pub name_line : Lacks b'\n' r.username
  pub name_string : Lacks 0 r.username
  pub name_fits : length r.username < max_id_len
  pub score_fits : IsInt r.score

abbrev pub score_file : List ScoreRecord → Bytes
score_file rs = print_lines (map score_line rs)

score_line-IsLine : {r : ScoreRecord} → IsStorable r → IsLine score_buffer_size (score_line r)
score_line-IsLine {r} s = (
  nonempty r.username,
  All-append _ r.username _ s.name_line
      (omega arith, print_int-Lacks b'\n' r.score (omega arith) (inl (omega arith))),
  omega (
    arith,
    length-append r.username (b':' ∷ print_int r.score),
    length-print_int-le r.score s.score_fits,
  ),
)
  where
    nonempty : (name : Bytes) → name ++ b':' ∷ print_int r.score ≢ []
    nonempty [] e = cc
    nonempty (c ∷ cs) e = cc

split_score-print :
    (r : ScoreRecord) → IsStorable r → split_score (some (r.username, print_int r.score)) ≡ some r
unfolding split_score
split_score-print r s =
    rw (lt→ltb _ max_id_len s.name_fits, strtol-print_int r.score s.score_fits)
      (simp (str_copy_all, s.name_fits, to_int_lem r.score s.score_fits))

parse_score-score_line : (r : ScoreRecord) → IsStorable r → parse_score (score_line r) ≡ some r
unfolding parse_score
parse_score-score_line r s =
    rw
      (c_str_all (score_line r) (
        All-append _ r.username _ s.name_string
          (omega arith, print_int-Lacks 0 r.score (omega arith) (inl (omega arith)))))
      (rw (strchr-append b':' r.username (print_int r.score) s.name_plain) (split_score-print r s))

load_lines-take :
    (room : ℕ) (rs : List ScoreRecord)
    → All IsStorable rs
    → load_lines room (map score_line rs) ≡ take room rs
unfolding load_lines
load_lines-take zero rs h = refl
load_lines-take (suc room) [] h = refl
load_lines-take (suc room) (r ∷ rs) (s, h) =
    rw (parse_score-score_line r s, load_lines) (ap (◌∷◌ r) (load_lines-take room rs h))

lines-IsLine :
    (rs : List ScoreRecord) → All IsStorable rs → All (IsLine score_buffer_size) (map score_line rs)
lines-IsLine [] h = tt
lines-IsLine (r ∷ rs) (s, h) = (score_line-IsLine s, lines-IsLine rs h)

-- On a file of storable scores that can be opened, locked and read, load_all_scores_from_file
-- returns the first `max_records` of them in order.
pub load-score_file :
    (io : ReadIo) (rs : List ScoreRecord) (max_records : ℕ)
    → All IsStorable rs
    → io.opens ≡ true
    → io.locks ≡ true
    → io.read_fails ≡ none
    → load_all_scores_from_file io (some (score_file rs)) max_records ≡ some (take max_records rs)
unfolding load_all_scores_from_file load_from_bytes
load-score_file io rs max_records h o l r =
    rw (o, l, r, all_lines-print false score_buffer_size (map score_line rs) (lines-IsLine rs h))
      (ap some (load_lines-take max_records rs h))

pub add_score_to_file-append :
    (rs : List ScoreRecord) (name : Bytes) (score : ℤ)
    → add_score_to_file good_write (some (score_file rs)) name score
      ≡ (some (score_file (rs ++ record { username = name; score = score } ∷ [])), true)
unfolding add_score_to_file append_text
add_score_to_file-append rs name score =
    let r : ScoreRecord = record { username = name; score = score } in
    ap (λ b. (some b, true))
      (sym (
        ap print_lines (map-append score_line rs (r ∷ []))
        ∙ print_lines-append (map score_line rs) (score_line r)))
