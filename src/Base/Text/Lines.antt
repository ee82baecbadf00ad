-- ===== src/Base/Text/Lines.antt =====
-- A line up to its end, and up to its `=`.
use mathlib.Core.List.{reverse_aux, reverse-reverse}
use pendem.Base.{
  ℕ, suc, ◌+◌, ◌<◌, true, false, some, [], ◌∷◌, ◌++◌, reverse, Bytes, ◌==◌, leb, length, ◌≡◌, refl,
  ap, ◌∙◌, arith,
}
use pendem.Base.Text.{split_at, scan_lines_loop, drop_cr, max_token_size, before}
use pendem.Base.Text.Trim.{is_plain, all_of, starts, ends_no_line}

-- A key is cut off at the `=` behind it.
pub split_at-plain :
    (s rest : Bytes)
    → all_of is_plain s ≡ true
    → split_at b'=' (s ++ 32 ∷ b'=' ∷ rest) ≡ some (s ++ 32 ∷ [], rest)
unfolding split_at before all_of is_plain
split_at-plain [] rest h = refl
split_at-plain (c ∷ s) rest h = rw (split_at, split_at-plain s rest (ground arith)) (ground arith)

drop_cr-starts : (s : Bytes) → starts ends_no_line s ≡ true → drop_cr s ≡ s
unfolding drop_cr starts ends_no_line
drop_cr-starts [] h = refl
drop_cr-starts (c ∷ s) h = ground arith

not_newline : (c : ℕ) → ends_no_line c ≡ true → (c == 10) ≡ false
unfolding ends_no_line
not_newline c h = ground arith

scan_lines_loop-reverse_aux :
    (line acc rest : Bytes)
    → all_of ends_no_line line ≡ true
    → starts ends_no_line (reverse_aux line acc) ≡ true
    → length line + length acc < max_token_size
    → scan_lines_loop (line ++ 10 ∷ rest) acc
      ≡ (reverse (reverse_aux line acc) ∷ (scan_lines_loop rest []).0, (scan_lines_loop rest []).1)
unfolding all_of scan_lines_loop
scan_lines_loop-reverse_aux [] acc rest h last short =
    rw (scan_lines_loop, drop_cr-starts acc last) refl
scan_lines_loop-reverse_aux (c ∷ line) acc rest h last short =
    let room : leb max_token_size (suc (length acc)) ≡ false = ground arith in
    rw (scan_lines_loop, not_newline c (ground arith), room)
      (scan_lines_loop-reverse_aux line (c ∷ acc) rest (ground arith) last (omega arith))

-- A line is read up to its end, where no character ends it before and it is not too long.
pub scan_lines_loop-line :
    (line rest : Bytes)
    → all_of ends_no_line line ≡ true
    → starts ends_no_line (reverse line) ≡ true
    → length line < max_token_size
    → scan_lines_loop (line ++ 10 ∷ rest) []
      ≡ (line ∷ (scan_lines_loop rest []).0, (scan_lines_loop rest []).1)
scan_lines_loop-line line rest h last short =
    scan_lines_loop-reverse_aux line [] rest h last (omega arith)
    ∙ ap (λ l. (l ∷ (scan_lines_loop rest []).0, (scan_lines_loop rest []).1))
        (reverse-reverse line)
