-- ===== src/Ui/CharBuff/Wrap.antt =====
-- Word-wrapped printing (`inner_print` of src/ui/charbuff.rs and what calls it).
pub mod Split
pub mod Words
pub mod Layout
pub mod Printed
pub mod Print
use wrb.Common.{
  ℕ, ◌+◌, ◌*◌, ◌≡◌, Bool, true, false, ◌||◌, ◌&&◌, Option, none, some, List, [], ◌∷◌, ◌++◌, ltb,
  leb, ◌==◌, if◌then◌else◌, add_u64, and_then,
}
use wrb.Ui.CharBuff.{CharBuff, Style, print_at, div_rem, print_result, offset_at}

-- `PrintPartType`: a word with its number of characters, or a newline
pub data PrintPartType : Type 0 where
  word : List ℕ → ℕ → PrintPartType
  newline : PrintPartType

-- `char::is_whitespace`: the characters of Unicode's property White_Space
abbrev pub is_whitespace : ℕ → Bool
is_whitespace c =
    (leb 9 c && leb c 13)
    || (c == 0x20
        || (c == 0x85
            || (c == 0xa0
                || (c == 0x1680
                    || ((leb 0x2000 c && leb c 0x200a)
                        || (c == 0x2028
                            || (c == 0x2029 || (c == 0x202f || (c == 0x205f || c == 0x3000)))))))))

-- `if cur_part.len() > 0 { parts.push(Word(cur_part, cur_len)) }`
abbrev pub finish_word : List PrintPartType → List ℕ → ℕ → List PrintPartType
finish_word parts [] cur_len = parts
finish_word parts (c ∷ cur_part) cur_len = parts ++ (word (c ∷ cur_part) cur_len ∷ [])

abbrev pub space_part : ℕ → PrintPartType
space_part c = if c == 10 then newline else word (c ∷ []) 1

-- The loop that splits a text into words and spaces. `cur_len` cannot overflow.
unfoldable pub split_parts : List PrintPartType → List ℕ → ℕ → List ℕ → List PrintPartType
split_parts parts cur_part cur_len [] = finish_word parts cur_part cur_len
split_parts parts cur_part cur_len (c ∷ text) =
    let space = is_whitespace c in
    split_parts (if space then finish_word parts cur_part cur_len ++ (space_part c ∷ []) else parts)
      (if space then [] else cur_part ++ (c ∷ [])) (if space then 0 else cur_len + 1) text

-- The variables of the loop that prints the parts.
pub record Pen : Type 0 where
  pub buff : CharBuff
  pub row : ℕ
  pub idx : ℕ
  pub ret : ℕ × ℕ

-- `idx` and `row` after a word: past its characters, which wrap where they do not fit a row.
abbrev pub after_word : ℕ → ℕ → ℕ → Bool → Option (CharBuff × ℕ × ℕ) → Option (ℕ × ℕ) → Option Pen
after_word row idx charlen fits none wrapped = none
after_word row idx charlen fits (some (b, r, c)) none = none
after_word row idx charlen fits (some (b, ret_row, ret_col)) (some (q, r)) = some (record {
  buff = b;
  row = add_u64 row q;
  idx = if fits then add_u64 idx charlen else r;
  ret = (ret_row, ret_col);
})

unfoldable pub print_word : Style → Pen → List ℕ → ℕ → Option Pen
print_word s p part charlen =
    let fits = ltb (add_u64 p.idx charlen) p.buff.num_cols in
    let row = if fits then p.row else add_u64 p.row 1 in
    let col = if fits then p.idx else 0 in
    after_word row p.idx charlen fits (print_at p.buff s row col part)
      (div_rem charlen p.buff.num_cols)

unfoldable pub print_part : Style → Pen → PrintPartType → Option Pen
unfolding print_word
print_part s p (word part charlen) = print_word s p part charlen
print_part s p newline = some (record p { row = add_u64 p.row 1; idx = 0 })

unfoldable pub print_parts : Style → List PrintPartType → Pen → Option Pen
unfolding print_part
print_parts s [] p = some p
print_parts s (part ∷ parts) p = and_then (print_part s p part) (λ q. print_parts s parts q)

-- `if newline { ret = (ret.0 + 1, 0) }`, and what is returned
abbrev pub finish_print : Bool → Pen → Option (CharBuff × ℕ × ℕ)
finish_print true p = some (p.buff, add_u64 p.ret.0 1, 0)
finish_print false p = some (p.buff, p.ret.0, p.ret.1)

unfoldable pub inner_print : CharBuff → Style → ℕ → ℕ → List ℕ → Bool → Option (CharBuff × ℕ × ℕ)
unfolding split_parts print_parts
inner_print b s start_row start_col text end_line =
    and_then
      (print_parts s (split_parts [] [] 0 text)
        (record { buff = b; row = start_row; idx = start_col; ret = (start_row, start_col) }))
      (finish_print end_line)

abbrev pub print : CharBuff → Style → ℕ → ℕ → List ℕ → Option (CharBuff × ℕ × ℕ)
print b s start_row start_col text = inner_print b s start_row start_col text false

abbrev pub print_iter : CharBuff → Style → ℕ → ℕ → List ℕ → Option (CharBuff × ℕ × ℕ)
print_iter b s start_row start_col text = inner_print b s start_row start_col text false

abbrev pub println : CharBuff → Style → ℕ → ℕ → List ℕ → Option (CharBuff × ℕ × ℕ)
println b s start_row start_col text = inner_print b s start_row start_col text true
