-- ===== src/Editor/Saving.antt =====
-- Files under reading and writing in the editor of bbssrc/src/edit.c.
use firebird_bbs.Base.Text.{Bytes}
use firebird_bbs.Base.{
  ℕ, suc, ◌+◌, ◌<◌, ◌≡◌, refl, sym, ap, ◌∙◌, true, false, none, some, List, [], ◌∷◌, ◌++◌, length,
  length-append, arith, All,
}
use firebird_bbs.Editor.{Buffer, vedit_init}
use firebird_bbs.Editor.Wrap.{Sign}
use firebird_bbs.Editor.Heap.{Cell, has}
use firebird_bbs.Editor.Linking.{Shows}
use firebird_bbs.Editor.Flowing.{texts, short}
use firebird_bbs.Editor.Spots.{texts-append}
use firebird_bbs.Editor.Files.{is_print2, insert_from_fp, write_lines, write_text}
use firebird_bbs.Editor.Loading.{
  out_of, file_of, write_lines_lem, read_file-Reads, vedit_init-AtEnd, out_of-file_of,
}

-- Writing a text out gives `out_of` of it, and frees its lines.
write_text-Shows :
    (turns : ℕ) (b : Buffer) (cells : List Cell)
    → Shows b cells
    → length cells < turns
    → (b' : Buffer) × (write_text turns false b ≡ some (out_of (texts cells), b'))
      × ((a : ℕ) → has a cells ≡ true → b'.store a ≡ none)
unfolding write_text
write_text-Shows turns b cells sh enough =
    let b0 = record b { firstline = none } in
    let (b1, r, gone, _) = write_lines_lem turns b0 none cells sh.chain sh.apart enough in
    let out : write_lines turns false b0 b.firstline ≡ some (out_of (texts cells), b1) =
      ap (write_lines turns false b0) sh.first ∙ r in
    (record b1 { currline = none; lastline = none; firstline = none }, rw out refl, gone)

-- A file of lines that are below 255 bytes and printable, each with its newline, is read into a new
-- text, with one empty line behind its lines, and written again as it was, byte for byte. One round
-- is enough to read, and one turn more than there are lines in the text to write. No null or freed
-- pointer is followed, and afterwards none of the lines is left in the heap.
pub write_text-insert_from_fp :
    (sign : Sign) (rounds turns : ℕ) (b : Buffer) (ts : List Bytes)
    → sign.editing ≡ false
    → 0 < rounds
    → length ts + 1 < turns
    → All (All (λ ch. is_print2 ch ≡ true)) ts
    → short ts ≡ true
    → (b1 : Buffer) × (b2 : Buffer) × (cells : List Cell) × (insert_from_fp sign rounds
          (file_of ts)
          (vedit_init b)
        ≡ some b1)
      × Shows b1 cells
      × (texts cells ≡ ts ++ [] ∷ [])
      × (write_text turns false b1 ≡ some (file_of ts, b2))
      × ((a : ℕ) → has a cells ≡ true → b2.store a ≡ none)
write_text-insert_from_fp sign rounds turns b ts new some_round enough plain fits =
    let k =
      read_file-Reads sign rounds new some_round (vedit_init b) [] ts (vedit_init-AtEnd b) plain
        fits in
    let cells = k.end.before ++ k.end.at ∷ [] in
    let all : texts cells ≡ ts ++ [] ∷ [] =
      texts-append k.end.before (k.end.at ∷ []) ∙ rw (k.end.above, k.end.bytes) refl in
    let size : length cells ≡ length ts + 1 =
      sym (length-texts cells) ∙ ap length all ∙ length-append ts ([] ∷ []) in
    let (b2, w, gone) = write_text-Shows turns k.after cells k.end.shows (omega arith) in
    (
      k.after,
      b2,
      cells,
      k.runs,
      k.end.shows,
      all,
      w ∙ ap (λ s. some (s, b2)) (ap out_of all ∙ out_of-file_of ts),
      gone,
    )
  where
    length-texts : (cs : List Cell) → length (texts cs) ≡ length cs
    length-texts [] = refl
    length-texts (c ∷ cs) = ap suc (length-texts cs)
