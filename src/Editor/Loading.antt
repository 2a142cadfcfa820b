-- ===== src/Editor/Loading.antt =====
-- How a file is read into the editor of bbssrc/src/edit.c, and how its lines are written.
use firebird_bbs.Base.Text.{Bytes}
use firebird_bbs.Base.Maps.{update, update_self, update_ne}
use firebird_bbs.Base.{
  ℕ, zero, suc, append_assoc, append-nil, ◌+◌, ◌<◌, ◌≡◌, refl, sym, ap, ◌∙◌, subst, Bool, true,
  false, ◌||◌, Option, none, some, List, [], ◌∷◌, ◌++◌, ltb, leb, ◌==◌, ==_iff, length,
  length-append, arith, Bool-cases, inl, inr, take, drop, All,
}
use firebird_bbs.Editor.{
  Ptr, Buffer, same_ptr, deref, free, split, follow_split, vedit_init, alloc_line, put_line,
  clear_mark,
}
use firebird_bbs.Editor.Wrap.{char_at, wrap_margin, Sign, insert_char}
use firebird_bbs.Editor.Heap.{Cell, has, head_of, Seg, frame-update, distinct, distinct-cons}
use firebird_bbs.Editor.Linking.{Shows, last_after}
use firebird_bbs.Editor.Splitting.{tail_cell, split_followed}
use firebird_bbs.Editor.Deleting.{recell}
use firebird_bbs.Editor.Lines.{follow-Shows}
use firebird_bbs.Editor.Flowing.{texts, short}
use firebird_bbs.Editor.Typing.{cursor_moves, insert_char_lem}
use firebird_bbs.Editor.Wrapping.{Typed, typed_line}
use firebird_bbs.Editor.Changing.{texts_cons}
use firebird_bbs.Editor.Spots.{texts-append}
use firebird_bbs.Editor.Files.{is_print2, read_char, insert_from_fp, line_out, write_lines}

-- What is written of a text.
abbrev pub out_of : List Bytes → Bytes
out_of [] = []
out_of (t ∷ []) = line_out t none
out_of (t ∷ u ∷ ts) = t ++ 10 ∷ out_of (u ∷ ts)

-- The file with these lines.
abbrev pub file_of : List Bytes → Bytes
file_of [] = []
file_of (t ∷ ts) = t ++ 10 ∷ file_of ts

pub write_lines_lem :
    (rounds : ℕ) (b : Buffer) (before : Ptr) (cells : List Cell)
    → Seg b.store before cells none
    → distinct cells ≡ true
    → length cells < rounds
    → (b' : Buffer) × (write_lines rounds false b (head_of cells none)
        ≡ some (out_of (texts cells), b'))
      × ((a : ℕ) → has a cells ≡ true → b'.store a ≡ none)
      × ((a : ℕ) → has a cells ≡ false → b'.store a ≡ b.store a)
unfolding write_lines free deref line_out same_ptr
write_lines_lem zero b before cells s d fuel = absurd (omega arith)
write_lines_lem (suc k) b before [] s d fuel = (b, refl, λ a h. absurd (ground arith), λ a h. refl)
write_lines_lem (suc k) b before (c ∷ cs) (e, s) d fuel =
    let (out, d1) = distinct-cons c cs d in
    let b1 = free b (some c.addr) in
    let (b', r, gone, kept) =
      write_lines_lem k b1 (some c.addr) cs
        (frame-update b.store c.addr none (some c.addr) none cs out s) d1 (omega arith) in
    (
      b',
      rw (e, r) (ap (λ t. some (t, b')) (joined cs)),
      λ a h. elim (Bool-cases (has a cs)) [
        | inl i ↦ gone a i
        | inr i ↦
            let same : c.addr ≡ a = (==_iff c.addr a).0 (ground arith) in
            kept a i ∙ ap (update b.store c.addr none) (sym same) ∙ update_self b.store c.addr none
      ],
      λ a h. kept a (ground arith) ∙ update_ne b.store c.addr none a (ground arith),
    )
  where
    joined :
        (ds : List Cell)
        → line_out c.bytes (head_of ds none) ++ out_of (texts ds) ≡ out_of (c.bytes ∷ texts ds)
    joined [] = append-nil _
    joined (x ∷ ds) = append_assoc c.bytes (10 ∷ []) (out_of (x.bytes ∷ texts ds))

-- The cursor is at the end of the text, in the line `t` behind `lines`.
pub record AtEnd (b : Buffer) (lines : List Bytes) (t : Bytes) : Type 0 where
  pub before : List Cell
  pub at : Cell
  pub shows : Shows b (before ++ at ∷ [])
  pub above : texts before ≡ lines
  pub bytes : at.bytes ≡ t
  pub line : b.currline ≡ some at.addr
  pub pnt : b.currpnt ≡ length t

take-all : (t : Bytes) → take (length t) t ≡ t
take-all [] = refl
take-all (c ∷ t) = ap (◌∷◌ c) (take-all t)

drop-all : (t : Bytes) → drop (length t) t ≡ []
drop-all [] = refl
drop-all (c ∷ t) = drop-all t

typed_at_end : (m : Bool) (t : Bytes) (ch : ℕ) → typed_line m t (length t) ch ≡ t ++ ch ∷ []
typed_at_end m t ch =
    let not_before : ltb (length t) (length t) ≡ false = ground arith in
    rw (not_before, take-all t, drop-all t) refl

-- What a run leaves with the cursor at the end.
pub record Reads (r : Option Buffer) (lines : List Bytes) (t : Bytes) : Type 0 where
  pub after : Buffer
  pub runs : r ≡ some after
  pub end : AtEnd after lines t

no_texts : (cs : List Cell) → texts cs ≡ [] → cs ≡ []
no_texts [] q = refl
no_texts (x ∷ cs) q = absurd (omega (arith, ap length q))

-- The last line, after a character has been typed at its end.
Typed-AtEnd :
    (b : Buffer) (lines : List Bytes) (u : Bytes) (e : List Cell) (r : Option Buffer)
    → texts e ≡ lines
    → (k : Typed b e [] u (b.currpnt + 1) r) → b.currpnt + 1 ≡ length u
    → ltb (length u) wrap_margin ≡ true
    → AtEnd k.after lines u
Typed-AtEnd b lines u e r above k n room =
    let (c1, cs, w, bytes, rest) = texts_cons k.cells u [] (k.lines ∙ rw room refl) in
    record {
      before = e;
      at = c1;
      shows = subst (λ x. Shows k.after (e ++ x)) (w ∙ ap (◌∷◌ c1) (no_texts cs rest)) k.shows;
      above = above;
      bytes = bytes;
      line = k.line ∙ rw (room, w) refl;
      pnt = k.pnt_in ∙ rw room n;
    }

module _ (sign : Sign) (rounds : ℕ) (new : sign.editing ≡ false) (some_round : 0 < rounds) where
  read_char-Reads :
      (b : Buffer) (lines : List Bytes) (t : Bytes) (ch : ℕ)
      → AtEnd b lines t
      → is_print2 ch ≡ true
      → length t + 1 < wrap_margin
      → Reads (read_char sign rounds ch b) lines (t ++ ch ∷ [])
  unfolding read_char
  read_char-Reads b lines t ch e plain fits =
      let c = e.at in
      let u = t ++ ch ∷ [] in
      let n : b.currpnt ≡ length c.bytes = e.pnt ∙ ap length (sym e.bytes) in
      let small : short (texts (c ∷ [])) ≡ true = let z = ap length e.bytes in ground arith in
      let typed : typed_line b.insert_character c.bytes b.currpnt ch ≡ u =
        ap (λ k. typed_line b.insert_character c.bytes k ch) n
        ∙ typed_at_end b.insert_character c.bytes ch
        ∙ ap (λ s. s ++ ch ∷ []) e.bytes in
      let r : Typed b e.before [] u (b.currpnt + 1) (insert_char sign rounds b ch) =
        subst (λ x. Typed b e.before [] x (b.currpnt + 1) (insert_char sign rounds b ch)) typed
          (insert_char_lem sign rounds b e.before [] c ch new e.shows e.line (omega arith) small
            some_round) in
      let size : length u ≡ length t + 1 = length-append t (ch ∷ []) in
      let low : ltb b.currpnt 254 ≡ true = let z = e.pnt in ground arith in
      let first : (is_print2 ch || ch == 27) ≡ true = rw plain refl in
      record {
        after = r.after;
        runs = rw (first, low) r.runs;
        end =
            Typed-AtEnd b lines u e.before (insert_char sign rounds b ch) e.above r
              (omega (arith, e.pnt, size)) (ground arith);
      }

  newline-Reads :
      (b : Buffer) (lines : List Bytes) (t : Bytes)
      → AtEnd b lines t
      → Reads (read_char sign rounds 10 b) (lines ++ t ∷ []) []
  unfolding read_char
  newline-Reads b lines t e =
      let c = e.at in
      let pos = b.currpnt in
      let n : pos ≡ length c.bytes = e.pnt ∙ ap length (sym e.bytes) in
      let (g, (r, sh)) = split_followed b e.before [] c pos e.shows (omega arith) in
      let b4 = record b {
        store = g;
        fresh = b.fresh + 1;
        lastline = last_after b.lastline b.fresh [];
      } in
      let front = recell c (take pos c.bytes) in
      let tail = tail_cell c pos b.fresh in
      let (l, p, k) = cursor_moves b4 c.addr pos b.fresh front (tail ∷ []) e.line refl refl in
      let at_pos : leb pos pos ≡ true = ground arith in
      let whole : take pos c.bytes ≡ t = ap (λ i. take i c.bytes) n ∙ take-all c.bytes ∙ e.bytes in
      record {
        after = follow_split b4 (some c.addr) pos b.fresh;
        runs = ap (λ q. split b q pos) e.line ∙ r;
        end = record {
          before = e.before ++ front ∷ [];
          at = tail;
          shows =
              rw (append_assoc e.before (front ∷ []) (tail ∷ []))
                (follow-Shows b4 _ (some c.addr) pos b.fresh sh);
          above = texts-append e.before (front ∷ []) ∙ rw (e.above, whole) refl;
          bytes = ap (λ i. drop i c.bytes) n ∙ drop-all c.bytes;
          line = l ∙ rw at_pos refl;
          pnt = p ∙ rw at_pos (omega arith);
        };
      }

  -- A line of a file.
  read_line-Reads :
      (b : Buffer) (lines : List Bytes) (t s rest : Bytes)
      → AtEnd b lines t
      → All (λ ch. is_print2 ch ≡ true) s
      → length t + length s < wrap_margin
      → (b' : Buffer) × (insert_from_fp sign rounds (s ++ 10 ∷ rest) b
          ≡ insert_from_fp sign rounds rest b')
        × AtEnd b' (lines ++ (t ++ s) ∷ []) []
  unfolding insert_from_fp
  read_line-Reads b lines t [] rest e plain fits =
      let r = newline-Reads b lines t e in (r.after, rw r.runs refl, rw (append-nil t) r.end)
  read_line-Reads b lines t (ch ∷ s) rest e (p, plain) fits =
      let r = read_char-Reads b lines t ch e p (omega arith) in
      let (b', runs, end) =
        read_line-Reads r.after lines (t ++ ch ∷ []) s rest r.end plain
          (omega (arith, length-append t (ch ∷ []))) in
      (b', rw r.runs runs, rw (append_assoc t (ch ∷ []) s) at end)

  pub read_file-Reads :
      (b : Buffer) (lines ts : List Bytes)
      → AtEnd b lines []
      → All (All (λ ch. is_print2 ch ≡ true)) ts
      → short ts ≡ true
      → Reads (insert_from_fp sign rounds (file_of ts) b) (lines ++ ts) []
  unfolding insert_from_fp
  read_file-Reads b lines [] e plain fits = record {
    after = b;
    runs = refl;
    end = rw (append-nil lines) e;
  }
  read_file-Reads b lines (t ∷ ts) e (p, plain) fits =
      let (b1, r, e1) = read_line-Reads b lines [] t (file_of ts) e p (ground arith) in
      let k = read_file-Reads b1 (lines ++ t ∷ []) ts e1 plain (ground arith) in
      record {
        after = k.after;
        runs = ap (λ s. insert_from_fp sign rounds s b) (refl) ∙ r ∙ k.runs;
        end = rw (append_assoc lines (t ∷ []) ts) at k.end;
      }

pub vedit_init-AtEnd : (b : Buffer) → AtEnd (vedit_init b) [] []
unfolding vedit_init alloc_line put_line clear_mark
vedit_init-AtEnd b =
    let c : Cell = record { addr = b.fresh; bytes = []; marked = 0 } in
    record {
      before = [];
      at = c;
      shows = record {
        chain = (update_self b.store b.fresh _, tt);
        first = refl;
        last = refl;
        apart = refl;
        older = ground arith;
      };
      above = refl;
      bytes = refl;
      line = refl;
      pnt = refl;
    }

pub out_of-file_of : (ts : List Bytes) → out_of (ts ++ [] ∷ []) ≡ file_of ts
unfolding line_out char_at same_ptr
out_of-file_of [] = refl
out_of-file_of (t ∷ []) = refl
out_of-file_of (t ∷ u ∷ ts) = ap (λ s. t ++ 10 ∷ s) (out_of-file_of (u ∷ ts))
