-- ===== src/Editor/Keystrokes.antt =====
-- The state of the editor under the keys of `vedit_key` of bbssrc/src/edit.c.
use firebird_bbs.Base.Maps.{update_self}
use firebird_bbs.Base.{
  ℕ, ◌≤◌, ◌≡◌, refl, sym, length-append, ap, ◌∙◌, Bool, true, false, not, none, some, List, [], ◌∷◌,
  leb, length, arith, Bool-cases, inl, inr,
}
use firebird_bbs.Editor.{Buffer, vedit_init, alloc_line, put_line, clear_mark}
use firebird_bbs.Editor.Wrap.{Sign}
use firebird_bbs.Editor.Heap.{Cell, head_of}
use firebird_bbs.Editor.Keys.{
  Key, key_char, key_enter, key_left, key_right, key_up, key_down, key_pgup, key_pgdn, key_home,
  key_end, key_start, key_tail, key_ins, key_backspace, key_del, key_delete_line, key_kill, Vedit,
  place_cursor, unless_escape, min_len, vedit_key_at, next_indent, vedit_key,
}
use firebird_bbs.Editor.Spots.{here, deref-Spot, Spot-first, Editing, Editing-place}
use firebird_bbs.Editor.Moving.{
  Kept, min_len_le, to_prev-Kept, to_next-Kept, move_left-Kept, move_right-Kept,
}
use firebird_bbs.Editor.Paging.{page_up-Kept, page_down-Kept, to_tail-Kept}
use firebird_bbs.Editor.Changing.{insert_at-Kept}
use firebird_bbs.Editor.Removing.{
  backspace-Kept, delete_here-Kept, remove_line-Kept, remove_only-Kept,
}
use firebird_bbs.Editor.Killing.{split-Kept, kill_to_end-Kept}

abbrev pub is_kill : Key → Bool
is_kill key_kill = true
is_kill key = false

start-Kept : (b : Buffer) (e : Editing b) → Kept (some (place_cursor b b.firstline 0 0))
unfolding place_cursor
start-Kept b e = go e.cells refl
  where
    go :
        (cs : List Cell)
        → e.cells ≡ cs
        → Kept (some (record b { currline = b.firstline; currpnt = 0; currln = 0 }))
    go [] w = absurd (
        omega (
          arith,
          ap length (sym w ∙ e.spot.whole),
          length-append e.spot.before (e.spot.at ∷ e.spot.behind),
        ))
    go (c ∷ cs) w = record {
      after = record b { currline = b.firstline; currpnt = 0; currln = 0 };
      runs = refl;
      editing =
          Editing-place b e b.firstline 0 0
            (record {
              before = [];
              at = c;
              behind = cs;
              whole = w;
              addr = e.shows.first ∙ ap (λ x. head_of x none) w;
              index = refl;
            })
            (omega arith);
    }

module _ (sign : Sign) (rounds indent : ℕ) (b : Buffer) (e : Editing b) where
  vedit_key_at-Kept :
      (key : Key)
      → sign.editing ≡ false
      → length e.cells ≤ rounds
      → (is_kill key ≡ true → 2 ≤ length e.cells)
      → Kept (vedit_key_at sign rounds false indent b b.currline (here e.spot) key)
  unfolding vedit_key_at unless_escape
  vedit_key_at-Kept (key_char ch) new fuel more = insert_at-Kept sign rounds b e ch new fuel
  vedit_key_at-Kept key_enter new fuel more = split-Kept b e
  vedit_key_at-Kept key_left new fuel more = move_left-Kept b e
  vedit_key_at-Kept key_right new fuel more = move_right-Kept sign b e new
  vedit_key_at-Kept key_up new fuel more =
      to_prev-Kept b e (λ len. min_len len indent) (λ len. min_len_le len indent)
  vedit_key_at-Kept key_down new fuel more =
      to_next-Kept sign b e (λ len. min_len len indent) new (λ len. min_len_le len indent)
  vedit_key_at-Kept key_pgup new fuel more = page_up-Kept b e
  vedit_key_at-Kept key_pgdn new fuel more = page_down-Kept sign b e new
  vedit_key_at-Kept key_home new fuel more = record {
    after = record b { currpnt = 0 };
    runs = refl;
    editing = Editing-place b e b.currline 0 b.currln e.spot (omega arith);
  }
  vedit_key_at-Kept key_end new fuel more = record {
    after = record b { currpnt = length e.spot.at.bytes };
    runs = refl;
    editing = Editing-place b e b.currline (length e.spot.at.bytes) b.currln e.spot (omega arith);
  }
  vedit_key_at-Kept key_start new fuel more = start-Kept b e
  vedit_key_at-Kept key_tail new fuel more = to_tail-Kept sign rounds b e new fuel
  vedit_key_at-Kept key_ins new fuel more = record {
    after = record b { insert_character = not b.insert_character };
    runs = refl;
    editing = record {
      cells = e.cells;
      shows = record {
        chain = e.shows.chain;
        first = e.shows.first;
        last = e.shows.last;
        apart = e.shows.apart;
        older = e.shows.older;
      };
      spot = e.spot;
      pnt_in = e.pnt_in;
      small = e.small;
    };
  }
  vedit_key_at-Kept key_backspace new fuel more = backspace-Kept rounds b e fuel
  vedit_key_at-Kept key_del new fuel more = delete_here-Kept sign rounds b e new fuel
  vedit_key_at-Kept key_delete_line new fuel more = elim (Bool-cases (leb 2 (length e.cells))) [
    | inl two ↦ remove_line-Kept sign rounds b e new (ground arith)
    | inr one ↦ remove_only-Kept sign rounds b e new (ground arith)
  ]
  vedit_key_at-Kept key_kill new fuel more = kill_to_end-Kept sign b e new (more refl) rounds fuel

-- Where no posted article is edited and lines are not shown in colours, every key of the type `Key`
-- that is done on a text in order leaves it in order: the lines are linked both ways, each of them fits
-- its array, the cursor is in a line of the text, at most behind its last byte, and `currln` is the
-- number of that line. In the part of `vedit_key` that is modelled, which is its switch without the
-- window's `top_of_win` and without Tab, the marks and the keys that only draw, no null or freed pointer is
-- followed, and as many rounds as there are lines are enough. Ctrl-K is left out where the text has
-- only one line.
pub vedit_key_keeps :
    (sign : Sign) (rounds : ℕ) (v : Vedit) (key : Key) (e : Editing v.buffer)
    → sign.editing ≡ false
    → v.editansi ≡ false
    → length e.cells ≤ rounds
    → (is_kill key ≡ true → 2 ≤ length e.cells)
    → (v' : Vedit) × (vedit_key sign rounds v key ≡ some v')
      × Editing v'.buffer
      × (v'.editansi ≡ false)
unfolding vedit_key
vedit_key_keeps sign rounds v key e new plain fuel more =
    let b = v.buffer in
    let indent = next_indent v.lastindent b.currpnt key in
    let i = elim indent as (λ _. ℕ) [ none ↦ b.currpnt | some i ↦ i ] in
    let k = vedit_key_at-Kept sign rounds i b e key new fuel more in
    let step : vedit_key_at sign rounds v.editansi i b b.currline (here e.spot) key ≡ some k.after =
      ap (λ a. vedit_key_at sign rounds a i b b.currline (here e.spot) key) plain ∙ k.runs in
    (
      record v { buffer = k.after; lastindent = indent },
      rw (deref-Spot b e.cells b.currline b.currln e.shows e.spot, step) refl,
      k.editing,
      plain,
    )

-- A new text, with one empty line and the cursor in it.
pub vedit_init-Editing : (b : Buffer) → Editing (vedit_init b)
unfolding vedit_init alloc_line put_line clear_mark
vedit_init-Editing b =
    let c : Cell = record { addr = b.fresh; bytes = []; marked = 0 } in
    record {
      cells = c ∷ [];
      shows = record {
        chain = (update_self b.store b.fresh _, tt);
        first = refl;
        last = refl;
        apart = refl;
        older = ground arith;
      };
      spot = Spot-first c [];
      pnt_in = omega arith;
      small = refl;
    }
