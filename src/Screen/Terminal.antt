-- ===== src/Screen/Terminal.antt =====
-- The terminal behind bbssrc/src/screen.c, as the documentation of its control strings has it: what it
-- shows in each place, where its cursor is, and what each control string does to both.
use firebird_bbs.Base.{ℕ, ◌+◌, ◌-◌, ◌≤◌, ◌<◌, ◌≡◌, ◌≢◌, List, [], ◌∷◌, ◌++◌, refl}

-- What is sent: a byte that is printed, or a control string.
pub data Command : Type 0 where
  send_char : ℕ → Command
  newline : Command
  carriage_return : Command
  cursor_left : Command
  cursor_to : ℕ → ℕ → Command
  clear_all : Command
  clear_eol : Command
  scroll_back : Command
  stand_up : Command
  stand_down : Command

-- A terminal of `height` lines and `width` columns. The laws say nothing of a character in the last
-- column's wake, where terminals differ.
pub record Terminal (height width : ℕ) : Type 1 where
  pub T : Type 0
  pub step : Command → T → T
  pub shown : T → ℕ → ℕ → ℕ
  pub line : T → ℕ
  pub col : T → ℕ
  pub char_here :
      (c : ℕ) (t : T) → col t < width → shown (step (send_char c) t) (line t) (col t) ≡ c
  pub char_line :
      (c : ℕ) (t : T) (i k : ℕ) → i ≢ line t → shown (step (send_char c) t) i k ≡ shown t i k
  pub char_col :
      (c : ℕ) (t : T) (i k : ℕ) → k ≢ col t → shown (step (send_char c) t) i k ≡ shown t i k
  pub char_step :
      (c : ℕ) (t : T)
      → col t + 1 < width
      → (line (step (send_char c) t) ≡ line t) × (col (step (send_char c) t) ≡ col t + 1)
  pub newline_down :
      (t : T)
      → line t + 1 < height
      → ((i k : ℕ) → shown (step newline t) i k ≡ shown t i k)
        × (line (step newline t) ≡ line t + 1)
        × (col (step newline t) ≡ col t)
  pub newline_end :
      (t : T)
      → line t + 1 ≡ height
      → ((i k : ℕ) → i + 1 < height → shown (step newline t) i k ≡ shown t (i + 1) k)
        × ((k : ℕ) → shown (step newline t) (line t) k ≡ b' ')
        × (line (step newline t) ≡ line t)
        × (col (step newline t) ≡ col t)
  pub carriage_return_to :
      (t : T)
      → ((i k : ℕ) → shown (step carriage_return t) i k ≡ shown t i k)
        × (line (step carriage_return t) ≡ line t)
        × (col (step carriage_return t) ≡ 0)
  pub backspace_to :
      (t : T)
      → 1 ≤ col t
      → ((i k : ℕ) → shown (step cursor_left t) i k ≡ shown t i k)
        × (line (step cursor_left t) ≡ line t)
        × (col (step cursor_left t) ≡ col t - 1)
  pub move_to_at :
      (t : T) (x y : ℕ)
      → x < width
      → y < height
      → ((i k : ℕ) → shown (step (cursor_to x y) t) i k ≡ shown t i k)
        × (line (step (cursor_to x y) t) ≡ y)
        × (col (step (cursor_to x y) t) ≡ x)
  pub clear_all_to :
      (t : T)
      → ((i k : ℕ) → shown (step clear_all t) i k ≡ b' ')
        × (line (step clear_all t) ≡ 0)
        × (col (step clear_all t) ≡ 0)
  pub clear_eol_behind : (t : T) (k : ℕ) → col t ≤ k → shown (step clear_eol t) (line t) k ≡ b' '
  pub clear_eol_before : (t : T) (i k : ℕ) → k < col t → shown (step clear_eol t) i k ≡ shown t i k
  pub clear_eol_line : (t : T) (i k : ℕ) → i ≢ line t → shown (step clear_eol t) i k ≡ shown t i k
  pub clear_eol_at : (t : T) → (line (step clear_eol t) ≡ line t) × (col (step clear_eol t) ≡ col t)
  pub stand_up_to :
      (t : T)
      → ((i k : ℕ) → shown (step stand_up t) i k ≡ shown t i k)
        × (line (step stand_up t) ≡ line t)
        × (col (step stand_up t) ≡ col t)
  pub stand_down_to :
      (t : T)
      → ((i k : ℕ) → shown (step stand_down t) i k ≡ shown t i k)
        × (line (step stand_down t) ≡ line t)
        × (col (step stand_down t) ≡ col t)
  pub scroll_back_to :
      (t : T)
      → line t ≡ 0
      → ((i k : ℕ) → shown (step scroll_back t) (i + 1) k ≡ shown t i k)
        × ((k : ℕ) → shown (step scroll_back t) 0 k ≡ b' ')
        × (line (step scroll_back t) ≡ 0)
        × (col (step scroll_back t) ≡ col t)

module _ (height width : ℕ) (term : Terminal height width) where
  open term use {T, step}

  abbrev pub run : List Command → T → T
  run [] t = t
  run (c ∷ cs) t = run cs (step c t)

  pub run-append : (xs ys : List Command) (t : T) → run (xs ++ ys) t ≡ run ys (run xs t)
  run-append [] ys t = refl
  run-append (x ∷ xs) ys t = run-append xs ys (step x t)
