-- ===== src/Record/Delete/Names.antt =====
-- The names that `tmpfilename` of bbssrc/src/record.c makes.
use firebird_bbs.Base.Text.{Bytes, codes}
use firebird_bbs.Base.{ℕ, ◌≡◌, ◌≢◌, ap, [], ◌∷◌, ◌++◌, arith}
use firebird_bbs.Record.Delete.{dir_part, tmpfile, deleted}

abbrev second_byte : Bytes → ℕ
second_byte [] = 0
second_byte (x ∷ []) = 0
second_byte (x ∷ y ∷ s) = y

append_cancel : (p a b : Bytes) → p ++ a ≡ p ++ b → a ≡ b
append_cancel [] a b e = e
append_cancel (x ∷ p) a b e = append_cancel p a b (ground arith)

-- The copy and the backup never have one name.
pub tmpfile-ne-deleted : (name : Bytes) → tmpfile name ≢ deleted name
unfolding tmpfile deleted
tmpfile-ne-deleted name e =
    let h = append_cancel (dir_part name) (codes ".tmpfile") (codes ".deleted") e in
    let bytes : ◌≡◌ {A = ℕ} b't' b'd' = ap second_byte h in absurd (omega arith)
