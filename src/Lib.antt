-- ===== src/Lib.antt =====
-- Verification of the Firebird BBS core.
--
-- The program. The BBS keeps a board's posts, and much else, in flat files of fixed-size records:
-- the index `.DIR` of a board is one of them. Every other part reads and changes these files by the
-- operations of bbssrc/src/record.c. The chat station, bbssrc/src/station.c, is a server of its own:
-- the BBS processes of the users connect to it, log in with one line and then send lines that are
-- texts or commands; the station keeps who is in which room and who rules it.
-- Posts are written in the editor, bbssrc/src/edit.c, which reads a file into a doubly linked list of
-- lines, changes them key by key and writes them out. Whatever the BBS shows goes through
-- bbssrc/src/screen.c, which keeps a picture of the terminal in memory and sends what has changed.
--
-- The files.
-- - Base: lists, options and tests over the native numbers (Base/Tests, Base/Lists), bytes and
--   strings with the character functions of C (Base/Text), arrays as functions, the first index
--   with a property and the number of indices with a property (Base/Maps).
-- - Record (bbssrc/src/record.c): `append_record`, `get_record`, `get_records`,
--   `substitute_record`, `apply_record`, `search_record`, `get_num_records`. Record/Write has
--   `safewrite`, Record/Delete `tmpfilename`, `delete_record` and `delete_range`, Record/InPlace
--   `update_file` and `delete_file`. A file is the list of its whole records, the disk a map from
--   names; what the system calls of one operation answer is the argument `Os`. Record/Files,
--   Record/RoundTrip, Record/Delete/Names, Record/Delete/Single, Record/Delete/Range and
--   Record/InPlace/Rewrites hold theorems, Record/Tests runs at concrete inputs.
-- - Station (bbssrc/src/station.c, bbssrc/include/chat.h.in): the state and the look-up functions.
--   Station/Rooms has `exit_room`, `enter_room`, `logout_user`, `print_user_counts`;
--   Station/Commands the commands that change rooms and users; Station/Talk the commands that only
--   send; Station/Listing the lists; Station/Session `login_user` and
--   `command_execute`; Station/Server `process_chat_command` and the rounds of `main`. Station/Occupancy, Station/Moves,
--   Station/Invariant, Station/Rights, Station/Names and Station/Stream hold theorems,
--   Station/Tests runs.
-- - ReadMark (bbssrc/src/boards.c): `brc_addlist` and `brc_unread`, the marks of the posts that a
--   user has read. ReadMark/Codec has `brc_getrecord`, `brc_putrecord`, `brc_update` and
--   `brc_initial`, the file `.boardrc`. ReadMark/Marks, ReadMark/Order,
--   ReadMark/Codec/RoundTrip and ReadMark/Codec/Update hold theorems, ReadMark/Tests and ReadMark/Codec/Tests runs.
-- - Cursor (bbssrc/src/read.c): `getkeep`, `fixkeep`, `modify_locmem` and `move_cursor_line`, the
--   cursors of lists of posts. Cursor/Window and Cursor/Kept hold theorems, Cursor/Tests runs.
-- - Editor (bbssrc/src/edit.c, bbssrc/include/edit.h): the doubly linked lines of a text in a heap,
--   with `append`, `delete_line`, `split` and `vedit_init`; Editor/Wrap has `join`, `insert_char`,
--   `delete_char` and `Origin`, Editor/Keys `vedit_key`, `back_line`, `forward_line` and `countline`,
--   Editor/Jump `goline`, Editor/Files `insert_from_fp` and the loop of `write_file`. Editor/Heap says which text a heap
--   holds, Editor/Spots where the cursor is in it. Editor/Linking, Editor/Unlinking, Editor/Deleting,
--   Editor/Splitting, Editor/Lines, Editor/Joining, Editor/Flowing, Editor/Wrapping, Editor/Typing
--   and Editor/Keeping hold theorems on the operations, Editor/Moving, Editor/Paging,
--   Editor/Changing, Editor/Killing, Editor/Removing and Editor/Keystrokes on the keys,
--   Editor/Loading and Editor/Saving on files, Editor/Tests runs.
-- - Screen (bbssrc/src/screen.c, bbssrc/include/screen.h): the picture, with `outc`, `outs`,
--   `move`, `clear`, `clrtoeol`, `clrtobot`, `scroll`, `rscroll`, `standout` and `standend`.
--   Screen/Refresh has `rel_move`, `standoutput`, `redoscr` and `refresh`, which turn a picture
--   into what is sent; `output` and `ochar` are bbssrc/src/io.c's. Screen/Format has `prints` and
--   `outns`. Screen/Terminal is the interface to the terminal: a record of what each control
--   string does to what is shown and to the cursor. Screen/Pens, Screen/Going, Screen/Drawing,
--   Screen/Rows, Screen/Frames, Screen/Loops, Screen/Scrolling and Screen/Turning hold theorems
--   on what is sent, Screen/Accuracy, Screen/Writing, Screen/Clearing and Screen/Rolling on what the picture notes
--   of the terminal, Screen/Shows, Screen/Uses and Screen/Typing on both, Screen/Text and
--   Screen/Grids on the picture's text, Screen/Printing and Screen/Columns on formats,
--   Screen/Places is a terminal that is a grid of places, Screen/Tests runs on it.
-- - Display (bbssrc/src/edit.c): `display_buffer`, `strnput`, `cstrnput` and `msgline`, which show the
--   editor's lines by the screen's operations. Display/Rows, Display/Lines and Display/Window hold theorems on
--   the two together, Display/Tests runs.
--
-- Bounds and fuel. MAXACTIVE is 256, the default of bbssrc/configure.in, and MAXROOM 32; loops over
-- the users and the rooms are counted loops of these lengths. `safewrite` runs over the list of the
-- outcomes of its system calls. Record numbers below 1 are 0, which makes `lseek` fail as they do.
-- The in-place moves of `delete_file` run over the number of records of the file. The loop over
-- `.boardrc` runs on the length of the buffer, which is enough as each record takes at least one
-- byte. `join` calls itself at most once in a call, which two rounds cover; the loop of
-- `insert_char` over the lines behind the cursor takes a number of rounds, and as many as there are
-- lines are enough. The loops of the screen run over its lines, the loop over a format on its
-- length, and a digit takes less than ten rounds; the columns and lengths of a line are bytes, with
-- `% 256`, and text is taken to stay in front of the last column, where terminals differ, and the
-- picture to roll by no more lines than the screen has between two calls of `refresh`. File times
-- and the offsets of records are taken to fit an `int`, names of files and users their arrays (80 and
-- 14 bytes), and `.boardrc` to hold whole records.
--
-- Not modelled. Bytes of the network and of the disk below a record, signals, locks other than
-- their failure, and partial records at the end of a file; `saverecords` and `restorerecords`, the
-- log file and the socket set-up of the station. The station's commands write into the buffer that
-- `process_chat_command` reads, so what stands behind a line in one packet is not modelled. The
-- board list of boards.c, the key loop and the searches of read.c, the text of the message line,
-- the tab key, the searches, the blocks of marked lines and `top_of_win` of edit.c, the look of
-- highlighted text, marked lines and colours on the terminal, dumb terminals in screen.c, and the
-- terminal dialogue of the BBS (bbssrc/src's other files) are left out as input and output; the
-- tables in shared memory, votes, menus, name completion, MIME decoding and the string helpers are
-- outside these parts, and innd is another program.
pub mod Base
pub mod Record
pub mod Station
pub mod ReadMark
pub mod Cursor
pub mod Editor
pub mod Screen
pub mod Display
