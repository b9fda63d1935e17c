-- ===== src/TuiEdit.antt =====
-- The text helpers of the terminal interface (src/tui_edit.cpp, src/tui_edit.hpp). A width or a
-- cursor is an `int` there; a negative one acts as zero in these functions, so both are natural
-- numbers here, and a width from which too much is subtracted is zero. Only ellipsize and fit_hints
-- differ at a negative width: there they drop a text that takes no columns, which is kept here.
pub mod Columns
pub mod Wrap
pub mod Names
pub mod Cursor
pub mod Rows
