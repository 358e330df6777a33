-- ===== src/CString/Tests.antt =====
-- Runs of lib/string.c.
use asor.Base.{◌%◌, ◌^◌, ◌≡◌}
use asor.CString.{Bytes, memmove}
use asor.CString.Blocks.{copied, memmove_lem}

-- Each byte is its address.
abbrev numbered : Bytes
numbered a = a % 2 ^ 8

-- The blocks overlap.
memmove_example : memmove 12 10 4 numbered 14 ≡ copied 12 10 4 numbered 14
memmove_example = memmove_lem 12 10 4 14 numbered
