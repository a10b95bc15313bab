-- ===== src/Wrapper/Error.antt =====
-- lib/error.go: a status of liblzma as an error value.
pub mod Names
use goxz.Base.{ℕ, ◌≡◌, ◌==◌, Option, none, some, if◌then◌else◌, arith}
use goxz.Go.{Err, lib}
use goxz.Liblzma.Consts.{Constants}

-- A status other than LZMA_OK is an error, LZMA_STREAM_END too.
unfoldable pub new_error : Constants → ℕ → Option Err
new_error c code = if code == c.lzma_ok then none else some (lib code)

pub new_error_ok : (c : Constants) → new_error c c.lzma_ok ≡ none
unfolding new_error
new_error_ok c = ground arith
