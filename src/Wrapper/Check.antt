-- ===== src/Wrapper/Check.antt =====
-- lib/check.go: integrity checks.
use goxz.Base.{ℕ, List}
use goxz.Base.Int.{ℤ}
use goxz.Liblzma.{Liblzma}
use goxz.Wrapper.Block.{c_check}

abbrev pub check_size : Liblzma → ℤ → ℕ
check_size lz check = lz.lzma_check_size (c_check check)

abbrev pub crc32 : Liblzma → List ℕ → ℕ → ℕ
crc32 lz buf crc = lz.lzma_crc32 buf crc

abbrev pub crc64 : Liblzma → List ℕ → ℕ → ℕ
crc64 lz buf crc = lz.lzma_crc64 buf crc
