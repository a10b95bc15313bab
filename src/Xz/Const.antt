-- ===== src/Xz/Const.antt =====
-- xz/const.go: the limits of the package and its error values.
use goxz.Base.{ℕ, ◌*◌, ◌^◌, List, [], ◌∷◌}
use goxz.Base.Int.{ℤ, pos, negsuc}
use goxz.Go.{Err, lib}
use goxz.Liblzma.Consts.{Constants}

abbrev kilo_byte : ℕ
kilo_byte = 2 ^ 10

abbrev mega_byte : ℕ
mega_byte = 2 ^ 20

abbrev giga_byte : ℕ
giga_byte = 2 ^ 30

-- -1
abbrev pub chunk_stream : ℤ
chunk_stream = negsuc 0

abbrev pub chunk_lowest : ℤ
chunk_lowest = pos (64 * kilo_byte)

abbrev pub chunk_highest : ℤ
chunk_highest = pos (1 * giga_byte)

abbrev pub chunk_default : ℤ
chunk_default = pos (8 * mega_byte)

abbrev pub workers_sync : ℤ
workers_sync = pos 0

-- -1
abbrev pub workers_max : ℤ
workers_max = negsuc 0

abbrev pub workers_default : ℤ
workers_default = pos 8

abbrev pub buffer_min : ℤ
buffer_min = pos (64 * kilo_byte)

abbrev pub buffer_max : ℤ
buffer_max = pos (1 * giga_byte)

abbrev pub buffer_default : ℤ
buffer_default = pos (8 * (8 * mega_byte))

abbrev pub pad_zeros : List ℕ
pad_zeros = 0 ∷ 0 ∷ 0 ∷ 0 ∷ []

abbrev pub stream_end : Constants → Err
stream_end c = lib c.lzma_stream_end

abbrev pub format_error : Constants → Err
format_error c = lib c.lzma_format_error

abbrev pub options_error : Constants → Err
options_error c = lib c.lzma_options_error
