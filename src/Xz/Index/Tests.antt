-- ===== src/Xz/Index/Tests.antt =====
-- The walk on a small file.
use goxz.Base.{◌≡◌, ◌≢◌, refl, some, none}
use goxz.Base.Int.{pos}
use goxz.Go.{lib, ok}
use goxz.Instances.{tiny_index, plain_errs}
use goxz.Wrapper.Error.{new_error}
use goxz.Wrapper.Flags.{footer_decode, get_backward_size}
use goxz.Wrapper.Stream.{process, process_loop, fill, drain, code_slice, switch_errs}
use goxz.Xz.Index.{
  decode_index, decode_loop, prev_stream_index, unroll_padding, padding_loop, read_whole,
  unroll_footer, unroll_index,
}
use goxz.Xz.Index.Refused.{decode_index-ne-nil}

-- The end of the index stream comes back as the error of the whole walk.
decode_one : decode_index tiny_index plain_errs 9 tt (pos 52) ≡ ok (none, some (lib 1))
unfolding decode_index decode_loop prev_stream_index unroll_padding padding_loop read_whole
    unroll_footer unroll_index footer_decode get_backward_size process process_loop fill drain
    code_slice switch_errs new_error
decode_one = refl

decode_index-ne-nil_example :
    decode_index tiny_index plain_errs 9 tt (pos 52) ≢ ok (some (pos 16), none)
decode_index-ne-nil_example =
    decode_index-ne-nil tiny_index plain_errs 9 tt (pos 52) (some (pos 16)) refl
