-- ===== src/Xz/SeekReader/Tests.antt =====
-- NewSeekReader on small files.
use goxz.Base.{◌≡◌, ◌≢◌, refl, some, none}
use goxz.Go.{ok, fail, nil_pointer}
use goxz.Instances.{tiny_seek, plain_errs}
use goxz.Xz.SeekReader.{SeekReader, new_seek_reader_custom, close, seeker_and_size}
use goxz.Xz.SeekReader.Empty.{new_seek_reader-ne-nil, close-empty}

new_seek_reader-ne-nil_example : new_seek_reader_custom tiny_seek plain_errs 9 52 ≢ ok (none, none)
unfolding seeker_and_size
new_seek_reader-ne-nil_example = new_seek_reader-ne-nil tiny_seek plain_errs 9 52 none refl

close-empty_example :
    (r : SeekReader tiny_seek plain_errs) × (new_seek_reader_custom tiny_seek plain_errs 1 0
      ≡ ok (some r, none))
    × (close tiny_seek plain_errs r ≡ fail nil_pointer)
unfolding seeker_and_size
close-empty_example = close-empty tiny_seek plain_errs 0 0 0 refl
