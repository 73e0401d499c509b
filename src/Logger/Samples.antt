-- ===== src/Logger/Samples.antt =====
-- Tests and samples for internal/logger.
use gopherd.Prelude.{
  zero, suc, Text, codes, ◌≡◌, refl, true, false, none, some, [], ◌∷◌, ◌++◌, arith,
}
use gopherd.Logger.{
  sanitize, sanitize_seq, sanitize_keep_colors, split_plain, clean_from, ansi_seq_len,
}
use gopherd.Logger.Clean.{all_plain, newlines, sanitize-IsPlain}
use gopherd.Logger.Writer.{
  flush, PrefixWriter, default_ring_size, prefix_parts, emit, write, recent,
}
use gopherd.Logger.Stream.{flat, flush-write}
use gopherd.Prelude.{length, ◌+◌, ◌<◌}
use gopherd.Logger.Writer.{max_buf_size, write_loop}
use gopherd.Logger.Bounds.{write-IsBounded}
use gopherd.Logger.Recent.{keep_last, IsInRing, emit-recent}
use gopherd.Logger.Rotate.{FileWriter, FileSystem, Numbered, IsRotated, rotate, rotate-IsRotated}

-- Red text with a forged title.
abbrev colored : Text
colored = 0x1b ∷ codes "[31mred" ++ 0x1b ∷ codes "]0;x" ++ 0x07 ∷ codes "!\n"

kept : sanitize_keep_colors colored ≡ 0x1b ∷ codes "[31mred!\n"
unfolding sanitize_seq split_plain clean_from ansi_seq_len
kept = refl

plain_text : sanitize colored ≡ codes "red!\n"
unfolding sanitize_seq split_plain clean_from ansi_seq_len
plain_text = refl

sanitize-IsPlain_example :
    (all_plain (sanitize colored) ≡ true)
    × (sanitize (sanitize colored) ≡ sanitize colored)
    × (newlines (sanitize_seq true colored) ≡ newlines colored)
sanitize-IsPlain_example = sanitize-IsPlain true colored

abbrev log_writer : PrefixWriter
log_writer = record {
  name = codes "db";
  parts = [];
  buf = [];
  dest = [];
  extra = [];
  ring = λ i. [];
  ring_pos = 0;
  ring_full = false;
  subs = [];
}

two_lines :
    (write (λ i j. codes "now ") (codes "a\nb\nc") log_writer).dest ≡ codes "a\n" ∷ codes "b\n" ∷ []
unfolding write
two_lines = refl

emit-recent_example :
    (recent (emit [] (codes "up\n") log_writer)
      ≡ keep_last default_ring_size (
          recent log_writer
          ++ sanitize_keep_colors (prefix_parts log_writer.name [] log_writer.parts (codes "up\n"))
            ∷ []))
    × IsInRing (emit [] (codes "up\n") log_writer)
emit-recent_example = emit-recent [] (codes "up\n") log_writer (omega arith)

abbrev rotated_files : Numbered
rotated_files zero = none
rotated_files (suc zero) = some (codes "old")
rotated_files (suc (suc i)) = none

abbrev log_file : FileWriter
log_file = record {
  current = some (codes "new");
  plain = rotated_files;
  gz = λ i. none;
  open_file = true;
  size = 3;
  max_size = 2;
  max_files = 2;
  compress = false;
}

abbrev disk : FileSystem
disk = record {
  ancestors_ok = true;
  rename_gz = λ i. true;
  rename_plain = λ i. true;
  rename_current = true;
  gzip_ok = true;
  reopen_ok = true;
  accepted = 3;
  write_ok = true;
}

rotate-IsRotated_example :
    ((rotate disk log_file).1 ≡ true) × IsRotated log_file (rotate disk log_file).0
rotate-IsRotated_example =
    rotate-IsRotated disk log_file (refl, refl, refl, refl, λ i. refl, λ i. refl) (omega arith)

flush-write_example :
    flat (flush [] (write (λ i j. []) (codes "a\nb") log_writer)).dest
    ≡ flat log_writer.dest ++ (log_writer.buf ++ codes "a\nb")
flush-write_example = flush-write (λ i j. []) [] (codes "a\nb") log_writer refl (omega arith)

write-IsBounded_example :
    (length (write (λ i j. []) (codes "a\nb") log_writer).buf < max_buf_size)
    × (write (λ i j. []) (codes "a\nb") log_writer
        ≡ write_loop (λ i j. []) (suc (length (codes "a\nb")) + 5) (codes "a\nb") log_writer)
write-IsBounded_example = write-IsBounded (λ i j. []) (codes "a\nb") log_writer 5 (omega arith)
