-- ===== src/Mediate/Tests.antt =====
-- A write of three bytes into a directory.
use witseal.Prelude.{refl, [], ◌∷◌, none, some, if◌then◌else◌}
use witseal.Prelude.Text.{codes, text_eq}
use witseal.Schema.Intent.{FileWriteIntent, overwrite}
use witseal.Mediate.{directory, FileSystem, FileHost, text, mediate_file_write}
use witseal.Mediate.Outcome.{Outcome, mediate_file_write-Outcome}

abbrev host : FileHost
host = record {
  codecs = record { sha256_hex = λ b. b; decode_utf8 = λ b. b };
  encode_utf8 = λ t. t;
  to_lower_case = λ t. t;
  resolve_path = λ p. p;
  dirname = λ p. codes "/d";
  stat_error = λ p. none;
  open_error = λ p. none;
  fault = none;
  written = λ n. n;
  read_error = none;
  chunks = λ b. b ∷ [];
  same_file = text_eq;
}

abbrev disk : FileSystem
disk path = if text_eq path (codes "/d") then some directory else none

abbrev intent : FileWriteIntent
intent = record {
  path = codes "/d/a";
  content_hash = codes "abc";
  content_size_bytes = 3;
  mode = overwrite;
}

mediate_file_write-Outcome_example :
    Outcome host
      (codes "s")
      (codes "f")
      intent
      (some (text (codes "abc")))
      disk
      (mediate_file_write host (codes "s") (codes "f") intent (some (text (codes "abc"))) disk)
mediate_file_write-Outcome_example =
    mediate_file_write-Outcome host (codes "s") (codes "f") intent (some (text (codes "abc"))) disk
      (λ n. refl)
