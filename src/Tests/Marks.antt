-- ===== src/Tests/Marks.antt =====
-- The argument of --mark.
use errmark.Prelude.{◌≡◌, refl, true, some, codes, arith}
use errmark.World.{ret}
use errmark.Marks.Specs.{parse_mark_specs, set_marks1}
use errmark.World.Returns.{Returns}
use errmark.Marks.Parsed.{Parses, parse_mark_specs-Parses}
use errmark.Marks.Parsing.{parse_mark_specs-set_marks}
use errmark.Marks.Transcript.{fd1}
use errmark.Tests.Samples.{world}

-- The example of the source: the end mark keeps the last separator.
parse_mark_specs-set_marks_example :
    parse_mark_specs (codes "1:[[:]]:") world
    ≡ ret true (set_marks1 (some (codes "[[")) (some (codes "]]:")) world)
parse_mark_specs-set_marks_example =
    parse_mark_specs-set_marks fd1 b':' (codes "[[") (codes "]]:") world (omega arith) refl refl

-- Without a second separator.
parse_mark_specs-Parses_example :
    Returns (parse_mark_specs (codes "2:E>") world) (Parses world (codes "2:E>"))
parse_mark_specs-Parses_example = parse_mark_specs-Parses (codes "2:E>") world refl refl
