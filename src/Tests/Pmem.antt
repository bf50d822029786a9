-- ===== src/Tests/Pmem.antt =====
-- Reads of the tracee's memory.
use errmark.Prelude.{
  ℕ, Bytes, ◌++◌, ◌≡◌, refl, Bool, false, pos, minus_one, [], codes, ltb, if◌then◌else◌, arith,
}
use errmark.Pmem.{Peek, word, failed, pmem_copy, pmem_fwrite, copy_words, fwrite_words}
use errmark.Pmem.Bounds.{InBuffer, pmem_copy-InBuffer}
use errmark.Pmem.Enough.{words_enough}
use errmark.Pmem.Memory.{bytes_at, Traced}
use errmark.Pmem.Exact.{pmem_copy-exact, pmem_copy-unaligned_window}
use errmark.Pmem.Sound.{pmem_copy-Prefix, Prefix}
use errmark.Pmem.Agree.{pmem_fwrite-Agrees}
use errmark.Stdio.Shown.{shown}
use errmark.Tests.Samples.{world, mem, peek, mem-Traced}

pmem_copy-exact_example : pmem_copy peek 4099 9 ≡ record { rv = pos 9; out = bytes_at mem 4099 9 }
pmem_copy-exact_example =
    pmem_copy-exact mem-Traced 4099 9 (omega arith) (λ i lt. refl) (λ un i lt. refl)

unaligned_bytes : pmem_copy peek 4099 9 ≡ record { rv = pos 9; out = codes "901234567" }
unfolding pmem_copy
unaligned_bytes = refl

-- One page, from 4096 to 8191.
abbrev in_page : ℕ → Bool
in_page a = if ltb a 4096 then false else ltb a 8192

abbrev pub page_peek : ℕ → Peek
page_peek a =
    if ltb a 4096 then failed 5 else if ltb a 8185 then word (bytes_at mem a 8) else failed 5

page-Traced : Traced page_peek mem in_page
page-Traced = record {
  peek_word = λ a h. ground (arith, h 0 (omega arith), h 7 (omega arith));
  peek_fails = λ a i lt h. ground arith;
  whole_words = λ a. ground arith;
}

-- The last three bytes of the page are readable, and `pmem_copy` fails on them.
pmem_copy-unaligned_window_example :
    pmem_copy page_peek 8189 3 ≡ record { rv = minus_one; out = [] }
pmem_copy-unaligned_window_example =
    pmem_copy-unaligned_window page-Traced 8189 3 3 (omega arith) (omega arith) refl

page_words : (a : ℕ) (bs : Bytes) → page_peek a ≡ word bs → bs ≡ bytes_at mem a 8
page_words a bs h = ground arith

pmem_copy-Prefix_example : Prefix page_peek mem 8176 30 (pmem_copy page_peek 8176 30)
pmem_copy-Prefix_example = pmem_copy-Prefix page_peek mem 8176 30 page_words (omega arith)

stops_at_page : pmem_copy page_peek 8176 30 ≡ record { rv = pos 16; out = bytes_at mem 8176 16 }
unfolding pmem_copy
stops_at_page = refl

pmem_fwrite-Agrees_example :
    ((pmem_fwrite page_peek 8176 30 world.io).0 ≡ (pmem_copy page_peek 8176 30).rv)
    × (shown (pmem_fwrite page_peek 8176 30 world.io).1
        ≡ shown world.io ++ (pmem_copy page_peek 8176 30).out)
pmem_fwrite-Agrees_example = pmem_fwrite-Agrees page_peek 8176 30 world.io

-- The region ends in the middle of a word, and the page before it.
pmem_copy-InBuffer_example : InBuffer 30 (pmem_copy page_peek 8176 30)
pmem_copy-InBuffer_example = pmem_copy-InBuffer page_peek 8176 30

words_enough_example :
    (copy_words peek 3 4096 30 0 [] ≡ copy_words peek 30 4096 30 0 [])
    × (fwrite_words peek 3 4096 30 0 world.io ≡ fwrite_words peek 30 4096 30 0 world.io)
words_enough_example = words_enough peek 3 4096 30 0 [] world.io (omega arith)
