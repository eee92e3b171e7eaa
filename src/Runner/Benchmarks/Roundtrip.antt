-- ===== src/Runner/Benchmarks/Roundtrip.antt =====
-- Benchmark output as `go test` lays it out, and what the parser of tools/runner.go reads from it.
use go_grpcbridge.Base.{
  ℕ, Bool, true, false, Option, none, some, List, [], ◌∷◌, ◌++◌, ◌⊎◌, inl, inr, ◌≡◌, ◌≢◌, refl, ap,
  ◌∙◌, arith, Text, codes, has_prefix, is_space, ltb, length, trim_space, eq_text, Dict, lookup,
  insert, lookup-insert, if◌then◌else◌, ◌+◌,
}
use go_grpcbridge.Runner.{RunnerError}
use go_grpcbridge.Runner.Benchmarks.{
  Floats, BenchmarkRecord, new_record, split_lines, store_metric, parse_metrics, parse_words,
  parse_line, parse_lines, records_or_error, parse_runner_benchmark_records,
}
use go_grpcbridge.Runner.Benchmarks.Names.{AllDigits, parse_name-printed, has_prefix-append}
use go_grpcbridge.Runner.Benchmarks.Fields.{
  IsWord, IsGap, layout, AreLaidOut, words_of, OneLine, GapsOneLine, fields-layout,
  trim_space-layout, layout-OneLine, split_lines-line, layout_tail,
}

AreLaidOut-append :
    (xs ys : List (Text × Text)) → AreLaidOut xs → AreLaidOut ys → AreLaidOut (xs ++ ys)
AreLaidOut-append [] ys h k = k
AreLaidOut-append ((gap, v) ∷ xs) ys h k = (h.0, h.1, AreLaidOut-append xs ys h.2 k)

units-AreWords :
    IsWord (codes "ns/op")
    × IsWord (codes "KB/op")
    × IsWord (codes "B/op")
    × IsWord (codes "allocs/op")
unfolding is_space
units-AreWords = ground arith

abbrev lines_of : Text → List Text
lines_of s = (split_lines s).0 ∷ (split_lines s).1

module _ (F : Floats) (print : F.Number → Text) where
  -- A line of results; the gaps stand between its words, in order.
  pub record Result : Type 0 where
    pub name : Text
    pub cpus : Text
    pub iterations : Text
    pub ns : F.Number
    pub kilobytes : Option F.Number
    pub bytes : F.Number
    pub allocs : F.Number
    pub gap : ℕ → Text

  abbrev metric : (ℕ → Text) → ℕ → F.Number → Text → List (Text × Text)
  metric gap i x unit = (gap i, print x) ∷ (gap (i + 1), unit) ∷ []

  abbrev kilobytes_words : (ℕ → Text) → Option F.Number → List (Text × Text)
  kilobytes_words gap none = []
  kilobytes_words gap (some x) = metric gap 7 x (codes "KB/op")

  abbrev pub words_after : Result → List (Text × Text)
  words_after r =
      (r.gap 0, r.iterations) ∷ metric r.gap 1 r.ns (codes "ns/op")
      ++ (kilobytes_words r.gap r.kilobytes
          ++ (metric r.gap 3 r.bytes (codes "B/op") ++ metric r.gap 5 r.allocs (codes "allocs/op")))

  unfoldable pub print_result : Result → Text
  unfolding layout
  print_result r = layout (r.name ++ 45 ∷ r.cpus) (words_after r)

  abbrev kilobytes_of : Option F.Number → F.Number
  kilobytes_of none = F.of_ℕ 0
  kilobytes_of (some x) = x

  abbrev is_some : Option F.Number → Bool
  is_some none = false
  is_some (some x) = true

  abbrev pub record_of : Result → BenchmarkRecord F
  record_of r = record {
    name = r.name;
    ns_per_op = r.ns;
    bytes_per_op = r.bytes;
    allocs_per_op = r.allocs;
    kilobytes_per_op = kilobytes_of r.kilobytes;
    has_kilobytes_metric = is_some r.kilobytes;
  }

  pub record IsPrintable (r : Result) : Type 0 where
    pub benchmark : has_prefix r.name (codes "Benchmark") ≡ true
    pub first_word : IsWord (r.name ++ 45 ∷ r.cpus)
    pub has_cpus : r.cpus ≢ []
    pub digits : AllDigits r.cpus
    pub counted : IsWord r.iterations
    pub gaps : (i : ℕ) → IsGap (r.gap i)
    pub one_line : (i : ℕ) → OneLine (r.gap i)

  -- Other lines stand among the results.
  pub data Line : Type 0 where
    noise : Text → Line
    result : Result → Line

  abbrev pub line_text : Line → Text
  line_text (noise s) = s
  line_text (result r) = print_result r

  unfoldable pub print_lines : List Line → Text
  print_lines [] = []
  print_lines (l ∷ ls) = line_text l ++ 10 ∷ print_lines ls

  pub data AllPrintable : List Line → Type 0 where
    nil : AllPrintable []
    noise_line :
        {s : Text} {ls : List Line}
        → OneLine s
        → has_prefix (trim_space s) (codes "Benchmark") ≡ false
        → AllPrintable ls
        → AllPrintable (noise s ∷ ls)
    result_line :
        {r : Result} {ls : List Line}
        → IsPrintable r
        → AllPrintable ls
        → AllPrintable (result r ∷ ls)

  -- What a key is expected to hold: its last result, where one was printed.
  unfoldable pub expected :
      Text → List Line → Option (BenchmarkRecord F) → Option (BenchmarkRecord F)
  unfolding eq_text
  expected key [] found = found
  expected key (noise s ∷ ls) found = expected key ls found
  expected key (result r ∷ ls) found =
      expected key ls (if eq_text r.name key then some (record_of r) else found)

  -- strconv.ParseFloat reads a number back, and a number is printed as one word.
  pub record Reads : Type 0 where
    pub parse-print : (x : F.Number) → F.parse (print x) ≡ some x
    pub print-IsWord : (x : F.Number) → IsWord (print x)

  -- What a key holds in a result of the parser.
  abbrev pub found_in : Text → RunnerError ⊎ Dict (BenchmarkRecord F) → Option (BenchmarkRecord F)
  found_in key (inl e) = none
  found_in key (inr m) = lookup key m

  module _ (h : Reads) where
    metrics-read :
        (name : Text) (gap : ℕ → Text) (ns : F.Number) (kb : Option F.Number)
        (bytes allocs : F.Number)
        → parse_metrics F
            (words_of (
              metric gap 1 ns (codes "ns/op")
              ++ (kilobytes_words gap kb
                  ++ (metric gap 3 bytes (codes "B/op")
                      ++ metric gap 5 allocs (codes "allocs/op")))))
            (new_record F name)
          ≡ record {
            name = name;
            ns_per_op = ns;
            bytes_per_op = bytes;
            allocs_per_op = allocs;
            kilobytes_per_op = kilobytes_of kb;
            has_kilobytes_metric = is_some kb;
          }
    unfolding parse_metrics store_metric eq_text
    metrics-read name gap ns none bytes allocs =
        ground (arith, h.parse-print ns, h.parse-print bytes, h.parse-print allocs)
    metrics-read name gap ns (some x) bytes allocs =
        ground (arith, h.parse-print ns, h.parse-print x, h.parse-print bytes, h.parse-print allocs)

    metric-AreLaidOut :
        (gap : ℕ → Text) (i : ℕ) (x : F.Number) (unit : Text)
        → ((j : ℕ) → IsGap (gap j))
        → IsWord unit
        → AreLaidOut (metric gap i x unit)
    metric-AreLaidOut gap i x unit g w = (g i, h.print-IsWord x, (g (i + 1), w, tt))

    words_after-AreLaidOut : (r : Result) → IsPrintable r → AreLaidOut (words_after r)
    words_after-AreLaidOut r p = (
      p.gaps 0,
      p.counted,
      AreLaidOut-append (metric r.gap 1 r.ns (codes "ns/op")) _
          (metric-AreLaidOut r.gap 1 r.ns _ p.gaps units-AreWords.0)
          (AreLaidOut-append (kilobytes_words r.gap r.kilobytes) _
            (kilobytes-AreLaidOut r.kilobytes)
            (AreLaidOut-append (metric r.gap 3 r.bytes (codes "B/op"))
              (metric r.gap 5 r.allocs (codes "allocs/op"))
              (metric-AreLaidOut r.gap 3 r.bytes _ p.gaps units-AreWords.2)
              (metric-AreLaidOut r.gap 5 r.allocs _ p.gaps units-AreWords.3))),
    )
      where
        kilobytes-AreLaidOut : (kb : Option F.Number) → AreLaidOut (kilobytes_words r.gap kb)
        kilobytes-AreLaidOut none = tt
        kilobytes-AreLaidOut (some x) = metric-AreLaidOut r.gap 7 x _ p.gaps units-AreWords.1

    words_after-GapsOneLine : (r : Result) → IsPrintable r → GapsOneLine (words_after r)
    words_after-GapsOneLine r p = (p.one_line 0, (p.one_line 1, (p.one_line 2, rest r.kilobytes)))
      where
        rest :
            (kb : Option F.Number)
            → GapsOneLine (
                kilobytes_words r.gap kb
                ++ (metric r.gap 3 r.bytes (codes "B/op")
                    ++ metric r.gap 5 r.allocs (codes "allocs/op")))
        rest none = (p.one_line 3, (p.one_line 4, (p.one_line 5, (p.one_line 6, tt))))
        rest (some x) = (
          p.one_line 7,
          (p.one_line 8, (p.one_line 3, (p.one_line 4, (p.one_line 5, (p.one_line 6, tt))))),
        )

    many_words :
        (gap : ℕ → Text) (kb : Option F.Number) (bytes allocs : F.Number)
        → ltb
            (5
              + length (
                  words_of (
                    kilobytes_words gap kb
                    ++ (metric gap 3 bytes (codes "B/op")
                        ++ metric gap 5 allocs (codes "allocs/op")))))
            8
          ≡ false
    many_words gap none bytes allocs = refl
    many_words gap (some x) bytes allocs = refl

    parse_words-result :
        (r : Result) (m : Dict (BenchmarkRecord F))
        → IsPrintable r
        → parse_words F ((r.name ++ 45 ∷ r.cpus) ∷ words_of (words_after r)) m
          ≡ insert r.name (record_of r) m
    unfolding parse_words
    parse_words-result r m p = ground (
      arith,
      parse_name-printed r.name r.cpus p.has_cpus p.digits,
      many_words r.gap r.kilobytes r.bytes r.allocs,
      metrics-read r.name r.gap r.ns r.kilobytes r.bytes r.allocs,
    )

    parse_line-result :
        (r : Result) (m : Dict (BenchmarkRecord F))
        → IsPrintable r
        → parse_line F (print_result r) m ≡ insert r.name (record_of r) m
    unfolding parse_line print_result
    parse_line-result r m p =
        let w = r.name ++ 45 ∷ r.cpus in
        let laid = words_after-AreLaidOut r p in
        let (s, e) = layout_tail w (words_after r) in
        let starts : has_prefix (layout w (words_after r)) (codes "Benchmark") ≡ true =
          rw e (has_prefix-append w s _ (has_prefix-append r.name (45 ∷ r.cpus) _ p.benchmark)) in
        ground (
          arith,
          starts,
          trim_space-layout w (words_after r) p.first_word laid,
          fields-layout w (words_after r) p.first_word laid,
          parse_words-result r m p,
        )

    line_step :
        (l : Line) (s : Text) (m : Dict (BenchmarkRecord F))
        → OneLine (line_text l)
        → parse_lines F (lines_of (line_text l ++ 10 ∷ s)) m
          ≡ parse_lines F (lines_of s) (parse_line F (line_text l) m)
    unfolding parse_lines
    line_step l s m one = rw (split_lines-line (line_text l) s one) refl

    no_line : (m : Dict (BenchmarkRecord F)) → parse_line F [] m ≡ m
    unfolding parse_line trim_space has_prefix
    no_line m = refl

    noise_line_kept :
        (s : Text) (m : Dict (BenchmarkRecord F))
        → has_prefix (trim_space s) (codes "Benchmark") ≡ false
        → parse_line F s m ≡ m
    unfolding parse_line
    noise_line_kept s m h = rw h refl

    print_result-OneLine : (r : Result) → IsPrintable r → OneLine (print_result r)
    unfolding print_result
    print_result-OneLine r p =
        layout-OneLine (r.name ++ 45 ∷ r.cpus) (words_after r) p.first_word
          (words_after-AreLaidOut r p) (words_after-GapsOneLine r p)

    lookup-parse_lines :
        (key : Text) (ls : List Line) (m : Dict (BenchmarkRecord F))
        → AllPrintable ls
        → lookup key (parse_lines F (lines_of (print_lines ls)) m) ≡ expected key ls (lookup key m)
    unfolding print_lines expected split_lines parse_lines
    lookup-parse_lines key _ m nil = ap (lookup key) (no_line m)
    lookup-parse_lines key (noise s ∷ ls) m (noise_line one other rest) =
        ap (lookup key) (line_step (noise s) (print_lines ls) m one)
        ∙ ap (λ x. lookup key (parse_lines F (lines_of (print_lines ls)) x))
            (noise_line_kept s m other)
        ∙ lookup-parse_lines key ls m rest
    lookup-parse_lines key (result r ∷ ls) m (result_line p rest) =
        ap (lookup key) (line_step (result r) (print_lines ls) m (print_result-OneLine r p))
        ∙ ap (λ x. lookup key (parse_lines F (lines_of (print_lines ls)) x))
            (parse_line-result r m p)
        ∙ lookup-parse_lines key ls (insert r.name (record_of r) m) rest
        ∙ ap (expected key ls) (lookup-insert r.name key (record_of r) m)

    found_or_error :
        (key : Text) (m : Dict (BenchmarkRecord F))
        → found_in key (records_or_error F m) ≡ lookup key m
    unfolding lookup
    found_or_error key [] = refl
    found_or_error key (r ∷ m) = refl

    -- Of the output of a benchmark run, with other lines among the results, the parser keeps for
    -- each name its last result: the name without the number of processors, and each metric, the
    -- one in kilobytes where it was printed; any white space stands between the words, a number
    -- that is printed is one word and is read back, and no other line begins with "Benchmark".
    pub lookup-parse_records :
        (key : Text) (ls : List Line)
        → AllPrintable ls
        → found_in key (parse_runner_benchmark_records F (print_lines ls)) ≡ expected key ls none
    unfolding parse_runner_benchmark_records lookup
    lookup-parse_records key ls p = found_or_error key _ ∙ lookup-parse_lines key ls [] p
