-- ===== src/Checksum/RoundTrip.antt =====
-- The text that `write_checksum_file` writes and `get_checksum_info` reads.
use safeatomic.Prelude.{
  ℕ, ◌≡◌, ◌≢◌, refl, ◌∙◌, sym, ap, false, some, List, [], ◌∷◌, ◌++◌, Str, codes, All, arith,
}
use mathlib.Core.List.{append-nil, append_assoc}
use safeatomic.Prelude.Eq.{nat_eq, list_eq, list_beq}
use safeatomic.Text.{
  lower, is_space, is_line_end, split_lines, strip_left, strip_right, strip, until_space,
  first_word, partition,
}
use safeatomic.Checksum.Sidecar.{
  print_sidecar, get_pair, add_pair, add_pairs, fields_of, parse_sidecar,
}

-- No white space, no end of a line.
abbrev pub Solid : Str → Type 0
Solid s = All (λ c. is_space c ≡ false) s

abbrev pub OneLine : Str → Type 0
OneLine s = All (λ c. is_line_end c ≡ false) s

one_line_char : (c : ℕ) → is_space c ≡ false → is_line_end c ≡ false
unfolding is_space is_line_end
one_line_char c h = ground arith

OneLine-of_Solid : (s : Str) → Solid s → OneLine s
OneLine-of_Solid [] h = tt
OneLine-of_Solid (c ∷ s) h = (one_line_char c h.0, OneLine-of_Solid s h.1)

OneLine-append : (s t : Str) → OneLine s → OneLine t → OneLine (s ++ t)
OneLine-append [] t h k = k
OneLine-append (c ∷ s) t h k = (h.0, OneLine-append s t h.1 k)

-- A line with its end in front of other text is the first line.
split_lines-line :
    (l rest line : Str)
    → OneLine l
    → split_lines (l ++ 10 ∷ rest) line ≡ (line ++ l) ∷ split_lines rest []
unfolding split_lines is_line_end
split_lines-line [] rest line h = rw (append-nil line) refl
split_lines-line (c ∷ l) rest line h = rw h.0 (
    split_lines-line l rest (line ++ c ∷ []) h.1
    ∙ ap (λ (t : Str). t ∷ split_lines rest []) (append_assoc line (c ∷ []) l))

strip_left-Solid : (s : Str) → Solid s → strip_left s ≡ s
unfolding strip_left
strip_left-Solid [] h = refl
strip_left-Solid (c ∷ s) h = rw h.0 refl

strip_right-Solid : (s : Str) → Solid s → strip_right s ≡ s
unfolding strip_right
strip_right-Solid [] h = refl
strip_right-Solid (c ∷ []) h = rw h.0 refl
strip_right-Solid (c ∷ d ∷ s) h = rw (strip_right-Solid (d ∷ s) h.1) refl

strip-Solid : (s : Str) → Solid s → strip s ≡ s
unfolding strip
strip-Solid s h = rw (strip_left-Solid s h) (strip_right-Solid s h)

until_space-Solid : (s rest : Str) → Solid s → until_space (s ++ 32 ∷ rest) ≡ s
unfolding until_space is_space
until_space-Solid [] rest h = refl
until_space-Solid (c ∷ s) rest h = rw h.0 (ap (λ (t : Str). c ∷ t) (until_space-Solid s rest h.1))

first_word-Solid : (s rest : Str) → s ≢ [] → Solid s → first_word (s ++ 32 ∷ rest) ≡ some s
unfolding first_word strip_left
first_word-Solid [] rest n h = absurd (n refl)
first_word-Solid (c ∷ s) rest n h = rw (h.0, until_space-Solid (c ∷ s) rest h) refl

lines_of :
    (digest name algo timestamp : Str)
    → Solid digest
    → OneLine name
    → Solid algo
    → Solid timestamp
    → split_lines (print_sidecar digest name algo timestamp) []
      ≡ (digest ++ (codes "  " ++ name))
        ∷ (codes "algo=" ++ algo)
        ∷ (codes "timestamp=" ++ timestamp)
        ∷ []
unfolding print_sidecar split_lines is_line_end
lines_of digest name algo timestamp hd hn ha ht =
    ap (λ (s : Str). split_lines s []) (sym (append_assoc digest (codes "  " ++ name) _))
    ∙ (split_lines-line first (codes "algo=" ++ (algo ++ last)) [] (
          OneLine-append digest (codes "  " ++ name) (OneLine-of_Solid digest hd)
            (refl, (refl, hn)))
        ∙ ap (λ (ls : List Str). first ∷ ls)
            (split_lines-line (codes "algo=" ++ algo)
                (codes "timestamp=" ++ (timestamp ++ codes "\n")) []
                (OneLine-append (codes "algo=") algo (refl, (refl, (refl, (refl, (refl, tt)))))
                  (OneLine-of_Solid algo ha))
              ∙ ap (λ (ls : List Str). (codes "algo=" ++ algo) ∷ ls)
                  (split_lines-line (codes "timestamp=" ++ timestamp) [] [] (
                    OneLine-append (codes "timestamp=") timestamp
                      (
                        refl,
                        (refl, (refl, (refl, (refl, (refl, (refl, (refl, (refl, (refl, tt))))))))),
                      )
                      (OneLine-of_Solid timestamp ht)))))
  where
    first : Str
    first = digest ++ (codes "  " ++ name)

    last : Str
    last = codes "\ntimestamp=" ++ (timestamp ++ codes "\n")

abbrev pairs_read : Str → Str → List (Str × Str)
pairs_read algo timestamp = (codes "timestamp", timestamp) ∷ (codes "algo", algo) ∷ []

-- The pairs that the two lines give.
pairs_of :
    (algo timestamp : Str)
    → Solid algo
    → Solid timestamp
    → add_pairs ((codes "algo=" ++ algo) ∷ (codes "timestamp=" ++ timestamp) ∷ []) []
      ≡ pairs_read algo timestamp
unfolding add_pairs add_pair partition strip strip_left strip_right is_space
pairs_of algo timestamp ha ht =
    ap (λ (t : Str). (codes "timestamp", strip timestamp) ∷ (codes "algo", t) ∷ [])
      (strip-Solid algo ha)
    ∙ ap (λ (t : Str). (codes "timestamp", t) ∷ (codes "algo", algo) ∷ [])
        (strip-Solid timestamp ht)

fields_of-lines :
    (digest name algo timestamp : Str)
    → digest ≢ []
    → Solid digest
    → Solid algo
    → Solid timestamp
    → fields_of (
        (digest ++ (codes "  " ++ name))
        ∷ (codes "algo=" ++ algo)
        ∷ (codes "timestamp=" ++ timestamp)
        ∷ [])
      ≡ some (record { digest = lower digest; algo = some algo; timestamp = some timestamp })
unfolding fields_of get_pair list_beq
fields_of-lines digest name algo timestamp n hd ha ht =
    rw (first_word-Solid digest (32 ∷ name) n hd, fields_of)
      (rw (pairs_of algo timestamp ha ht) refl)

-- Let the digest, the algorithm and the time have no white space, the digest not be empty, and the
-- file name hold no end of a line. Then the printed sidecar is read back as the digest in lower case,
-- the algorithm and the time.
pub parse_sidecar-print_sidecar :
    (digest name algo timestamp : Str)
    → digest ≢ []
    → Solid digest
    → OneLine name
    → Solid algo
    → Solid timestamp
    → parse_sidecar (print_sidecar digest name algo timestamp)
      ≡ some (record { digest = lower digest; algo = some algo; timestamp = some timestamp })
unfolding parse_sidecar
parse_sidecar-print_sidecar digest name algo timestamp n hd hn ha ht =
    ap fields_of (lines_of digest name algo timestamp hd hn ha ht)
    ∙ fields_of-lines digest name algo timestamp n hd ha ht
