-- ===== src/Models/Int64Array/RoundTrip.antt =====
-- What `Int64Array.Scan` reads of what `Int64Array.Value` writes.
use rtz_server.Base.{
  ℕ, ◌≡◌, ◌≢◌, refl, sym, ap, ◌∙◌, false, List, [], ◌∷◌, ◌++◌, map, Option, none, some, arith, All,
  inl,
}
use mathlib.Core.List.{append_assoc, append-nil, cons-ne-nil}
use rtz_server.Base.Int.{ℤ, ◌≤ℤ◌}
use rtz_server.GoText.{Str, is_empty, has_prefix, trim, trim_right, is_space, join}
use rtz_server.GoText.Laws.{
  trim-All, trim_left_id, trim_right_id, has_suffix-append, trim_suffix-append,
}
use rtz_server.GoText.Split.{Lacks, split-join}
use rtz_server.GoText.Numbers.{format_int, min_int64, max_int64}
use rtz_server.GoText.Numbers.RoundTrip.{IsPlain, format_int-IsPlain, parse_int-format_int}
use rtz_server.Models.Int64Array.{
  Int64Array, open_brace, close_brace, comma, is_quote, value, is_null, tidy, scan_parts, assign,
  unbraced, scan_string, scan,
}

abbrev pub IsInt64 : ℤ → Type 0
IsInt64 z = (min_int64 ≤ℤ z) × (z ≤ℤ max_int64)

abbrev pub AreInt64 : Int64Array → Type 0
AreInt64 none = Unit
AreInt64 (some zs) = All IsInt64 zs

All-mono : {P Q : ℕ → Type 0} → ((c : ℕ) → P c → Q c) → (s : Str) → All P s → All Q s
All-mono f [] h = tt
All-mono f (c ∷ s) (hc, h) = (f c hc, All-mono f s h)

tidy_plain : (s : Str) → All IsPlain s → tidy s ≡ s
tidy_plain s h =
    ap (trim is_space) (trim-All is_quote s (All-mono (λ c p. ground arith) s h))
    ∙ trim-All is_space s (All-mono (λ c p. ground arith) s h)

not_null : (s : Str) → All IsPlain s → s ≢ [] → is_null s ≡ false
unfolding is_null
not_null [] h e = absurd (e refl)
not_null (c ∷ s) (hc, h) e = ground arith

not_empty : (s : Str) → s ≢ [] → is_empty s ≡ false
unfolding is_empty
not_empty [] e = absurd (e refl)
not_empty (c ∷ s) e = refl

Lacks-comma : (zs : List ℤ) → All (Lacks comma) (map format_int zs)
Lacks-comma [] = tt
Lacks-comma (z ∷ zs) =
    (All-mono (λ c p. ground arith) (format_int z) (format_int-IsPlain z).0, Lacks-comma zs)

scan_parts-map :
    (zs values : List ℤ)
    → All IsInt64 zs
    → scan_parts (map format_int zs) values ≡ inl (values ++ zs)
unfolding scan_parts
scan_parts-map [] values h = ap inl (sym (append-nil values))
scan_parts-map (z ∷ zs) values ((lo, hi), h) =
    let (plain, nonempty) = format_int-IsPlain z in
    rw (tidy_plain (format_int z) plain) (
      rw (not_empty _ nonempty, not_null _ plain nonempty, parse_int-format_int z lo hi)
        (rw (tidy_plain (format_int z) plain, parse_int-format_int z lo hi)
          (scan_parts-map zs (values ++ z ∷ []) h ∙ ap inl (append_assoc values (z ∷ []) zs))))

join-ne-nil : (p : Str) (ps : List Str) → p ≢ [] → join (p ∷ ps) comma ≢ []
unfolding join
join-ne-nil p [] h = h
join-ne-nil [] (q ∷ qs) h = absurd (h refl)
join-ne-nil (c ∷ p) (q ∷ qs) h = cons-ne-nil _ _

trim-braced :
    (body : Str)
    → trim is_space (open_brace ++ (body ++ close_brace)) ≡ open_brace ++ (body ++ close_brace)
unfolding trim
trim-braced body =
    ap (trim_right is_space) (trim_left_id is_space b'{' (body ++ close_brace) refl)
    ∙ trim_right_id is_space (b'{' ∷ body) b'}' refl

unbraced-braced : (body : Str) → unbraced (open_brace ++ (body ++ close_brace)) ≡ body
unfolding unbraced
unbraced-braced body =
    rw (has_suffix-append (open_brace ++ body) close_brace) (trim_suffix-append body close_brace)

-- For elements in the range of int64, reading back a column that was written gives the same slice and
-- no error, whatever the receiver held and whatever the JSON library does.
pub scan-value :
    (unmarshal : Str → Option (List ℤ)) (old a : Int64Array)
    → AreInt64 a
    → scan unmarshal old (value a) ≡ (a, none)
unfolding scan value is_empty join has_prefix
scan-value unmarshal old none h = refl
scan-value unmarshal old (some []) h =
    unfold scan_string in rw (trim-braced []) (rw (unbraced-braced []) refl)
scan-value unmarshal old (some (z ∷ zs)) h =
    let body = join (map format_int (z ∷ zs)) comma in
    let nonempty : is_empty body ≡ false =
      not_empty body (join-ne-nil _ (map format_int zs) (format_int-IsPlain z).1) in
    unfold scan_string in
    rw (trim-braced body) (
      rw (unbraced-braced body) (
        rw (nonempty, split-join comma (format_int z) (map format_int zs) (Lacks-comma (z ∷ zs)))
          (ap (assign old) (scan_parts-map (z ∷ zs) [] h))))
