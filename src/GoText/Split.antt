-- ===== src/GoText/Split.antt =====
-- `strings.Split` undoes `strings.Join` on parts that lack the separator.
use mathlib.Core.List.{reverse, reverse-cons, append_assoc, append-nil}
use rtz_server.Base.{ℕ, ◌≡◌, refl, ap, ◌∙◌, false, List, [], ◌∷◌, ◌++◌, ◌==◌, ==_iff, All}
use rtz_server.GoText.{Str, split_from, split, join}

abbrev pub Lacks : ℕ → Str → Type 0
Lacks b = All (λ c. (c == b) ≡ false)

split_from-Lacks :
    (sep : ℕ) (p cur : Str) → Lacks sep p → split_from sep cur p ≡ (reverse cur ++ p) ∷ []
unfolding split_from
split_from-Lacks sep [] cur h = rw append-nil
split_from-Lacks sep (c ∷ p) cur (hc, h) =
    rw (hc, split_from) (rw (split_from-Lacks sep p (c ∷ cur) h) (rw (reverse-cons, append_assoc)))

split_from-append :
    (sep : ℕ) (p rest cur : Str)
    → Lacks sep p
    → split_from sep cur (p ++ (sep ∷ rest)) ≡ (reverse cur ++ p) ∷ split_from sep [] rest
unfolding split_from
split_from-append sep [] rest cur h = rw (append-nil, (==_iff sep sep).1 refl, split_from)
split_from-append sep (c ∷ p) rest cur (hc, h) =
    rw (hc, split_from)
      (rw (split_from-append sep p rest (c ∷ cur) h) (rw (reverse-cons, append_assoc)))

-- Split gives back the parts that were joined, if there is one at least and none holds the separator.
pub split-join :
    (sep : ℕ) (p : Str) (ps : List Str)
    → All (Lacks sep) (p ∷ ps)
    → split (join (p ∷ ps) sep) sep ≡ p ∷ ps
unfolding split join
split-join sep p [] (h, _) = split_from-Lacks sep p [] h
split-join sep p (q ∷ ps) (h, hs) =
    split_from-append sep p (join (q ∷ ps) sep) [] h ∙ ap (λ l. p ∷ l) (split-join sep q ps hs)
