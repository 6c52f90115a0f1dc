-- ===== src/Play/Beatmap/Lines/Values.antt =====
-- Web-Osu-Mania/src/lib/beatmapParser.ts: what `getLineValue` gives for a line that is written.
use ethtokyo.Prelude.{ℕ, ◌==◌, ◌≡◌, refl, Bool, true, false, some, List, [], ◌∷◌, ◌++◌, arith, Text}
use ethtokyo.Play.Beatmap.Lines.{
  starts_with, drop_text, before_next, find_line, trim, get_line_value,
}

abbrev HasNoKey : Text → List Text → Type 0
HasNoKey sep [] = Unit
HasNoKey sep (l ∷ ls) = (starts_with l sep ≡ false) × HasNoKey sep ls

starts_with-append : (p s : Text) → starts_with (p ++ s) p ≡ true
starts_with-append [] s = refl
starts_with-append (c ∷ cs) s =
    let here : (c == c) ≡ true = ground arith in rw here (starts_with-append cs s)

drop_text-append : (p s : Text) → drop_text p (p ++ s) ≡ s
drop_text-append [] s = refl
drop_text-append (c ∷ cs) s = drop_text-append cs s

find_line-append :
    (sep : Text) (before after : List Text) (l : Text)
    → HasNoKey sep before
    → starts_with l sep ≡ true
    → find_line sep (before ++ (l ∷ after)) ≡ some l
find_line-append sep [] after l clear starts = rw starts refl
find_line-append sep (b ∷ before) after l (here, there) starts =
    rw here (find_line-append sep before after l there starts)

-- The value of the first line with a key is its text up to the next place where the key with its colon
-- stands, trimmed.
get_line_value-line :
    (is_space : ℕ → Bool) (key value : Text) (before after : List Text)
    → HasNoKey (key ++ (58 ∷ [])) before
    → get_line_value is_space (before ++ (((key ++ (58 ∷ [])) ++ value) ∷ after)) key
      ≡ some (trim is_space (before_next (key ++ (58 ∷ [])) value))
unfolding get_line_value
get_line_value-line is_space key value before after clear =
    let sep = key ++ (58 ∷ []) in
    rw
      (
        find_line-append sep before after (sep ++ value) clear (starts_with-append sep value),
        drop_text-append sep value,
      )
      refl

-- A title that has the key again is cut there.
cut_title_test :
    get_line_value
      (λ c. c == 32)
      ((66 ∷ []) ∷ (65 ∷ 58 ∷ 32 ∷ 67 ∷ 32 ∷ 65 ∷ 58 ∷ 68 ∷ []) ∷ [])
      (65 ∷ [])
    ≡ some (67 ∷ [])
unfolding get_line_value
cut_title_test = refl
