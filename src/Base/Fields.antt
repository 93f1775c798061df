-- ===== src/Base/Fields.antt =====
-- `strings.Fields` and `strings.Join(parts, " ")` on texts as code points.
use go_search.Base.Tests.{leb, ◌==◌, if◌then◌else◌}
use go_search.Base.Text.{Str}
use go_search.Base.Lists.{All}
use mathlib.Core.Path.{◌≡◌, refl, sym, ap, ◌∙◌}
use mathlib.Core.Logic.{◌≢◌}
use mathlib.Core.Bool.{Bool, false, ◌&&◌, ◌||◌}
use mathlib.Core.List.{List, [], ◌∷◌, ◌++◌, append_assoc, append-nil}
use Prim.Native.Nat.{ℕ}

-- `unicode.IsSpace`
unfoldable pub is_space : ℕ → Bool
is_space c =
    (leb 9 c && leb c 13)
    || c == 32
    || c == 0x85
    || c == 0xa0
    || c == 0x1680
    || (leb 0x2000 c && leb c 0x200a)
    || c == 0x2028
    || c == 0x2029
    || c == 0x202f
    || c == 0x205f
    || c == 0x3000

-- A word that has ended is passed on, an empty one is not.
abbrev pub end_word : Str → List Str → List Str
end_word [] words = words
end_word (c ∷ w) words = (c ∷ w) ∷ words

-- `word` is the word that is being read.
unfoldable pub fields_from : Str → Str → List Str
fields_from [] word = end_word word []
fields_from (c ∷ s) word =
    let stop = end_word word (fields_from s []) in
    let go = fields_from s (word ++ (c ∷ [])) in if is_space c then stop else go

unfoldable pub fields : Str → List Str
unfolding fields_from
fields s = fields_from s []

unfoldable pub join_space : List Str → Str
join_space [] = []
join_space (w ∷ []) = w
join_space (w ∷ v ∷ ws) = w ++ (32 ∷ join_space (v ∷ ws))

-- A word: not empty, and no space in it.
abbrev pub IsWord : Str → Type 0
IsWord w = (w ≢ []) × All (λ c. is_space c ≡ false) w

fields_from-append :
    (w s word : Str)
    → All (λ c. is_space c ≡ false) w
    → fields_from (w ++ s) word ≡ fields_from s (word ++ w)
unfolding fields_from
fields_from-append [] s word h = rw append-nil
fields_from-append (c ∷ w) s word (hc, hw) =
    rw hc (rw (fields_from-append w s (word ++ (c ∷ [])) hw, append_assoc))

end_word_of : (w : Str) (ws : List Str) → w ≢ [] → end_word w ws ≡ w ∷ ws
end_word_of [] ws h = absurd (h refl)
end_word_of (c ∷ w) ws h = refl

-- Words that were joined by spaces are split apart again.
pub fields-join_space : (ws : List Str) → All IsWord ws → fields (join_space ws) ≡ ws
unfolding fields join_space is_space
fields-join_space [] h = refl
fields-join_space (w ∷ []) ((ne, h), _) =
    ap (λ t. fields_from t []) (sym (append-nil w))
    ∙ fields_from-append w [] [] h
    ∙ end_word_of w [] ne
fields-join_space (w ∷ v ∷ ws) ((ne, h), hs) =
    fields_from-append w (32 ∷ join_space (v ∷ ws)) [] h
    ∙ end_word_of w (fields (join_space (v ∷ ws))) ne
    ∙ ap (λ (t : List Str). w ∷ t) (fields-join_space (v ∷ ws) hs)
