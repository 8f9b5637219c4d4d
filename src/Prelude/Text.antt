-- ===== src/Prelude/Text.antt =====
-- Texts put together and taken apart, as the program does it.
use Prim.Native.Char.{code}
use Prim.Native.String.{String, [], ◌∷◌, ◌++◌}
use resin.Prelude.{
  Bool, true, false, ltb, Option, none, some, if◌then◌else◌, ◌==◌, nat_key, ◌≡◌, refl, arith,
}

-- s + "/" + t
unfoldable pub join : String → String → String
join s t = s ++ "/" ++ t

-- the rest of a text that begins with an exclamation mark
unfoldable pub after_bang : String → Option String
after_bang [] = none
after_bang (c ∷ s) = if code c == 33 then some s else none

-- s < t, as Go compares texts
unfoldable pub ltb_text : String → String → Bool
ltb_text [] [] = false
ltb_text [] (d ∷ t) = true
ltb_text (c ∷ s) [] = false
ltb_text (c ∷ s) (d ∷ t) =
    let rest = ltb_text s t in
    if ltb (code c) (code d) then true else if code c == code d then rest else false

pub ltb_text_irrefl : (s : String) → ltb_text s s ≡ false
unfolding ltb_text nat_key
ltb_text_irrefl [] = refl
ltb_text_irrefl (c ∷ s) = ground (arith, ltb_text_irrefl s)

pub ltb_text_asymm : (s t : String) → ltb_text s t ≡ true → ltb_text t s ≡ false
unfolding ltb_text
ltb_text_asymm [] [] h = refl
ltb_text_asymm [] (d ∷ t) h = refl
ltb_text_asymm (c ∷ s) [] h = absurd (ground arith)
ltb_text_asymm (c ∷ s) (d ∷ t) h = ground (arith, ltb_text_asymm s t)

pub ltb_text_negtrans :
    (s t u : String) → ltb_text t s ≡ false → ltb_text u t ≡ false → ltb_text u s ≡ false
unfolding ltb_text
ltb_text_negtrans s [] [] p q = p
ltb_text_negtrans [] [] (e ∷ u) p q = refl
ltb_text_negtrans (c ∷ s) [] (e ∷ u) p q = absurd (ground arith)
ltb_text_negtrans s (d ∷ t) [] p q = absurd (ground arith)
ltb_text_negtrans [] (d ∷ t) (e ∷ u) p q = refl
ltb_text_negtrans (c ∷ s) (d ∷ t) (e ∷ u) p q = ground (arith, ltb_text_negtrans s t u)
