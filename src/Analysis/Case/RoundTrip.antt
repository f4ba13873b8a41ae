-- ===== src/Analysis/Case/RoundTrip.antt =====
-- From snake case to Pascal case and back.
use Prim.Native.Char.{Char}
use text.Mathlib.TextLemmas.{nil-append, append-nil, cons-append}
use go_arch_guard.Prelude.{
  String, some, true, ◌≡◌, refl, sym, ap, ◌∙◌, List, [], ◌∷◌, ◌^^◌, All, arith, inl,
}
use go_arch_guard.Analysis.Case.Ascii.{
  IsLower, IsSmall, IsAsciiLawful, small_lem, upper_lem, small_underscore,
}
use go_arch_guard.Analysis.Case.{
  Unicode, split_on, start_ascii, pascal_parts, snake_to_pascal, snake_loop, pascal_to_snake,
}

-- the parts of a name, joined by underscores
abbrev pub join_snake : List String → String
join_snake [] = ""
join_snake (w ∷ []) = w
join_snake (w ∷ v ∷ ws) = w ^^ String.◌∷◌ "_" (join_snake (v ∷ ws))

abbrev pub AreSmall : String → Type 0
AreSmall String.[] = Unit
AreSmall (String.◌∷◌ c s) = IsSmall c × AreSmall s

-- a lower letter and at least one more lower letter or digit, in ASCII
abbrev pub IsWord : String → Type 0
IsWord String.[] = ⊥
IsWord (String.◌∷◌ c String.[]) = ⊥
IsWord (String.◌∷◌ c (String.◌∷◌ d s)) = IsLower c × IsSmall d × AreSmall s

AreSmall-of_IsWord : (w : String) → IsWord w → AreSmall w
AreSmall-of_IsWord String.[] h = elim h [ ]
AreSmall-of_IsWord (String.◌∷◌ c String.[]) h = elim h [ ]
AreSmall-of_IsWord (String.◌∷◌ c (String.◌∷◌ d s)) (l, m, t) = (inl l, (m, t))

split_on-small : (w : String) → AreSmall w → split_on "_" w ≡ w ∷ []
unfolding split_on
split_on-small String.[] h = refl
split_on-small (String.◌∷◌ c s) (m, t) = rw (small_underscore c m, split_on-small s t) refl

split_on-underscore :
    (w rest : String) → AreSmall w → split_on "_" (w ^^ String.◌∷◌ "_" rest) ≡ w ∷ split_on "_" rest
unfolding split_on
split_on-underscore String.[] rest h = rw nil-append refl
split_on-underscore (String.◌∷◌ c s) rest (m, t) =
    rw cons-append (rw (small_underscore c m, split_on-underscore s rest t) refl)

split_on-join_snake :
    (w : String) (ws : List String)
    → All IsWord (w ∷ ws)
    → split_on "_" (join_snake (w ∷ ws)) ≡ w ∷ ws
split_on-join_snake w [] (h, hs) = split_on-small w (AreSmall-of_IsWord w h)
split_on-join_snake w (v ∷ vs) (h, hs) =
    split_on-underscore w (join_snake (v ∷ vs)) (AreSmall-of_IsWord w h)
    ∙ ap (λ rest. w ∷ rest) (split_on-join_snake v vs hs)

-- what follows a word
abbrev tail_of : List String → String
tail_of [] = ""
tail_of (w ∷ ws) = String.◌∷◌ "_" (join_snake (w ∷ ws))

join_snake-cons : (w : String) (ws : List String) → join_snake (w ∷ ws) ≡ w ^^ tail_of ws
join_snake-cons w [] = sym (append-nil w)
join_snake-cons w (v ∷ vs) = refl

abbrev last : Char → String → Char
last c String.[] = c
last c (String.◌∷◌ d s) = last d s

last-IsSmall : (c : Char) (s : String) → IsSmall c → AreSmall s → IsSmall (last c s)
last-IsSmall c String.[] h t = h
last-IsSmall c (String.◌∷◌ d s) h (m, t) = last-IsSmall d s m t

start_ascii-words : (ws : List String) → All IsWord ws → start_ascii ws ≡ true
unfolding start_ascii
start_ascii-words [] h = refl
start_ascii-words (String.[] ∷ ws) (h, hs) = elim h [ ]
start_ascii-words (String.◌∷◌ c String.[] ∷ ws) (h, hs) = elim h [ ]
start_ascii-words (String.◌∷◌ c (String.◌∷◌ d s) ∷ ws) ((l, k, t), hs) =
    ground (arith, l, start_ascii-words ws hs)

module _ (u : Unicode) (law : IsAsciiLawful u) where
  snake_loop-nil : (prev : Char) → snake_loop u prev "" ≡ ""
  unfolding snake_loop
  snake_loop-nil prev = refl

  -- A lower letter or a digit is taken over as it is.
  snake_loop-cons :
      (prev d : Char) (s : String)
      → IsSmall d
      → snake_loop u prev (String.◌∷◌ d s) ≡ String.◌∷◌ d (snake_loop u d s)
  unfolding snake_loop
  snake_loop-cons prev d s m = rw (small_lem u law d m).0 (rw (small_lem u law d m).2 refl)

  snake_loop-small :
      (prev : Char) (t more : String)
      → AreSmall t
      → snake_loop u prev (t ^^ more) ≡ t ^^ snake_loop u (last prev t) more
  snake_loop-small prev String.[] more h =
      ap (snake_loop u prev) (nil-append more) ∙ sym (nil-append (snake_loop u prev more))
  snake_loop-small prev (String.◌∷◌ d t) more (m, h) =
      ap (snake_loop u prev) (cons-append d t more)
      ∙ snake_loop-cons prev d (t ^^ more) m
      ∙ ap (λ x. String.◌∷◌ d x) (snake_loop-small d t more h)
      ∙ sym (cons-append d t (snake_loop u (last d t) more))

  -- behind a small character, the upper letter of the next word is a boundary
  snake_loop-boundary :
      (prev c : Char) (s : String)
      → IsSmall prev
      → IsLower c
      → snake_loop u prev (String.◌∷◌ (u.to_upper c) s)
        ≡ String.◌∷◌ "_" (String.◌∷◌ c (snake_loop u (u.to_upper c) s))
  unfolding snake_loop
  snake_loop-boundary prev c s m l =
      rw (upper_lem u law c l).1 ground (arith, (upper_lem u law c l).0, (small_lem u law prev m).1)

  -- behind a word come the words that follow
  snake_loop-parts :
      (prev : Char) (ws : List String)
      → IsSmall prev
      → All IsWord ws
      → snake_loop u prev (pascal_parts u ws) ≡ tail_of ws
  unfolding pascal_parts
  snake_loop-parts prev [] m h = snake_loop-nil prev
  snake_loop-parts prev (String.[] ∷ ws) m (h, hs) = elim h [ ]
  snake_loop-parts prev (String.◌∷◌ c String.[] ∷ ws) m (h, hs) = elim h [ ]
  snake_loop-parts prev (String.◌∷◌ c (String.◌∷◌ d s) ∷ ws) m ((l, k, t), hs) =
      ap (snake_loop u prev) (cons-append (u.to_upper c) (String.◌∷◌ d s) (pascal_parts u ws))
      ∙ snake_loop-boundary prev c (String.◌∷◌ d s ^^ pascal_parts u ws) m l
      ∙ ap (λ x. String.◌∷◌ "_" x)
          (ap (λ x. String.◌∷◌ c x)
              (snake_loop-small (u.to_upper c) (String.◌∷◌ d s) (pascal_parts u ws) (k, t)
                ∙ ap (λ x. String.◌∷◌ d s ^^ x)
                    (snake_loop-parts (last d s) ws (last-IsSmall d s k t) hs))
            ∙ sym (cons-append c (String.◌∷◌ d s) (tail_of ws))
            ∙ sym (join_snake-cons (String.◌∷◌ c (String.◌∷◌ d s)) ws))

  pascal_to_snake-parts :
      (w : String) (ws : List String)
      → All IsWord (w ∷ ws)
      → pascal_to_snake u (pascal_parts u (w ∷ ws)) ≡ join_snake (w ∷ ws)
  unfolding pascal_to_snake pascal_parts
  pascal_to_snake-parts String.[] ws (h, hs) = elim h [ ]
  pascal_to_snake-parts (String.◌∷◌ c String.[]) ws (h, hs) = elim h [ ]
  pascal_to_snake-parts (String.◌∷◌ c (String.◌∷◌ d s)) ws ((l, k, t), hs) =
      ap (pascal_to_snake u) (cons-append (u.to_upper c) (String.◌∷◌ d s) (pascal_parts u ws))
      ∙ ap (λ x. String.◌∷◌ x (snake_loop u (u.to_upper c) (String.◌∷◌ d s ^^ pascal_parts u ws)))
          (upper_lem u law c l).1
      ∙ ap (λ x. String.◌∷◌ c x)
          (snake_loop-small (u.to_upper c) (String.◌∷◌ d s) (pascal_parts u ws) (k, t)
            ∙ ap (λ x. String.◌∷◌ d s ^^ x)
                (snake_loop-parts (last d s) ws (last-IsSmall d s k t) hs))
      ∙ sym (cons-append c (String.◌∷◌ d s) (tail_of ws))
      ∙ sym (join_snake-cons (String.◌∷◌ c (String.◌∷◌ d s)) ws)

  -- A name of words, each a lower letter of ASCII followed by at least one more lower letter or digit,
  -- has a Pascal case, from which it comes back.
  pub pascal_to_snake-snake_to_pascal :
      (w : String) (ws : List String)
      → All IsWord (w ∷ ws)
      → (pascal : String) × (snake_to_pascal u (join_snake (w ∷ ws)) ≡ some pascal)
        × (pascal_to_snake u pascal ≡ join_snake (w ∷ ws))
  unfolding snake_to_pascal
  pascal_to_snake-snake_to_pascal w ws h = (
    pascal_parts u (w ∷ ws),
    rw (split_on-join_snake w ws h) (rw (start_ascii-words (w ∷ ws) h) refl),
    pascal_to_snake-parts w ws h,
  )
