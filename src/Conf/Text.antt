-- ===== src/Conf/Text.antt =====
-- gear/confvar.c: the lines of the configuration file.
use gonggo.Base.{
  ℕ, ◌≡◌, ◌≢◌, refl, Bool, true, false, some, List, [], ◌∷◌, ◌++◌, if◌then◌else◌, ◌==◌, ◌||◌, ◌&&◌,
  nat_eq, bytes_eq, arith, ap, ◌∙◌, contains,
}
use gonggo.Conf.{before, behind, squeeze_space, make_var, parse_text, parse}

-- Bytes of a key or a value: no blank, comment sign, NUL or newline.
abbrev is_plain_byte : ℕ → Bool
is_plain_byte b =
    if b == b'#' then false else if b == b' ' then false else if b == 9 then false else true

abbrev pub is_plain : List ℕ → Bool
is_plain [] = true
is_plain (b ∷ bs) = elim (is_plain_byte b) [ true ↦ is_plain bs | false ↦ false ]

-- What `squeeze_space` gives holds no blank and no comment sign, whatever it is given.
pub squeeze_space_plain : (s : List ℕ) → is_plain (squeeze_space s) ≡ true
unfolding squeeze_space
squeeze_space_plain [] = refl
squeeze_space_plain (b ∷ bs) = ground (arith, squeeze_space_plain bs)

squeeze_space-plain : (s : List ℕ) → is_plain s ≡ true → squeeze_space s ≡ s
unfolding squeeze_space
squeeze_space-plain [] h = refl
squeeze_space-plain (b ∷ bs) h = ground (arith, squeeze_space-plain bs)

-- Only blanks.
abbrev pub is_blanks : List ℕ → Bool
is_blanks [] = true
is_blanks (b ∷ bs) = (b == b' ' || b == 9) && is_blanks bs

squeeze_space-blanks :
    (s t : List ℕ) → is_blanks s ≡ true → squeeze_space (s ++ t) ≡ squeeze_space t
unfolding squeeze_space
squeeze_space-blanks [] t h = refl
squeeze_space-blanks (b ∷ bs) t h = ground (arith, squeeze_space-blanks bs t)

squeeze_space-append :
    (s t : List ℕ) → is_plain s ≡ true → squeeze_space (s ++ t) ≡ s ++ squeeze_space t
unfolding squeeze_space
squeeze_space-append [] t h = refl
squeeze_space-append (b ∷ bs) t h = ground (arith, squeeze_space-append bs t)

before-append : (c : ℕ) (s t : List ℕ) → contains c s ≡ false → before c (s ++ t) ≡ s ++ before c t
unfolding before
before-append c [] t h = refl
before-append c (b ∷ bs) t h = ground (arith, before-append c bs t)

behind-append : (c : ℕ) (s t : List ℕ) → contains c s ≡ false → behind c (s ++ c ∷ t) ≡ some t
unfolding behind
behind-append c [] t h = ground arith
behind-append c (b ∷ bs) t h = ground (arith, behind-append c bs t)

squeeze_space-padded :
    (a s b : List ℕ)
    → is_blanks a ≡ true
    → is_plain s ≡ true
    → squeeze_space (a ++ (s ++ b)) ≡ s ++ squeeze_space b
squeeze_space-padded a s b ha hs = squeeze_space-blanks a _ ha ∙ squeeze_space-append s b hs

squeeze_space_blank : (b : List ℕ) → is_blanks b ≡ true → squeeze_space b ≡ []
unfolding squeeze_space
squeeze_space_blank [] h = refl
squeeze_space_blank (x ∷ b) h = ground (arith, squeeze_space_blank b)

squeeze_space-comment :
    (d comment : List ℕ) → is_blanks d ≡ true → squeeze_space (d ++ b'#' ∷ comment) ≡ []
unfolding squeeze_space
squeeze_space-comment d comment h = squeeze_space-blanks d _ h ∙ ground arith

append-nil : (xs : List ℕ) → xs ++ [] ≡ xs
append-nil [] = refl
append-nil (x ∷ xs) = ap (◌∷◌ x) (append-nil xs)

make_var-some :
    (key val : List ℕ) → val ≢ [] → make_var key val ≡ some (record { name = key; value = val })
unfolding make_var
make_var-some key [] h = absurd (h refl)
make_var-some key (b ∷ bs) h = refl

before-line : (c : ℕ) (s t : List ℕ) → contains c s ≡ false → before c (s ++ c ∷ t) ≡ s
unfolding before
before-line c [] t h = ground arith
before-line c (b ∷ bs) t h = ground (arith, before-line c bs t)

before-other :
    (c n : ℕ) (s : List ℕ) → contains c s ≡ false → c ≢ n → before c (s ++ n ∷ []) ≡ s ++ n ∷ []
unfolding before
before-other c n [] h ne = ground arith
before-other c n (b ∷ bs) h ne = ground (arith, before-other c n bs)

parse_text-split :
    (left right : List ℕ)
    → contains b'=' left ≡ false
    → parse_text (left ++ b'=' ∷ right) ≡ make_var (squeeze_space left) (squeeze_space right)
unfolding parse_text
parse_text-split left right h =
    rw (parse_text, behind-append b'=' left right h, before-line b'=' left right h) refl

parse-split :
    (line left right : List ℕ)
    → before 10 (before 0 line) ≡ left ++ b'=' ∷ right
    → contains b'=' left ≡ false
    → parse line ≡ make_var (squeeze_space left) (squeeze_space right)
unfolding parse
parse-split line left right e h = ap parse_text e ∙ parse_text-split left right h

-- The parts of a line of the file: blanks, a key, blanks, `=`, blanks, a value, blanks, a comment.
pub record IsLine (a key b c val d comment : List ℕ) : Type 0 where
  pub a_blank : is_blanks a ≡ true
  pub b_blank : is_blanks b ≡ true
  pub c_blank : is_blanks c ≡ true
  pub d_blank : is_blanks d ≡ true
  pub key_plain : is_plain key ≡ true
  pub val_plain : is_plain val ≡ true
  pub val_filled : val ≢ []
  pub left_free : contains b'=' (a ++ (key ++ b)) ≡ false
  pub no_nul :
      contains 0 ((a ++ (key ++ b)) ++ b'=' ∷ (c ++ (val ++ (d ++ b'#' ∷ comment)))) ≡ false
  pub no_newline :
      contains 10 ((a ++ (key ++ b)) ++ b'=' ∷ (c ++ (val ++ (d ++ b'#' ∷ comment)))) ≡ false

-- A line as a person writes it, with blanks round the key and the value and a comment behind them,
-- is read as that key with that value.
pub parse-line :
    (a key b c val d comment : List ℕ)
    → IsLine a key b c val d comment
    → parse (((a ++ (key ++ b)) ++ b'=' ∷ (c ++ (val ++ (d ++ b'#' ∷ comment)))) ++ 10 ∷ [])
      ≡ some (record { name = key; value = val })
parse-line a key b c val d comment l =
    let right = c ++ (val ++ (d ++ b'#' ∷ comment)) in
    let left = a ++ (key ++ b) in
    let text = left ++ b'=' ∷ right in
    parse-split (text ++ 10 ∷ []) left right
      (ap (before 10) (before-other 0 10 text l.no_nul (ground arith))
        ∙ before-line 10 text [] l.no_newline)
      l.left_free
    ∙ rw
        (
          squeeze_space-padded a key b l.a_blank l.key_plain,
          squeeze_space_blank b l.b_blank,
          squeeze_space-padded c val (d ++ b'#' ∷ comment) l.c_blank l.val_plain,
          squeeze_space-comment d comment l.d_blank,
          append-nil key,
          append-nil val,
        )
        (make_var-some key val l.val_filled)
