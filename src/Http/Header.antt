-- ===== src/Http/Header.antt =====
-- `strings.SplitN(s, " ", 2)` and `strings.ToLower(s) == t`, for the Authorization header.
use Prim.Native.Char.{Char, code, char}
use Prim.Native.String.{String, [], ◌∷◌, ◌++◌}
use text.Mathlib.TextLemmas.{nil-append, cons-append}
use text.Mathlib.TextEquality.{Char-path}
use kubectl_mcp.Prelude.{
  ℕ, ◌+◌, Bool, true, false, ◌&&◌, Option, none, some, ◌≡◌, sym, ap, ◌∙◌, arith, leb, ◌==◌, ==_iff,
  if◌then◌else◌, Bool-cases, inl, inr, Option-cases,
}

put : Char → Option (String × String) → Option (String × String)
put c none = none
put c (some (before, after)) = some (c ∷ before, after)

-- the text before the first space and the text after it; none where there is no space
unfoldable pub split_at_space : String → Option (String × String)
unfolding put
split_at_space [] = none
split_at_space (c ∷ s) =
    let rest = put c (split_at_space s) in if code c == 32 then some ([], s) else rest

-- the code of a letter in lower case, of the letters of ASCII
lower_code : ℕ → ℕ
lower_code n = if leb 65 n && leb n 90 then n + 32 else n

-- whether `s` in lower case is `t`, which is of small letters of ASCII
unfoldable pub equals_lowered : String → String → Bool
unfolding lower_code
equals_lowered [] [] = true
equals_lowered [] (d ∷ t) = false
equals_lowered (c ∷ s) [] = false
equals_lowered (c ∷ s) (d ∷ t) =
    let rest = equals_lowered s t in if lower_code (code c) == code d then rest else false

space-append : (s : String) → " " ++ s ≡ char 32 tt ∷ s
space-append s = cons-append (char 32 tt) [] s ∙ ap (λ t. char 32 tt ∷ t) (nil-append s)

-- the parts with a space between them are the text
pub split_at_space-append :
    (s before after : String)
    → split_at_space s ≡ some (before, after)
    → s ≡ before ++ (" " ++ after)
unfolding split_at_space
split_at_space-append [] before after e = ground arith
split_at_space-append (c ∷ s) before after e = elim (Bool-cases (code c == 32)) [
  | inl here ↦
      let b : Path String [] before = ground arith in
      let a : s ≡ after = ground arith in
      rw (← b, ← a)
        (ap (λ d. d ∷ s) (Char-path c (char 32 tt) ((==_iff (code c) 32).0 here))
          ∙ (sym (space-append s) ∙ sym (nil-append (" " ++ s))))
  | inr past ↦ elim (Option-cases (split_at_space s)) [
    | inl none_left ↦ ground arith
    | inr ((b, a), f) ↦
        let x : Path String (c ∷ b) before = ground arith in
        let y : a ≡ after = ground arith in
        rw (← x, ← y)
          (ap (λ t. c ∷ t) (split_at_space-append s b a f) ∙ sym (cons-append c b (" " ++ a)))
  ]
]
