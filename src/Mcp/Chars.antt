-- ===== src/Mcp/Chars.antt =====
-- A test and a predicate on every character of a text.
use Prim.Native.Char.{Char}
use Prim.Native.String.{String, [], ◌∷◌}
use kubectl_mcp.Prelude.{Bool, true, false, ◌≡◌, ◌↔◌, arith, if◌then◌else◌}

-- the loop that stops at the first character that fails
unfoldable pub all_chars : (Char → Bool) → String → Bool
all_chars p [] = true
all_chars p (c ∷ s) = let rest = all_chars p s in if p c then rest else false

pub AllChars : (Char → Type 0) → String → Type 0
AllChars P [] = Unit
AllChars P (c ∷ s) = P c × AllChars P s

pub all_chars_iff :
    (p : Char → Bool) (P : Char → Type 0) (s : String)
    → ((c : Char) → (p c ≡ true) ↔ P c)
    → (all_chars p s ≡ true) ↔ AllChars P s
unfolding all_chars AllChars
all_chars_iff p P [] h = ground arith
all_chars_iff p P (c ∷ s) h = ground (arith, h c, all_chars_iff p P s h)
