-- ===== src/Prelude/Codes.antt =====
-- Texts that are taken apart: lists of code points, with Python's operations on them.
use Prim.Native.Nat.{ℕ}
use mathlib.Core.Path.{◌≡◌, refl}
use mathlib.Core.Bool.{Bool, true, false, ◌&&◌}
use mathlib.Core.List.{List, [], ◌∷◌}
use native.Mathlib.Omega.{arith}
use free_fire_room.Prelude.Tests.{◌==◌, if◌then◌else◌, Bool-cases}
use mathlib.Core.Logic.{inl, inr}
use free_fire_room.Prelude.Rows.{any}
use free_fire_room.Prelude.Text.{is_space}

abbrev pub Chars : Type 0
Chars = List ℕ

-- `a == b`
abbrev pub same_text : Chars → Chars → Bool
same_text [] [] = true
same_text (a ∷ s) (b ∷ t) = a == b && same_text s t
same_text _ _ = false

-- `t.startswith(p)`
abbrev pub starts_with : Chars → Chars → Bool
starts_with t [] = true
starts_with [] (p ∷ ps) = false
starts_with (c ∷ t) (p ∷ ps) = c == p && starts_with t ps

abbrev pub strip_front : Chars → Chars
strip_front [] = []
strip_front (c ∷ t) = let rest = strip_front t in if is_space c then rest else c ∷ t

-- a character that is kept, or that another one follows
abbrev pub strip_back : Chars → Chars
strip_back [] = []
strip_back (c ∷ t) =
    let rest = strip_back t in if is_space c && same_text rest [] then [] else c ∷ rest

-- `str.strip`
abbrev pub strip_text : Chars → Chars
strip_text t = strip_back (strip_front t)

strip_back-plain : (t : Chars) → any is_space t ≡ false → strip_back t ≡ t
strip_back-plain [] h = refl
strip_back-plain (c ∷ t) h = elim (Bool-cases (is_space c)) [
  | inl e ↦ absurd (let q : true ≡ false = rw e at h in ground arith)
  | inr e ↦ let rest : any is_space t ≡ false = rw e at h in rw (e, strip_back-plain t rest) refl
]

strip_front-plain : (t : Chars) → any is_space t ≡ false → strip_front t ≡ t
strip_front-plain [] h = refl
strip_front-plain (c ∷ t) h = elim (Bool-cases (is_space c)) [
  | inl e ↦ absurd (let q : true ≡ false = rw e at h in ground arith)
  | inr e ↦ rw e refl
]

-- A text without white space is as it was when stripped.
pub strip_text-plain : (t : Chars) → any is_space t ≡ false → strip_text t ≡ t
strip_text-plain t h = rw (strip_front-plain t h) (strip_back-plain t h)
