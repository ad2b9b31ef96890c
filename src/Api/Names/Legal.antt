-- ===== src/Api/Names/Legal.antt =====
-- The characters and the length of a container's name.
use Prim.Native.Char.{Char}
use Prim.Native.String.{len, slice, char_at}
use pumpkin_pie.Prelude.{
  ◌≡◌, refl, ◌∙◌, ℕ, ◌+◌, ◌≤◌, String, ◌<>◌, Bool, true, false, ◌||◌, ◌&&◌, ◌==◌, ltb, Bool-cases,
  inl, inr, arith,
}
use text.Mathlib.TextPositions.{len-append}
use pumpkin_pie.Prelude.Texts.{every, every-append, every-slice, len-slice_le}
use pumpkin_pie.Api.Names.{
  is_kept, is_dash, folded, trimmed_left, trimmed_right, shortened, begun, sanitized,
  sanitize_container_name, is_lower, is_digit,
}

-- What a name consists of: a-z, 0-9, `_`, `.` and `-`.
unfoldable pub is_legal : Char → Bool
is_legal c = is_kept c || is_dash c

abbrev pub IsLegal : String → Type 0
IsLegal s = every is_legal s ≡ true

IsLegal-append : (s t : String) → IsLegal s → IsLegal t → IsLegal (s <> t)
IsLegal-append s t h k = every-append is_legal s t ∙ both (every is_legal s) (every is_legal t) h k
  where
    both : (a b : Bool) → a ≡ true → b ≡ true → (a && b) ≡ true
    both a b h k = ground (arith, h, k)

IsLegal-cons : (c : Char) (s : String) → is_legal c ≡ true → IsLegal s → IsLegal (String.◌∷◌ c s)
unfolding every
IsLegal-cons c s e h = rw (e, h) refl

IsLegal-kept : (c : Char) → is_kept c ≡ true → is_legal c ≡ true
unfolding is_legal
IsLegal-kept c e = rw e refl

nothing : IsLegal ""
unfolding every
nothing = refl

prefix : IsLegal "pp-"
unfolding every is_legal is_kept is_dash
prefix = refl

letter : IsLegal "x"
unfolding every is_legal is_kept is_dash
letter = refl

head : (c : Char) (s : String) → IsLegal (String.◌∷◌ c s) → is_legal c ≡ true
unfolding every
head c s h = ground (arith, h)

tail : (c : Char) (s : String) → IsLegal (String.◌∷◌ c s) → IsLegal s
unfolding every
tail c s h = ground (arith, h)

dash-IsLegal : IsLegal "-"
unfolding every is_legal is_kept is_dash
dash-IsLegal = refl

folded-IsLegal : (b : Bool) (s : String) → IsLegal (folded b s)
unfolding folded
folded-IsLegal b String.[] = nothing
folded-IsLegal b (String.◌∷◌ c s) = elim (Bool-cases (is_kept c)) [
  | inl e ↦ rw e (IsLegal-cons c (folded false s) (IsLegal-kept c e) (folded-IsLegal false s))
  | inr e ↦ elim (Bool-cases b) [
    | inl f ↦ rw (e, f) (folded-IsLegal true s)
    | inr f ↦ rw (e, f) (IsLegal-append "-" (folded true s) dash-IsLegal (folded-IsLegal true s))
  ]
]

trimmed_left-IsLegal : (s : String) → IsLegal s → IsLegal (trimmed_left s)
unfolding trimmed_left
trimmed_left-IsLegal String.[] h = h
trimmed_left-IsLegal (String.◌∷◌ c s) h = elim (Bool-cases (is_dash c)) [
  | inl e ↦ rw e (trimmed_left-IsLegal s (tail c s h))
  | inr e ↦ rw e h
]

trimmed_right-IsLegal : (s : String) → IsLegal s → IsLegal (trimmed_right s)
unfolding trimmed_right
trimmed_right-IsLegal String.[] h = h
trimmed_right-IsLegal (String.◌∷◌ c s) h = elim (Bool-cases (is_dash c && trimmed_right s == "")) [
  | inl e ↦ rw e nothing
  | inr e ↦
      rw e (IsLegal-cons c (trimmed_right s) (head c s h) (trimmed_right-IsLegal s (tail c s h)))
]

module _ (rand6 : String) (legal : IsLegal rand6) (six : len rand6 ≡ 6) where
  -- At most this long, and legal.
  abbrev pub IsName : ℕ → String → Type 0
  IsName n s = IsLegal s × (len s ≤ n)

  generic : IsName 64 ("pp-" <> rand6)
  generic =
      (IsLegal-append "pp-" rand6 prefix legal, (rw (len-append "pp-" rand6, six) (omega arith)))

  shortened-IsName : (out : String) → IsLegal out → IsName 64 (shortened rand6 out)
  unfolding shortened
  shortened-IsName out h = elim (Bool-cases (ltb 64 (len out))) [
    | inl e ↦ rw e (
      IsLegal-append (slice out 0 57) ("-" <> rand6) (every-slice is_legal out 57 h)
          (IsLegal-append "-" rand6 dash-IsLegal legal),
      rw (len-append (slice out 0 57) ("-" <> rand6), len-append "-" rand6, six)
          (within (len (slice out 0 57)) (len-slice_le out 57)),
    )
    | inr e ↦ rw e (h, ground (arith, e))
  ]
    where
      within : (n : ℕ) → n ≤ 57 → n + 7 ≤ 64
      within n k = omega (arith, k)

  begun-IsName : (out : String) → IsName 64 out → IsName 65 (begun out)
  unfolding begun
  begun-IsName out (h, k) =
      elim (Bool-cases (is_lower (char_at out 0) || is_digit (char_at out 0))) [
        | inl e ↦ rw e (h, omega (arith, k))
        | inr e ↦ rw e (IsLegal-append "x" out letter h, rw (len-append "x" out) (omega (arith, k)))
      ]

  sanitized-IsName : (s : String) → IsName 65 (sanitized rand6 s)
  unfolding sanitized
  sanitized-IsName s =
      let out = trimmed_right (trimmed_left (folded false s)) in
      let h : IsLegal out =
        trimmed_right-IsLegal (trimmed_left (folded false s))
          (trimmed_left-IsLegal (folded false s) (folded-IsLegal false s)) in
      elim (Bool-cases (out == "")) [
        | inl e ↦ rw e (generic.0, omega (arith, generic.1))
        | inr e ↦ rw e (begun-IsName (shortened rand6 out) (shortened-IsName out h))
      ]

  -- Whatever the user types, the name that is handed to Docker consists of a-z, 0-9, `_`, `.` and
  -- `-`, and has 65 bytes at most (not 64: the x in front of one that begins with `_` or `.` comes
  -- after the cut), where the random suffix is six characters of these.
  pub sanitize_container_name-IsName :
      (lower : String → String) (s : String) → IsName 65 (sanitize_container_name lower rand6 s)
  unfolding sanitize_container_name
  sanitize_container_name-IsName lower s = elim (Bool-cases (lower s == "")) [
    | inl e ↦ rw e (generic.0, omega (arith, generic.1))
    | inr e ↦ rw e (sanitized-IsName (lower s))
  ]
