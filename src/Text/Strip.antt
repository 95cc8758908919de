-- ===== src/Text/Strip.antt =====
-- `str.strip`.
use bff.Prelude.{
  ℕ, List, [], ◌∷◌, ◌++◌, Bool, false, ◌≡◌, refl, ap, ◌∙◌, sym, if◌then◌else◌, Bool-cases, inl, inr,
}
use mathlib.Core.List.{reverse, reverse-reverse, reverse-append}

module _ (space : ℕ → Bool) where
  abbrev pub lstrip : List ℕ → List ℕ
  lstrip [] = []
  lstrip (c ∷ s) = if space c then lstrip s else c ∷ s

  -- `value.strip()`: the leading run goes, and then the trailing one.
  unfoldable pub strip : List ℕ → List ℕ
  strip s = reverse (lstrip (reverse (lstrip s)))

  -- A text is trimmed if its first code point is no space.
  abbrev Starts : List ℕ → Type 0
  Starts [] = Unit
  Starts (c ∷ s) = space c ≡ false

  lstrip-Starts : (s : List ℕ) → Starts (lstrip s)
  lstrip-Starts [] = tt
  lstrip-Starts (c ∷ s) = elim (Bool-cases (space c)) [
    | inl e ↦ rw e (lstrip-Starts s)
    | inr e ↦ rw e e
  ]

  lstrip_of_Starts : (s : List ℕ) → Starts s → lstrip s ≡ s
  lstrip_of_Starts [] h = refl
  lstrip_of_Starts (c ∷ s) h = rw h

  -- What `lstrip` removes.
  lead : (s : List ℕ) → (p : List ℕ) × (s ≡ p ++ lstrip s)
  lead [] = ([], refl)
  lead (c ∷ s) = elim (Bool-cases (space c)) [
    | inl e ↦ (let (p, h) = lead s in (c ∷ p, rw e (ap (λ t. c ∷ t) h)))
    | inr e ↦ ([], rw e refl)
  ]

  Starts-prefix : (s t : List ℕ) → Starts (s ++ t) → Starts s
  Starts-prefix [] t h = tt
  Starts-prefix (c ∷ s) t h = h

  -- Trimming the end leaves the start.
  strip-Starts : (s : List ℕ) → Starts (strip s)
  unfolding strip
  strip-Starts s =
      let front = lstrip s in
      let (p, h) = lead (reverse front) in
      let whole : front ≡ strip s ++ reverse p =
        sym (reverse-reverse front) ∙ ap reverse h ∙ reverse-append p (lstrip (reverse front)) in
      Starts-prefix (strip s) (reverse p) (rw whole at (lstrip-Starts s))

  -- What is trimmed stays as it is.
  pub strip-strip : (s : List ℕ) → strip (strip s) ≡ strip s
  unfolding strip
  strip-strip s =
      let back = lstrip (reverse (lstrip s)) in
      rw
        (
          lstrip_of_Starts (strip s) (strip-Starts s),
          reverse-reverse back,
          lstrip_of_Starts back (lstrip-Starts (reverse (lstrip s))),
        )
        refl
