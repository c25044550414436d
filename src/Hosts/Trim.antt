-- ===== src/Hosts/Trim.antt =====
-- `ltrim`, `rtrim` and `trim` of code/src/include/parser.hpp, which `hosts` calls on each line. A text
-- is the list of its characters.
use cs451_2020_project.Base.{
  ℕ, ◌≡◌, refl, ap, ◌∙◌, inl, inr, Bool, true, false, ◌&&◌, ◌||◌, List, [], ◌∷◌, ◌++◌, leb, ◌==◌,
  if◌then◌else◌, Bool-cases,
}

-- `std::isspace` in the "C" locale: the blank, and tab to carriage return.
abbrev pub is_space : ℕ → Bool
is_space c = c == b' ' || (leb 9 c && leb c 13)

unfoldable pub ltrim : List ℕ → List ℕ
ltrim [] = []
ltrim (c ∷ cs) = if is_space c then ltrim cs else c ∷ cs

-- A character before what is left of the rest.
abbrev pub keep_before : ℕ → List ℕ → List ℕ
keep_before c [] = if is_space c then [] else c ∷ []
keep_before c (r ∷ rest) = c ∷ r ∷ rest

-- Erases what follows the last character that is no space.
unfoldable pub rtrim : List ℕ → List ℕ
rtrim [] = []
rtrim (c ∷ cs) = keep_before c (rtrim cs)

unfoldable pub trim : List ℕ → List ℕ
unfolding ltrim rtrim
trim s = rtrim (ltrim s)

abbrev pub all_spaces : List ℕ → Bool
all_spaces [] = true
all_spaces (c ∷ cs) = is_space c && all_spaces cs

abbrev pub starts_with_space : List ℕ → Bool
starts_with_space [] = false
starts_with_space (c ∷ cs) = is_space c

abbrev pub ends_with_space : List ℕ → Bool
ends_with_space [] = false
ends_with_space (c ∷ []) = is_space c
ends_with_space (c ∷ d ∷ ds) = ends_with_space (d ∷ ds)

ltrim_lem :
    (s : List ℕ)
    → (before : List ℕ) × (s ≡ before ++ ltrim s)
      × (all_spaces before ≡ true)
      × (starts_with_space (ltrim s) ≡ false)
unfolding ltrim
ltrim_lem [] = ([], refl, refl, refl)
ltrim_lem (c ∷ cs) = elim (Bool-cases (is_space c)) [
  | inl space ↦
      let (before, whole, spaces, no_space) = ltrim_lem cs in
      rw space (c ∷ before, ap (λ l. c ∷ l) whole, rw space spaces, no_space)
  | inr other ↦ rw other ([], refl, refl, other)
]

-- What a character before a text changes.
keep_before_lem :
    (c : ℕ) (s t after : List ℕ)
    → s ≡ t ++ after
    → all_spaces after ≡ true
    → ends_with_space t ≡ false
    → (after' : List ℕ) × (c ∷ s ≡ keep_before c t ++ after')
      × (all_spaces after' ≡ true)
      × (ends_with_space (keep_before c t) ≡ false)
      × ((is_space c ≡ false) → starts_with_space (keep_before c t) ≡ false)
keep_before_lem c s [] after whole spaces no_space = elim (Bool-cases (is_space c)) [
  | inl space ↦ rw space (c ∷ after, ap (λ l. c ∷ l) whole, rw space spaces, refl, λ e. refl)
  | inr other ↦ rw other (after, ap (λ l. c ∷ l) whole, spaces, other, λ e. other)
]
keep_before_lem c s (r ∷ rest) after whole spaces no_space =
    (after, ap (λ l. c ∷ l) whole, spaces, no_space, λ e. e)

rtrim_lem :
    (s : List ℕ)
    → (after : List ℕ) × (s ≡ rtrim s ++ after)
      × (all_spaces after ≡ true)
      × (ends_with_space (rtrim s) ≡ false)
      × ((starts_with_space s ≡ false) → starts_with_space (rtrim s) ≡ false)
unfolding rtrim
rtrim_lem [] = ([], refl, refl, refl, λ e. refl)
rtrim_lem (c ∷ cs) =
    let (after, whole, spaces, no_space, _) = rtrim_lem cs in
    keep_before_lem c cs (rtrim cs) after whole spaces no_space

-- `trim` takes spaces off both ends and nothing else, and what is left neither starts nor ends with
-- one.
pub trim_lem :
    (s : List ℕ)
    → (before after : List ℕ) × (s ≡ before ++ (trim s ++ after))
      × (all_spaces before ≡ true)
      × (all_spaces after ≡ true)
      × (starts_with_space (trim s) ≡ false)
      × (ends_with_space (trim s) ≡ false)
unfolding trim
trim_lem s =
    let (before, whole, spaces, no_space) = ltrim_lem s in
    let (after, whole', spaces', no_space', start) = rtrim_lem (ltrim s) in
    (
      before,
      after,
      whole ∙ ap (λ l. before ++ l) whole',
      spaces,
      spaces',
      start no_space,
      no_space',
    )
