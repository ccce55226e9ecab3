-- ===== src/Browser/Navigation.antt =====
-- packages/nextjs/utils/navigation.ts: where the login page goes on to.
use zk_voting.Prelude.{
  ℕ, ◌≤◌, ◌≡◌, ◌≢◌, refl, ◌⊎◌, inl, inr, Bool, false, not, ◌&&◌, ◌||◌, Option, none, some, [], ◌∷◌,
  arith, ltb, ◌==◌, All, Bool-cases, if◌then◌else◌,
}
use zk_voting.Prelude.Text.{Text, codes, trim, starts_with, in_range, is_digit}

abbrev is_letter : ℕ → Bool
is_letter c = in_range b'a' b'z' c || in_range b'A' b'Z' c

abbrev is_scheme_unit : ℕ → Bool
is_scheme_unit c = is_letter c || is_digit c || c == b'+' || c == b'-' || c == b'.'

-- `[a-zA-Z\d+\-.]*:` at the start of the text
unfoldable pub ends_scheme : Text → Bool
ends_scheme [] = false
ends_scheme (c ∷ s) = let rest = ends_scheme s in if is_scheme_unit c then rest else c == b':'

abbrev pub has_scheme : Text → Bool
has_scheme [] = false
has_scheme (c ∷ s) = is_letter c && ends_scheme s

-- `looksAbsolute(value)`
unfoldable pub looks_absolute : Text → Bool
unfolding starts_with ends_scheme
looks_absolute value =
    starts_with value (codes "//")
    || starts_with value (b'/' ∷ b'\\' ∷ [])
    || starts_with value (b'\\' ∷ [])
    || has_scheme value

-- `hasControlCharacter(value)`
unfoldable pub has_control_character : Text → Bool
has_control_character [] = false
has_control_character (code ∷ s) = ltb code 0x20 || code == 0x7f || has_control_character s

-- `safeNextPath(raw, fallback)` past the trim
unfoldable pub checked_path : Text → Text → Text
unfolding starts_with looks_absolute has_control_character
checked_path [] fallback = fallback
checked_path (c ∷ s) fallback =
    if not (starts_with (c ∷ s) (codes "/"))
    then fallback
    else if looks_absolute (c ∷ s)
    then fallback
    else if has_control_character (c ∷ s)
    then fallback
    else c ∷ s

-- `safeNextPath(raw, fallback)`
unfoldable pub safe_next_path : Option Text → Text → Text
unfolding trim checked_path
safe_next_path none fallback = fallback
safe_next_path (some raw) fallback = checked_path (trim raw) fallback

abbrev pub IsPrintable : ℕ → Type 0
IsPrintable c = (0x20 ≤ c) × (c ≢ 0x7f)

abbrev pub IsNoHost : Text → Type 0
IsNoHost [] = Unit
IsNoHost (c ∷ s) = (c ≢ b'/') × (c ≢ b'\\')

-- A path on the origin: a slash, no second slash or backslash, and no control character.
abbrev pub IsLocalPath : Text → Type 0
IsLocalPath [] = ⊥
IsLocalPath (c ∷ s) = (c ≡ b'/') × IsNoHost s × All IsPrintable (c ∷ s)

IsPrintable-of_clean : (s : Text) → has_control_character s ≡ false → All IsPrintable s
unfolding has_control_character
IsPrintable-of_clean [] h = tt
IsPrintable-of_clean (c ∷ s) h = (ground arith, IsPrintable-of_clean s (ground arith))

clean_of_printable : (s : Text) → All IsPrintable s → has_control_character s ≡ false
unfolding has_control_character
clean_of_printable [] h = refl
clean_of_printable (c ∷ s) (hc, hs) = ground (arith, clean_of_printable s hs)

relative_of_no_host : (c : ℕ) (s : Text) → c ≡ b'/' → IsNoHost s → looks_absolute (c ∷ s) ≡ false
unfolding looks_absolute starts_with ends_scheme
relative_of_no_host c [] h k = rw h refl
relative_of_no_host c (d ∷ s) h k = rw h (ground arith)

IsNoHost-of_relative : (c : ℕ) (s : Text) → c ≡ b'/' → looks_absolute (c ∷ s) ≡ false → IsNoHost s
unfolding looks_absolute starts_with
IsNoHost-of_relative c [] h k = tt
IsNoHost-of_relative c (d ∷ s) h k = ground (arith, h, k)

abbrev Checked : Text → Text → Text → Type 0
Checked fallback v r = (IsLocalPath v × (r ≡ v)) ⊎ ((IsLocalPath v → ⊥) × (r ≡ fallback))

checked_path_cases : (v fallback : Text) → Checked fallback v (checked_path v fallback)
unfolding checked_path starts_with
checked_path_cases [] fallback = inr (λ local. local, refl)
checked_path_cases (c ∷ s) fallback = elim (Bool-cases (c == b'/')) [
  | inr e ↦ inr (λ local. ground (arith, local.0, e), rw e refl)
  | inl e ↦
      let slash : c ≡ b'/' = ground (arith, e) in
      elim (Bool-cases (looks_absolute (c ∷ s))) [
        | inl absolute ↦ inr (
          λ local. ground (arith, relative_of_no_host c s slash local.1, absolute),
          rw (absolute, e) refl,
        )
        | inr relative ↦ elim (Bool-cases (has_control_character (c ∷ s))) [
          | inl dirty ↦ inr (
            λ local. ground (arith, clean_of_printable (c ∷ s) local.2, dirty),
            rw (relative, e, dirty) refl,
          )
          | inr clean ↦ inl (
            (slash, IsNoHost-of_relative c s slash relative, IsPrintable-of_clean (c ∷ s) clean),
            rw (relative, e, clean) refl,
          )
        ]
      ]
]

-- `safeNextPath` gives the trimmed target where it is a path on this origin, with no host after
-- the first slash and no control character, and the fallback for every other.
pub safe_next_path-IsLocalPath :
    (raw fallback : Text)
    → (IsLocalPath (trim raw) × (safe_next_path (some raw) fallback ≡ trim raw))
      ⊎ ((IsLocalPath (trim raw) → ⊥) × (safe_next_path (some raw) fallback ≡ fallback))
unfolding safe_next_path
safe_next_path-IsLocalPath raw fallback = checked_path_cases (trim raw) fallback
