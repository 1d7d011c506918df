-- ===== src/Discovery/Paths.antt =====
-- The form of the paths that `_normalize_path` (endpoint_discovery.py) makes.
use integrated_work_tll.Prelude.{
  String, ◌≡◌, inl, inr, refl, Bool, true, false, not, ◌&&◌, Bool-cases, arith, if◌then◌else◌,
}
use integrated_work_tll.Discovery.{
  is_slash, leads, is_blank, is_long, squeeze, strip_slashes, normalize_path,
}

-- No two slashes stand side by side.
abbrev pub is_single : String → Bool
is_single String.[] = true
is_single (String.◌∷◌ c s) = not (is_slash c && leads s) && is_single s

abbrev pub trails : String → Bool
trails String.[] = false
trails (String.◌∷◌ c s) = if is_blank s then is_slash c else trails s

-- A path begins with a slash, has no empty part, and ends with no slash unless it is the root.
pub record IsNormal (path : String) : Type 0 where
  pub leading : leads path ≡ true
  pub single : is_single path ≡ true
  pub ending : (is_long path && trails path) ≡ false

leads-squeeze : (s : String) → leads (squeeze s) ≡ leads s
unfolding squeeze
leads-squeeze String.[] = refl
leads-squeeze (String.◌∷◌ c s) = ground (arith, leads-squeeze s)

is_single-squeeze : (s : String) → is_single (squeeze s) ≡ true
unfolding squeeze
is_single-squeeze String.[] = refl
is_single-squeeze (String.◌∷◌ c s) = ground (arith, leads-squeeze s, is_single-squeeze s)

leads-blank : (s : String) → is_blank s ≡ true → leads s ≡ false
leads-blank String.[] h = refl
leads-blank (String.◌∷◌ c s) h = ground arith

strip_slashes-leads : (s : String) → leads (strip_slashes s) ≡ true → leads s ≡ true
unfolding strip_slashes
strip_slashes-leads String.[] h = h
strip_slashes-leads (String.◌∷◌ c s) h = ground arith

is_single-strip_slashes : (s : String) → is_single s ≡ true → is_single (strip_slashes s) ≡ true
unfolding strip_slashes
is_single-strip_slashes String.[] h = refl
is_single-strip_slashes (String.◌∷◌ c s) h =
    ground (arith, is_single-strip_slashes s, strip_slashes-leads s)

trails-strip_slashes : (s : String) → trails (strip_slashes s) ≡ false
unfolding strip_slashes
trails-strip_slashes String.[] = refl
trails-strip_slashes (String.◌∷◌ c s) = ground (arith, trails-strip_slashes s)

trails-short : (s : String) → is_long s ≡ false → leads s ≡ false → trails s ≡ false
trails-short String.[] h l = refl
trails-short (String.◌∷◌ c s) h l = ground arith

trails-stripped :
    (s : String) → (is_long s && trails s) ≡ false → leads s ≡ false → trails s ≡ false
trails-stripped s h l = ground (arith, trails-short s)

prefixed-IsNormal :
    (s : String)
    → leads s ≡ false
    → is_single s ≡ true
    → (is_long s && trails s) ≡ false
    → IsNormal (String.◌∷◌ "/" s)
prefixed-IsNormal s l single h = record {
  leading = refl;
  single = ground arith;
  ending = ground (arith, trails-stripped s h l);
}

-- The path without its slashes at the end.
module _ (path : String) where
  abbrev stripped : String
  stripped = if is_long (squeeze path) then strip_slashes (squeeze path) else squeeze path

  stripped_single : is_single stripped ≡ true
  stripped_single = ground (arith, is_single-squeeze path, is_single-strip_slashes (squeeze path))

  stripped_ending : (is_long stripped && trails stripped) ≡ false
  stripped_ending = elim (Bool-cases (is_long (squeeze path))) [
    | inl e ↦ rw e (ground (arith, trails-strip_slashes (squeeze path)))
    | inr e ↦ rw e (ground (arith, e))
  ]

  -- Every path is normalised to one that begins with a slash, has no two slashes side by side, and
  -- does not end with a slash unless it is a slash alone.
  pub normalize_path-IsNormal : IsNormal (normalize_path path)
  unfolding normalize_path
  normalize_path-IsNormal = elim (Bool-cases (is_blank path)) [
    | inl b ↦ rw b (record { leading = refl; single = refl; ending = refl })
    | inr b ↦ elim (Bool-cases (leads stripped)) [
      | inl l ↦
          rw (b, l) (record { leading = l; single = stripped_single; ending = stripped_ending })
      | inr l ↦ rw (b, l) (prefixed-IsNormal stripped l stripped_single stripped_ending)
    ]
  ]
