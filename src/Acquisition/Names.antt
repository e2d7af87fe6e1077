-- ===== src/Acquisition/Names.antt =====
-- `normalize_pypi_project_name`: what it makes of a name, and that it leaves its results alone.
use mcp_observatory.Prelude.{
  ℕ, ◌==◌, if◌then◌else◌, Bytes, length, null, all, front, back, Ensures, holds, ◌≤◌, Bool, true,
  false, not, ◌&&◌, ◌||◌, [], ◌∷◌, ◌++◌, append-nil, ◌≡◌, refl, sym, Bool-cases, rejected,
  Ensures-bind, Ensures-weaken, Ensures-branch, ◌∙◌, ◌⊎◌, inl, inr, append_assoc, arith, &&-eq-true,
  ok, err, String, leb, leb→le, le→leb, not-true→false, Ensures-ok, Ensures-require, ap, subst,
}
use mcp_observatory.Acquisition.Fields.{
  ascii_alphanumeric, is_separator, to_lower, name_step, name_loop, is_upper,
  normalize_pypi_project_name, bad_project_name,
}

-- a lower-case letter or a digit
abbrev is_canonical : ℕ → Bool
is_canonical c = ascii_alphanumeric c && not (is_upper c)

-- Lower-case letters, digits and single dashes; the flag forbids a dash.
unfoldable pub canonical : Bool → Bytes → Bool
canonical dashed [] = true
canonical dashed (c ∷ s) =
    (is_canonical c && canonical false s) || (c == b'-' && not dashed && canonical true s)

-- A normal project name.
pub record IsNormal (name : Bytes) : Type 0 where
  pub bytes : canonical false name ≡ true
  pub nonempty : null name ≡ false
  pub bounded : length name ≤ 512
  pub first : ascii_alphanumeric (front name) ≡ true
  pub last : ascii_alphanumeric (back name) ≡ true

-- each letter in lower case, and a dash for each run of separators
unfoldable pub collapsed : Bool → Bytes → Bytes
collapsed separator [] = []
collapsed separator (c ∷ s) =
    if ascii_alphanumeric c
    then to_lower c ∷ collapsed false s
    else if separator
    then collapsed true s
    else b'-' ∷ collapsed true s

abbrev name_byte : ℕ → Bool
name_byte c = ascii_alphanumeric c || is_separator c

name_step-collapsed :
    (out : Bytes) (separator : Bool) (c : ℕ)
    → Ensures
        (λ (r : Bytes × Bool).
          ((t : Bytes) → r.0 ++ collapsed r.1 t ≡ out ++ collapsed separator (c ∷ t))
          × (name_byte c ≡ true))
        (name_step out separator c)
unfolding name_step collapsed
name_step-collapsed out separator c =
    Ensures-branch (ascii_alphanumeric c)
      (λ a. holds ((λ t. rw a (append_assoc out (to_lower c ∷ []) (collapsed false t))), rw a refl))
      λ a.
        Ensures-branch (is_separator c)
          (λ b. holds ((λ t. rw a (dashed t (Bool-cases separator))), rw a b)) (λ b. rejected)
  where
    dashed :
        (t : Bytes) (d : (separator ≡ true) ⊎ (separator ≡ false))
        → (if separator then out else out ++ b'-' ∷ []) ++ collapsed true t
          ≡ out ++ (if separator then collapsed true t else b'-' ∷ collapsed true t)
    dashed t (inl h) = rw h refl
    dashed t (inr h) = rw h (append_assoc out (b'-' ∷ []) (collapsed true t))

name_loop-collapsed :
    (out : Bytes) (separator : Bool) (s : Bytes)
    → Ensures
        (λ n. (n ≡ out ++ collapsed separator s) × (all name_byte s ≡ true))
        (name_loop out separator s)
unfolding name_loop collapsed
name_loop-collapsed out separator [] = holds (sym (append-nil out), refl)
name_loop-collapsed out separator (c ∷ s) =
    Ensures-bind (name_step-collapsed out separator c)
      λ r h. Ensures-weaken (name_loop-collapsed r.0 r.1 s) λ n k. (k.0 ∙ h.0 s, rw h.1 k.1)

-- bytes of a normal name
to_lower-canonical : (c : ℕ) → ascii_alphanumeric c ≡ true → is_canonical (to_lower c) ≡ true
unfolding ascii_alphanumeric
to_lower-canonical c h = ground arith

canonical-to_lower : (c : ℕ) → is_canonical c ≡ true → to_lower c ≡ c
unfolding ascii_alphanumeric
canonical-to_lower c h = ground arith

dash_not_alphanumeric : (c : ℕ) → (c == b'-') ≡ true → ascii_alphanumeric c ≡ false
unfolding ascii_alphanumeric
dash_not_alphanumeric c h = ground arith

collapsed-canonical :
    (separator : Bool) (s : Bytes) → canonical separator (collapsed separator s) ≡ true
unfolding canonical collapsed
collapsed-canonical separator [] = refl
collapsed-canonical separator (c ∷ s) =
    ground (arith, to_lower-canonical c, collapsed-canonical false s, collapsed-canonical true s)

collapsed-fixed :
    (separator : Bool) (s : Bytes) → canonical separator s ≡ true → collapsed separator s ≡ s
unfolding canonical collapsed
collapsed-fixed separator [] h = refl
collapsed-fixed separator (c ∷ s) h = ground (
  arith,
  canonical-to_lower c,
  dash_not_alphanumeric c,
  collapsed-fixed false s,
  collapsed-fixed true s,
)

length-collapsed : (separator : Bool) (s : Bytes) → length (collapsed separator s) ≤ length s
unfolding collapsed
length-collapsed separator [] = omega arith
length-collapsed separator (c ∷ s) =
    ground (arith, length-collapsed true s, length-collapsed false s)

-- ends in a letter or a digit
abbrev EndsWell : Bytes → Type 0
EndsWell s = (null s ≡ false) × (ascii_alphanumeric (back s) ≡ true)

EndsWell-cons : (c : ℕ) (s : Bytes) → EndsWell s → EndsWell (c ∷ s)
EndsWell-cons c [] w = cc w.0
EndsWell-cons c (d ∷ s) w = w

EndsWell-collapsed-cons :
    (separator : Bool) (c : ℕ) (s : Bytes)
    → ((b : Bool) → EndsWell (collapsed b s))
    → EndsWell (collapsed separator (c ∷ s))
unfolding collapsed
EndsWell-collapsed-cons separator c s w = elim (Bool-cases (ascii_alphanumeric c)) [
  | inl a ↦ rw a (EndsWell-cons _ _ (w false))
  | inr a ↦ rw a (elim (Bool-cases separator) [
    | inl d ↦ rw d (w true)
    | inr d ↦ rw d (EndsWell-cons _ _ (w true))
  ])
]

alphanumeric-to_lower :
    (c : ℕ) → ascii_alphanumeric c ≡ true → ascii_alphanumeric (to_lower c) ≡ true
unfolding ascii_alphanumeric
alphanumeric-to_lower c h = ground arith

collapsed-single :
    (separator : Bool) (c : ℕ)
    → ascii_alphanumeric c ≡ true
    → collapsed separator (c ∷ []) ≡ to_lower c ∷ []
unfolding collapsed
collapsed-single separator c h = rw h refl

EndsWell-collapsed :
    (s : Bytes) → EndsWell s → (separator : Bool) → EndsWell (collapsed separator s)
EndsWell-collapsed [] w separator = cc w.0
EndsWell-collapsed (c ∷ []) w separator =
    rw (collapsed-single separator c w.1) (refl, alphanumeric-to_lower c w.1)
EndsWell-collapsed (c ∷ d ∷ s) w separator =
    EndsWell-collapsed-cons separator c (d ∷ s) (EndsWell-collapsed (d ∷ s) w)

canonical→name_byte : (b : Bool) (s : Bytes) → canonical b s ≡ true → all name_byte s ≡ true
unfolding canonical
canonical→name_byte b [] h = refl
canonical→name_byte b (c ∷ s) h =
    ground (arith, canonical→name_byte false s, canonical→name_byte true s)

name_step-eq-ok :
    (out : Bytes) (separator : Bool) (c : ℕ)
    → name_byte c ≡ true
    → (r : Bytes × Bool) × (name_step out separator c ≡ ok r)
unfolding name_step
name_step-eq-ok out separator c h = chosen (ascii_alphanumeric c) (is_separator c) _ _ _ h
  where
    chosen :
        (x y : Bool) (p q : Bytes × Bool) (e : String)
        → (x || y) ≡ true
        → (r : Bytes × Bool) × ((if x then ok p else if y then ok q else err e) ≡ ok r)
    chosen true y p q e k = (_, refl)
    chosen false true p q e k = (_, refl)
    chosen false false p q e k = cc

name_loop-eq-ok :
    (out : Bytes) (separator : Bool) (s : Bytes)
    → all name_byte s ≡ true
    → (n : Bytes) × (name_loop out separator s ≡ ok n)
unfolding name_loop
name_loop-eq-ok out separator [] h = (out, refl)
name_loop-eq-ok out separator (c ∷ s) h =
    let (p, q) = &&-eq-true _ _ h in
    let (r, e) = name_step-eq-ok out separator c p in
    let (n, k) = name_loop-eq-ok r.0 r.1 s q in (n, rw e k)

front-collapsed :
    (s : Bytes)
    → null s ≡ false
    → ascii_alphanumeric (front s) ≡ true
    → ascii_alphanumeric (front (collapsed false s)) ≡ true
unfolding collapsed
front-collapsed [] n h = cc
front-collapsed (c ∷ s) n h = rw h (alphanumeric-to_lower c h)

name_loop-fixed : (n : Bytes) → canonical false n ≡ true → name_loop [] false n ≡ ok n
name_loop-fixed n h =
    let (m, e) = name_loop-eq-ok [] false n (canonical→name_byte false n h) in
    let k : m ≡ n = (Ensures-ok (name_loop-collapsed [] false n) e).0 ∙ collapsed-fixed false n h in
    e ∙ ap ok k

-- A name that is normal passes unchanged.
normal-fixed : (n : Bytes) → IsNormal n → normalize_pypi_project_name n ≡ ok n
unfolding normalize_pypi_project_name
normal-fixed n v =
    rw (v.nonempty, le→leb (length n) 512 v.bounded, v.first, v.last) (name_loop-fixed n v.bytes)

collapsed-IsNormal :
    (name : Bytes)
    → null name ≡ false
    → length name ≤ 512
    → ascii_alphanumeric (front name) ≡ true
    → ascii_alphanumeric (back name) ≡ true
    → IsNormal (collapsed false name)
collapsed-IsNormal name n l f b = record {
  bytes = collapsed-canonical false name;
  nonempty = (EndsWell-collapsed name (n, b) false).0;
  bounded = omega (arith, length-collapsed false name);
  first = front-collapsed name n f;
  last = (EndsWell-collapsed name (n, b) false).1;
}

-- What `normalize_pypi_project_name` returns begins and ends with a letter or a digit, has at most
-- 512 bytes, all of them lower-case letters, digits and single dashes, and is returned unchanged
-- when it is normalized again.
pub normalize_pypi_project_name-IsNormal :
    (name : Bytes)
    → Ensures
        (λ n. IsNormal n × (normalize_pypi_project_name n ≡ ok n))
        (normalize_pypi_project_name name)
unfolding normalize_pypi_project_name
normalize_pypi_project_name-IsNormal name = Ensures-require _ bad_project_name λ h.
    let (h2, b) =
      &&-eq-true (not (null name) && leb (length name) 512 && ascii_alphanumeric (front name)) _
        h in
    let (h1, f) = &&-eq-true (not (null name) && leb (length name) 512) _ h2 in
    let (n, l) = &&-eq-true (not (null name)) _ h1 in
    let v = collapsed-IsNormal name (not-true→false _ n) (leb→le _ _ l) f b in
    Ensures-weaken (name_loop-collapsed [] false name) λ m k.
      subst (λ x. IsNormal x × (normalize_pypi_project_name x ≡ ok x)) (sym k.0)
        (v, normal-fixed _ v)
