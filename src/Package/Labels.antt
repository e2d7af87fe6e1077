-- ===== src/Package/Labels.antt =====
-- `parse_prerelease` on a spelled pre-release.
use mcp_observatory.Prelude.{
  Bytes, ◌==◌, &&-eq-true, ascii, null, all, front, ℕ, ◌≡◌, refl, true, false, not, ◌||◌, Option,
  none, some, [], ◌∷◌, ◌++◌, arith, equal, subst, ◌&&◌, append-nil,
}
use mcp_observatory.Scan.{is_digit, decimal}
use mcp_observatory.Registry.Address.{lower_ascii, to_lower}
use mcp_observatory.Package.Versions.{
  parse_pypi_version_number, next_component, is_alpha, pypi_version_separator, span_alpha,
  prerelease_kind, without_separator, prerelease_number, parse_prerelease,
}
use mcp_observatory.Package.Spelling.{
  Phase, alpha, beta, candidate, IsLabel, a_letter, alpha_word, b_letter, beta_word, rc_word,
  c_letter, pre_word, preview_word, Prerelease, optionally, prerelease_text, IsNumber, IsSeparator,
  IsPrerelease, rank, prerelease_meaning,
}
use mcp_observatory.Package.Components.{number-append, Closes}

label-kind : (p : Phase) (t : Bytes) → IsLabel p t → prerelease_kind t ≡ some (rank p)
unfolding prerelease_kind ascii equal
label-kind alpha t a_letter = refl
label-kind alpha t alpha_word = refl
label-kind beta t b_letter = refl
label-kind beta t beta_word = refl
label-kind candidate t rc_word = refl
label-kind candidate t c_letter = refl
label-kind candidate t pre_word = refl
label-kind candidate t preview_word = refl

-- letters, and at least one
abbrev IsWord : Bytes → Type 0
IsWord t = (not (null t) && all is_alpha t) ≡ true

label-IsWord : (p : Phase) (t : Bytes) → IsLabel p t → IsWord t
unfolding ascii
label-IsWord alpha t a_letter = refl
label-IsWord alpha t alpha_word = refl
label-IsWord beta t b_letter = refl
label-IsWord beta t beta_word = refl
label-IsWord candidate t rc_word = refl
label-IsWord candidate t c_letter = refl
label-IsWord candidate t pre_word = refl
label-IsWord candidate t preview_word = refl

alpha-to_lower : (x : ℕ) → is_alpha (to_lower x) ≡ is_alpha x
alpha-to_lower x = ground arith

all_alpha-lower_ascii : (t : Bytes) → all is_alpha (lower_ascii t) ≡ all is_alpha t
unfolding lower_ascii
all_alpha-lower_ascii [] = refl
all_alpha-lower_ascii (x ∷ t) = rw (alpha-to_lower x, all_alpha-lower_ascii t) refl

lower_ascii-IsWord : (t : Bytes) → IsWord (lower_ascii t) → IsWord t
unfolding lower_ascii
lower_ascii-IsWord [] h = h
lower_ascii-IsWord (x ∷ t) h = subst (λ y. y ≡ true) (all_alpha-lower_ascii (x ∷ t)) h

-- a text that does not begin with a letter
abbrev EndsWord : Bytes → Type 0
EndsWord s = (null s || not (is_alpha (front s))) ≡ true

span_alpha-append :
    (t rest : Bytes) → all is_alpha t ≡ true → EndsWord rest → span_alpha (t ++ rest) ≡ (t, rest)
unfolding span_alpha
span_alpha-append [] [] h k = refl
span_alpha-append [] (x ∷ rest) h k = rw (let e : is_alpha x ≡ false = ground arith in e) refl
span_alpha-append (x ∷ t) rest h k =
    let (p, q) = &&-eq-true (is_alpha x) (all is_alpha t) h in
    rw (p, span_alpha-append t rest q k) refl

-- behind the label
between-EndsWord :
    (o : Option ℕ) (ds : Bytes)
    → IsSeparator o
    → all is_digit ds ≡ true
    → EndsWord (optionally o ds)
between-EndsWord none [] h k = refl
between-EndsWord none (d ∷ ds) h k = ground arith
between-EndsWord (some x) ds h k = ground arith

without_separator-number :
    (o : Option ℕ) (ds : Bytes)
    → IsSeparator o
    → all is_digit ds ≡ true
    → without_separator (optionally o ds) ≡ ds
unfolding pypi_version_separator
without_separator-number (some x) ds h k = rw h refl
without_separator-number none [] h k = refl
without_separator-number none (d ∷ ds) h k =
    rw (let e : (d == b'.' || d == b'-' || d == b'_') ≡ false = ground arith in e) refl

without_separator-word :
    (o : Option ℕ) (t rest : Bytes)
    → IsSeparator o
    → IsWord t
    → without_separator (optionally o (t ++ rest)) ≡ t ++ rest
unfolding pypi_version_separator
without_separator-word (some x) t rest h k = rw h refl
without_separator-word none [] rest h k = cc
without_separator-word none (x ∷ t) rest h k =
    rw (let e : (x == b'.' || x == b'-' || x == b'_') ≡ false = ground arith in e) refl

prerelease_number_lem : (ds : Bytes) → IsNumber ds → prerelease_number ds ≡ some (decimal 0 ds)
unfolding prerelease_number
prerelease_number_lem [] h = unfold decimal in refl
prerelease_number_lem (d ∷ ds) h =
    let e : parse_pypi_version_number (d ∷ ds) ≡ some (decimal 0 (d ∷ ds), []) =
      subst (λ x. parse_pypi_version_number (d ∷ x) ≡ some (decimal 0 (d ∷ ds), [])) (append-nil ds)
        (number-append d ds [] h refl) in
    rw (e, prerelease_number) refl

prerelease_text-nonempty :
    (p : Prerelease) → IsWord p.label → null (prerelease_text (some p)) ≡ false
prerelease_text-nonempty p h = by_parts p.ahead p.label _ h
  where
    by_parts : (o : Option ℕ) (t rest : Bytes) → IsWord t → null (optionally o (t ++ rest)) ≡ false
    by_parts (some x) t rest h = refl
    by_parts none [] rest h = cc
    by_parts none (x ∷ t) rest h = refl

-- the steps of `parse_prerelease`, on a text that is not empty
parse_prerelease-steps :
    (s t label rest ds : Bytes) (kind n : ℕ)
    → null s ≡ false
    → without_separator s ≡ t
    → span_alpha t ≡ (label, rest)
    → prerelease_kind (lower_ascii label) ≡ some kind
    → without_separator rest ≡ ds
    → prerelease_number ds ≡ some n
    → parse_prerelease s ≡ some (some (kind, n))
unfolding parse_prerelease
parse_prerelease-steps [] t label rest ds kind n h e f g i j = cc
parse_prerelease-steps (x ∷ s) t label rest ds kind n h e f g i j =
    let known : prerelease_kind (lower_ascii (span_alpha (without_separator (x ∷ s))).0)
        ≡ some kind =
      rw (e, f) g in
    let counted : prerelease_number (without_separator (span_alpha (without_separator (x ∷ s))).1)
        ≡ some n =
      rw (e, f, i) j in
    rw (parse_prerelease, known, counted) refl

pub parse_prerelease-text :
    (p : Option Prerelease)
    → IsPrerelease p
    → parse_prerelease (prerelease_text p) ≡ some (prerelease_meaning p)
parse_prerelease-text none h = unfold parse_prerelease in refl
parse_prerelease-text (some p) (ahead, label, between, number) =
    let word = lower_ascii-IsWord p.label (label-IsWord p.phase (lower_ascii p.label) label) in
    parse_prerelease-steps (prerelease_text (some p)) (p.label ++ optionally p.between p.number)
      p.label (optionally p.between p.number) p.number (rank p.phase) (decimal 0 p.number)
      (prerelease_text-nonempty p word)
      (without_separator-word p.ahead p.label (optionally p.between p.number) ahead word)
      (span_alpha-append p.label (optionally p.between p.number)
        (&&-eq-true (not (null p.label)) (all is_alpha p.label) word).1
        (between-EndsWord p.between p.number between number.0))
      (label-kind p.phase (lower_ascii p.label) label)
      (without_separator-number p.between p.number between number.0)
      (prerelease_number_lem p.number number)

-- a release ends where a pre-release begins
word-Closes :
    (o : Option ℕ) (t rest : Bytes) → IsSeparator o → IsWord t → Closes (optionally o (t ++ rest))
word-Closes (some x) [] rest h k = cc
word-Closes (some x) (y ∷ t) rest h k =
    (ground arith, rw (let e : (x == b'.' && is_digit y) ≡ false = ground arith in e) refl)
word-Closes none [] rest h k = cc
word-Closes none (y ∷ t) rest h k = (ground arith, alone y (t ++ rest) (ground arith))
  where
    alone : (y : ℕ) (s : Bytes) → (y == b'.') ≡ false → next_component (y ∷ s) ≡ none
    alone y [] e = refl
    alone y (z ∷ s) e = rw e refl

pub prerelease-Closes : (p : Option Prerelease) → IsPrerelease p → Closes (prerelease_text p)
prerelease-Closes none h = (refl, refl)
prerelease-Closes (some p) (ahead, label, between, number) =
    word-Closes p.ahead p.label (optionally p.between p.number) ahead
      (lower_ascii-IsWord p.label (label-IsWord p.phase (lower_ascii p.label) label))
