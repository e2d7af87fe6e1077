-- ===== src/Acquisition/Sorting.antt =====
-- The order of descriptors, and `std::sort` by it.
use mathlib.Core.List.Perm
use mathlib.Core.List.{Perm}
use mcp_observatory.Prelude.{
  Bool-cases, equal, All, true, false, ◌&&◌, ◌≡◌, refl, List, [], ◌∷◌, inl, inr, Bytes, before,
  equal_iff, equal_refl, before_trans, before_total, Bool, not, ◌||◌, arith, ℕ, ltb, ◌==◌,
  if◌then◌else◌, subst, before_irrefl,
}
use mcp_observatory.Acquisition.Model.{ArtifactDescriptor, ArtifactArchiveFormat, tar_gzip, zip}
use mcp_observatory.Acquisition.Pypi.{precedes, place, sort_descriptors, format_before}

-- `identities` holds the pair of file name and hash once
abbrev pub Differs : ArtifactDescriptor → ArtifactDescriptor → Type 0
Differs d x = (equal d.filename x.filename && equal d.sha256 x.sha256) ≡ false

-- Strictly ascending.
abbrev pub IsAscending : List ArtifactDescriptor → Type 0
IsAscending [] = Unit
IsAscending (x ∷ xs) = All (λ y. precedes x y ≡ true) xs × IsAscending xs

-- No two of one file name and hash.
abbrev pub IsDistinct : List ArtifactDescriptor → Type 0
IsDistinct [] = Unit
IsDistinct (x ∷ xs) = All (λ y. Differs x y) xs × IsDistinct xs

-- the order of pairs of a file name and a hash
abbrev pair_before : Bytes → Bytes → Bytes → Bytes → Bool
pair_before n h n' h' = before n n' || (equal n n' && before h h')

pair_before_trans :
    (n h n' h' n'' h'' : Bytes)
    → pair_before n h n' h' ≡ true
    → pair_before n' h' n'' h'' ≡ true
    → pair_before n h n'' h'' ≡ true
pair_before_trans n h n' h' n'' h'' p q = ground (
  arith,
  before_trans n n' n'',
  before_trans h h' h'',
  (equal_iff n n').0,
  (equal_iff n' n'').0,
  equal_refl n,
)

pair_before_total :
    (n h n' h' : Bytes)
    → (equal n n' && equal h h') ≡ false
    → pair_before n h n' h' ≡ false
    → pair_before n' h' n h ≡ true
pair_before_total n h n' h' d p = ground (
  arith,
  before_total n n',
  before_total h h',
  (equal_iff n n').1,
  (equal_iff n' n).1,
  (equal_iff h h').1,
)

lex_trans :
    (f g k : ArtifactArchiveFormat) (x y z : Bool)
    → (x ≡ true → y ≡ true → z ≡ true)
    → (format_before f g || (not (format_before g f) && x)) ≡ true
    → (format_before g k || (not (format_before k g) && y)) ≡ true
    → (format_before f k || (not (format_before k f) && z)) ≡ true
lex_trans tar_gzip tar_gzip tar_gzip x y z h p q = h p q
lex_trans tar_gzip tar_gzip zip x y z h p q = refl
lex_trans tar_gzip zip tar_gzip x y z h p q = cc
lex_trans tar_gzip zip zip x y z h p q = refl
lex_trans zip tar_gzip k x y z h p q = cc
lex_trans zip zip tar_gzip x y z h p q = cc
lex_trans zip zip zip x y z h p q = h p q

lex_total :
    (f g : ArtifactArchiveFormat) (x y : Bool)
    → (x ≡ false → y ≡ true)
    → (format_before f g || (not (format_before g f) && x)) ≡ false
    → (format_before g f || (not (format_before f g) && y)) ≡ true
lex_total tar_gzip tar_gzip x y h p = h p
lex_total tar_gzip zip x y h p = cc
lex_total zip tar_gzip x y h p = refl
lex_total zip zip x y h p = h p

precedes_trans :
    (a b c : ArtifactDescriptor) → precedes a b ≡ true → precedes b c ≡ true → precedes a c ≡ true
unfolding precedes
precedes_trans a b c =
    lex_trans a.archive_format b.archive_format c.archive_format _ _ _
      (pair_before_trans a.filename a.sha256 b.filename b.sha256 c.filename c.sha256)

precedes_total :
    (a b : ArtifactDescriptor) → Differs a b → precedes a b ≡ false → precedes b a ≡ true
unfolding precedes
precedes_total a b d =
    lex_total a.archive_format b.archive_format _ _
      (pair_before_total a.filename a.sha256 b.filename b.sha256 d)

place-Perm : (d : ArtifactDescriptor) (xs : List ArtifactDescriptor) → Perm (place d xs) (d ∷ xs)
unfolding place
place-Perm d [] = Perm.refl (d ∷ [])
place-Perm d (x ∷ xs) = elim (Bool-cases (precedes d x)) [
  | inl p ↦ rw p (Perm.refl (d ∷ x ∷ xs))
  | inr p ↦ rw p (Perm.trans (Perm.cons x (place-Perm d xs)) (Perm.swap d x xs))
]

pub sort_descriptors-Perm : (ds : List ArtifactDescriptor) → Perm (sort_descriptors ds) ds
unfolding sort_descriptors
sort_descriptors-Perm [] = Perm.refl []
sort_descriptors-Perm (d ∷ ds) =
    Perm.trans (place-Perm d (sort_descriptors ds)) (Perm.cons d (sort_descriptors-Perm ds))

All-place {κ} :
    (P : ArtifactDescriptor → Type κ) (d : ArtifactDescriptor) (xs : List ArtifactDescriptor)
    → P d
    → All P xs
    → All P (place d xs)
unfolding place
All-place P d [] p h = (p, tt)
All-place P d (x ∷ xs) p (q, h) = elim (Bool-cases (precedes d x)) [
  | inl b ↦ rw b (p, (q, h))
  | inr b ↦ rw b (q, All-place P d xs p h)
]

pub All-sort_descriptors {κ} :
    (P : ArtifactDescriptor → Type κ) (ds : List ArtifactDescriptor)
    → All P ds
    → All P (sort_descriptors ds)
unfolding sort_descriptors
All-sort_descriptors P [] h = tt
All-sort_descriptors P (d ∷ ds) (p, h) =
    All-place P d (sort_descriptors ds) p (All-sort_descriptors P ds h)

All-precedes :
    (d x : ArtifactDescriptor) (xs : List ArtifactDescriptor)
    → precedes d x ≡ true
    → All (λ y. precedes x y ≡ true) xs
    → All (λ y. precedes d y ≡ true) xs
All-precedes d x [] p h = tt
All-precedes d x (y ∷ ys) p (q, h) = (precedes_trans d x y p q, All-precedes d x ys p h)

place-IsAscending :
    (d : ArtifactDescriptor) (xs : List ArtifactDescriptor)
    → All (λ y. Differs d y) xs
    → IsAscending xs
    → IsAscending (place d xs)
unfolding place
place-IsAscending d [] u h = (tt, tt)
place-IsAscending d (x ∷ xs) (v, u) (p, h) = elim (Bool-cases (precedes d x)) [
  | inl b ↦ rw b ((b, All-precedes d x xs b p), (p, h))
  | inr b ↦ rw b (All-place _ d xs (precedes_total d x v b) p, place-IsAscending d xs u h)
]

pub sort_descriptors-IsAscending :
    (ds : List ArtifactDescriptor) → IsDistinct ds → IsAscending (sort_descriptors ds)
unfolding sort_descriptors
sort_descriptors-IsAscending [] h = tt
sort_descriptors-IsAscending (d ∷ ds) (u, h) =
    place-IsAscending d (sort_descriptors ds) (All-sort_descriptors _ ds u)
      (sort_descriptors-IsAscending ds h)

abbrev format_rank : ArtifactArchiveFormat → ℕ
format_rank tar_gzip = 0
format_rank zip = 1

-- Tar-gzip archives first, then zip archives; in a format by file name, and files of one name by
-- hash; no two are the same.
abbrev pub listed_before : ArtifactDescriptor → ArtifactDescriptor → Bool
listed_before d x =
    if format_rank d.archive_format == format_rank x.archive_format
    then (if equal d.filename x.filename
        then before d.sha256 x.sha256
        else before d.filename x.filename)
    else ltb (format_rank d.archive_format) (format_rank x.archive_format)

abbrev pub IsListed : List ArtifactDescriptor → Type 0
IsListed [] = Unit
IsListed (x ∷ xs) = All (λ y. listed_before x y ≡ true) xs × IsListed xs

by_name :
    (n h n' h' : Bytes)
    → pair_before n h n' h' ≡ true
    → (if equal n n' then before h h' else before n n') ≡ true
by_name n h n' h' p = ground (arith, (equal_iff n n').0, not_itself)
  where
    not_itself : n ≡ n' → before n n' ≡ false
    not_itself e = subst (λ m. before n m ≡ false) e (before_irrefl n)

by_format :
    (f g : ArtifactArchiveFormat) (x y : Bool)
    → (x ≡ true → y ≡ true)
    → (format_before f g || (not (format_before g f) && x)) ≡ true
    → (if format_rank f == format_rank g then y else ltb (format_rank f) (format_rank g)) ≡ true
by_format tar_gzip tar_gzip x y h p = h p
by_format tar_gzip zip x y h p = refl
by_format zip tar_gzip x y h p = cc
by_format zip zip x y h p = h p

precedes-listed_before : (d x : ArtifactDescriptor) → precedes d x ≡ true → listed_before d x ≡ true
unfolding precedes
precedes-listed_before d x =
    by_format d.archive_format x.archive_format _ _
      (by_name d.filename d.sha256 x.filename x.sha256)

All-listed_before :
    (d : ArtifactDescriptor) (xs : List ArtifactDescriptor)
    → All (λ y. precedes d y ≡ true) xs
    → All (λ y. listed_before d y ≡ true) xs
All-listed_before d [] h = tt
All-listed_before d (x ∷ xs) (p, h) = (precedes-listed_before d x p, All-listed_before d xs h)

pub IsAscending-IsListed : (ds : List ArtifactDescriptor) → IsAscending ds → IsListed ds
IsAscending-IsListed [] h = tt
IsAscending-IsListed (d ∷ ds) (p, h) = (All-listed_before d ds p, IsAscending-IsListed ds h)
