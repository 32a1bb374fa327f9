-- ===== src/Allowlist/Digest.antt =====
-- Lookup answers for digest-pinned references alone (internal/agent/allowlist.go).
use so_ho_link.Base.{
  ℕ, ◌<◌, ◌≡◌, refl, ap, ◌∙◌, ◌≢◌, false≢true, sym, subst, eq_of_same, ◌⊎◌, inl, inr, ◌↔◌, Bool,
  true, false, ◌&&◌, Option, none, some, List, [], ◌∷◌, ◌++◌, arith, ◌==◌, number_equality,
  if◌then◌else◌, In, length, Option-cases, Bool-cases,
}
use so_ho_link.Store.{Bytes}
use so_ho_link.Allowlist.{
  AllowlistEntry, Allowlist, Lookup, not_pinned, not_allowed, found, same_bytes, after_last,
  has_prefix, longer, extract_digest, find_digest, lookup_image, sha256_prefix,
}

pub same_bytes_iff : (xs ys : Bytes) → (same_bytes xs ys ≡ true) ↔ (xs ≡ ys)
same_bytes_iff [] [] = ground arith
same_bytes_iff [] (y ∷ ys) = ground arith
same_bytes_iff (x ∷ xs) [] = ground arith
same_bytes_iff (x ∷ xs) (y ∷ ys) = ground (arith, same_bytes_iff xs ys)

-- A reference pinned to `d`: a name, the last `@`, and a sha256 digest that is not empty.
pub record Pinned (image d : Bytes) : Type 0 where
  pub name : Bytes
  pub hex : Bytes
  pub shape : image ≡ name ++ b'@' ∷ d
  pub last : ¬ In b'@' d
  pub sha256 : d ≡ sha256_prefix ++ hex
  pub nonempty : 0 < length hex

-- The reference, cut at the last `c`.
abbrev Cut : ℕ → Bytes → Option Bytes → Type 0
Cut c xs none = ¬ In c xs
Cut c xs (some d) = (name : Bytes) × (xs ≡ name ++ c ∷ d) × (¬ In c d)

after_last-Cut : (c : ℕ) (xs : Bytes) → Cut c xs (after_last c xs)
unfolding after_last
after_last-Cut c [] = λ h. h
after_last-Cut c (x ∷ xs) = step (after_last c xs) (after_last-Cut c xs) (x == c) refl
  where
    step :
        (o : Option Bytes)
        → Cut c xs o
        → (b : Bool) → (x == c) ≡ b
        → Cut c (x ∷ xs) (elim o [ some rest ↦ some rest | none ↦ if b then some xs else none ])
    step none clear true e = ([], ap (λ y. y ∷ xs) (eq_of_same {a = x} {b = c} e), clear)
    step none clear false e =
        λ h. elim h [ inl same ↦ ground (arith, number_equality.same_iff x c) | inr i ↦ clear i ]
    step (some d) (name, shape, clear) b e = (x ∷ name, ap (◌∷◌ x) shape, clear)

has_prefix_iff : (p d : Bytes) → (has_prefix p d ≡ true) ↔ ((rest : Bytes) × (d ≡ p ++ rest))
unfolding has_prefix
has_prefix_iff [] d = ((λ _. (d, refl)), (λ _. refl))
has_prefix_iff (p ∷ ps) [] = ground arith
has_prefix_iff (p ∷ ps) (x ∷ xs) = (
  (λ h. let (rest, e) = (has_prefix_iff ps xs).0 (ground arith) in (rest, ground arith)),
  (λ h. let (rest, e) = h in ground (arith, (has_prefix_iff ps xs).1 (rest, ground arith))),
)

longer-append : (p rest : Bytes) → (longer (p ++ rest) p ≡ true) ↔ (0 < length rest)
unfolding longer
longer-append [] [] = ground arith
longer-append [] (x ∷ xs) = ground arith
longer-append (p ∷ ps) rest = longer-append ps rest

In-middle : (c : ℕ) (n e : Bytes) → In c (n ++ c ∷ e)
In-middle c [] e = inl refl
In-middle c (x ∷ n) e = inr (In-middle c n e)

tail_eq : {x y : ℕ} {xs ys : Bytes} → x ∷ xs ≡ y ∷ ys → xs ≡ ys
tail_eq h = cc

-- Two cuts at the last `c` agree.
cut_unique : (c : ℕ) (m n d e : Bytes) → m ++ c ∷ d ≡ n ++ c ∷ e → ¬ In c d → ¬ In c e → d ≡ e
cut_unique c [] [] d e h u v = ground arith
cut_unique c [] (y ∷ n) d e h u v = absurd (u (subst (In c) (sym (tail_eq h)) (In-middle c n e)))
cut_unique c (x ∷ m) [] d e h u v = absurd (v (subst (In c) (tail_eq h) (In-middle c m d)))
cut_unique c (x ∷ m) (y ∷ n) d e h u v = cut_unique c m n d e (ground arith) u v

extract_digest-Pinned : (image : Bytes) {d : Bytes} → extract_digest image ≡ some d → Pinned image d
unfolding extract_digest
extract_digest-Pinned image {d} h = go (after_last b'@' image) (after_last-Cut b'@' image) h
  where
    go :
        (o : Option Bytes)
        → Cut b'@' image o
        → elim o [
          | none ↦ none
          | some d' ↦
              if has_prefix sha256_prefix d' && longer d' sha256_prefix then some d' else none
        ]
          ≡ some d
        → Pinned image d
    go none clear e = cc
    go (some d') (name, shape, clear) e =
        let (hex, split) = (has_prefix_iff sha256_prefix d').0 (ground arith) in
        let long : longer d' sha256_prefix ≡ true = ground arith in
        let same : d' ≡ d = ground arith in
        subst (Pinned image) same (record {
          name = name;
          hex = hex;
          shape = shape;
          last = clear;
          sha256 = split;
          nonempty =
              (longer-append sha256_prefix hex).0
                (subst (λ x. longer x sha256_prefix ≡ true) split long);
        })

Pinned-extract_digest : (image : Bytes) {d : Bytes} → Pinned image d → extract_digest image ≡ some d
unfolding extract_digest
Pinned-extract_digest image {d} p = go (after_last b'@' image) (after_last-Cut b'@' image)
  where
    go :
        (o : Option Bytes)
        → Cut b'@' image o
        → elim o [
          | none ↦ none
          | some d' ↦
              if has_prefix sha256_prefix d' && longer d' sha256_prefix then some d' else none
        ]
          ≡ some d
    go none clear = absurd (clear (subst (In b'@') (sym p.shape) (In-middle b'@' p.name d)))
    go (some d') (name, shape, clear) =
        let same : d' ≡ d = cut_unique b'@' name p.name d' d (sym shape ∙ p.shape) clear p.last in
        let prefix : has_prefix sha256_prefix d ≡ true =
          (has_prefix_iff sha256_prefix d).1 (p.hex, p.sha256) in
        let long : longer d sha256_prefix ≡ true =
          subst (λ x. longer x sha256_prefix ≡ true) (sym p.sha256)
            ((longer-append sha256_prefix p.hex).1 p.nonempty) in
        rw (same, prefix, long)

-- What a lookup's answer says of the reference and of the list.
abbrev pub Judges : Allowlist → Bytes → Lookup → Type 0
Judges a image not_pinned = (d : Bytes) → ¬ Pinned image d
Judges a image not_allowed =
    (d : Bytes) × Pinned image d × ((e : AllowlistEntry) → In e a.entries → e.digest ≢ d)
Judges a image (found e) = Pinned image e.digest × In e a.entries

find_digest-Judges :
    (a : Allowlist) (image d : Bytes) (es : List AllowlistEntry)
    → Pinned image d
    → ((e : AllowlistEntry) → In e es → In e a.entries)
    → ((e : AllowlistEntry) → In e a.entries → (e.digest ≢ d) ⊎ In e es)
    → Judges a image (find_digest d es)
unfolding find_digest
find_digest-Judges a image d [] p inside passed =
    (d, p, λ e i. elim (passed e i) [ inl other ↦ other | inr i' ↦ absurd i' ])
find_digest-Judges a image d (x ∷ es) p inside passed = elim (Bool-cases (same_bytes x.digest d)) [
  | inl hit ↦
      rw hit (subst (Pinned image) (sym ((same_bytes_iff x.digest d).0 hit)) p, inside x (inl refl))
  | inr miss ↦ rw miss (
      find_digest-Judges a image d es p (λ e i. inside e (inr i))
        (λ e i. elim (passed e i) [
          | inl other ↦ inl other
          | inr j ↦ elim j [
            | inl here ↦ inl (λ same. false≢true (
                sym miss
                ∙ (same_bytes_iff x.digest d).1
                    (ap (λ (y : AllowlistEntry). y.digest) (sym here) ∙ same)))
            | inr there ↦ inr there
          ]
        ]))
]

-- Lookup refuses a reference that no sha256 digest pins, answers with an entry of the list that
-- carries the pinned digest, and refuses a pinned reference only if no entry carries its digest.
pub lookup_image-Judges : (a : Allowlist) (image : Bytes) → Judges a image (lookup_image a image)
unfolding lookup_image
lookup_image-Judges a image = elim (Option-cases (extract_digest image)) [
  | inl loose ↦ rw (loose, lookup_image) (λ d p. ground (arith, Pinned-extract_digest image p))
  | inr (d, pinned) ↦
      rw (pinned, lookup_image)
        (find_digest-Judges a image d a.entries (extract_digest-Pinned image pinned) (λ e i. i)
          (λ e i. inr i))
]
