-- ===== src/Tests/Like.antt =====
-- An executable LIKE for the runs: `%` is any run of characters, `_` any character, ASCII letters in either
-- case; and that it finds what LIKE is documented to find.
use sealedstellar.Common.{
  ◌||◌, if◌then◌else◌, ℕ, ◌≡◌, refl, ap, sym, ◌∙◌, ◌↔◌, inl, inr, Bool, true, false, ◌&&◌, List, [],
  ◌∷◌, ◌++◌, map, ◌==◌, ==_iff, Bool-cases, &&-eq-true, All,
}
use sealedstellar.Indexer.Query.{fold_case, surround}
use sealedstellar.Indexer.Query.Search.{IsPlain, Occurs, IsLike}

-- `s LIKE pattern` of SQLite: `%` is any run, `_` any character, ASCII letters in either case.
unfoldable pub some_suffix : (List ℕ → Bool) → List ℕ → Bool
some_suffix rest [] = rest []
some_suffix rest (d ∷ s) = rest (d ∷ s) || some_suffix rest s

unfoldable pub like_step : ℕ → (List ℕ → Bool) → List ℕ → Bool
unfolding some_suffix
like_step c rest [] = if c == b'%' then some_suffix rest [] else false
like_step c rest (d ∷ s) =
    if c == b'%'
    then some_suffix rest (d ∷ s)
    else (c == b'_' || fold_case c == fold_case d) && rest s

unfoldable pub like : List ℕ → List ℕ → Bool
unfolding like_step
like [] [] = true
like [] (d ∷ s) = false
like (c ∷ p) s = like_step c (like p) s

Begins : List ℕ → List ℕ → Type 0
Begins q s =
    (part : List ℕ) × (rest : List ℕ) × (s ≡ part ++ rest) × (map fold_case part ≡ map fold_case q)

some_suffix_to :
    (f : List ℕ → Bool) (s : List ℕ)
    → some_suffix f s ≡ true
    → (front : List ℕ) × (t : List ℕ) × (s ≡ front ++ t) × (f t ≡ true)
unfolding some_suffix
some_suffix_to f [] h = ([], [], refl, h)
some_suffix_to f (d ∷ s) h = elim (Bool-cases (f (d ∷ s))) [
  | inl here ↦ ([], d ∷ s, refl, here)
  | inr later ↦
      let (front, t, e, g) = some_suffix_to f s (rw later at h) in (d ∷ front, t, ap (◌∷◌ d) e, g)
]

some_suffix_here : (f : List ℕ → Bool) (s : List ℕ) → f s ≡ true → some_suffix f s ≡ true
unfolding some_suffix
some_suffix_here f [] h = h
some_suffix_here f (d ∷ s) h = rw h refl

some_suffix_from :
    (f : List ℕ → Bool) (front t : List ℕ) → f t ≡ true → some_suffix f (front ++ t) ≡ true
unfolding some_suffix
some_suffix_from f [] t h = some_suffix_here f t h
some_suffix_from f (d ∷ front) t h = elim (Bool-cases (f (d ∷ (front ++ t)))) [
  | inl here ↦ rw here refl
  | inr later ↦ rw later (some_suffix_from f front t h)
]

some_suffix_end : (s : List ℕ) → some_suffix (like []) s ≡ true
unfolding some_suffix like
some_suffix_end [] = refl
some_suffix_end (d ∷ s) = some_suffix_end s

like_any : (s : List ℕ) → like (b'%' ∷ []) s ≡ true
unfolding like like_step
like_any [] = some_suffix_end []
like_any (d ∷ s) = some_suffix_end (d ∷ s)

like-plain :
    (c : ℕ) (p : List ℕ) (d : ℕ) (s : List ℕ)
    → IsPlain c
    → like (c ∷ p) (d ∷ s) ≡ ((fold_case c == fold_case d) && like p s)
unfolding like like_step
like-plain c p d s (a, b) = rw (a, b) refl

like-plain_nil : (c : ℕ) (p : List ℕ) → IsPlain c → like (c ∷ p) [] ≡ false
unfolding like like_step
like-plain_nil c p (a, b) = rw a refl

fold_head :
    (c d : ℕ) (q part : List ℕ)
    → map fold_case (d ∷ part) ≡ map fold_case (c ∷ q)
    → (fold_case c ≡ fold_case d) × (map fold_case part ≡ map fold_case q)
fold_head c d q part e = (cc, cc)

like-Begins : (q s : List ℕ) → All IsPlain q → like (q ++ b'%' ∷ []) s ≡ true → Begins q s
unfolding Begins
like-Begins [] s h e = ([], s, refl, refl)
like-Begins (c ∷ q) [] (a, h) e =
    absurd (let e' = sym (like-plain_nil c (q ++ b'%' ∷ []) a) ∙ e in cc)
like-Begins (c ∷ q) (d ∷ s) (a, h) e =
    let (same, more) =
      &&-eq-true (fold_case c == fold_case d) (like (q ++ b'%' ∷ []) s)
        (sym (like-plain c (q ++ b'%' ∷ []) d s a) ∙ e) in
    let (part, rest, cut, fold) = like-Begins q s h more in
    let head = (==_iff (fold_case c) (fold_case d)).0 same in
    (
      d ∷ part,
      rest,
      ap (◌∷◌ d) cut,
      ap (λ x. x ∷ map fold_case part) (sym head) ∙ ap (◌∷◌ (fold_case c)) fold,
    )

Begins-like :
    (q part rest : List ℕ)
    → All IsPlain q
    → map fold_case part ≡ map fold_case q
    → like (q ++ b'%' ∷ []) (part ++ rest) ≡ true
Begins-like [] [] rest h e = like_any rest
Begins-like [] (d ∷ part) rest h e = absurd (cc)
Begins-like (c ∷ q) [] rest h e = absurd (cc)
Begins-like (c ∷ q) (d ∷ part) rest (a, h) e =
    let (head, tail) = fold_head c d q part e in
    like-plain c (q ++ b'%' ∷ []) d (part ++ rest) a
    ∙ ap (λ x. x && like (q ++ b'%' ∷ []) (part ++ rest))
        ((==_iff (fold_case c) (fold_case d)).1 head)
    ∙ Begins-like q part rest h tail

like-surround : (q s : List ℕ) → like (surround q) s ≡ some_suffix (like (q ++ b'%' ∷ [])) s
unfolding like like_step
like-surround q [] = refl
like-surround q (d ∷ s) = refl

-- A search without `%` and `_` finds a symbol exactly if the searched text occurs in it, ASCII letters
-- in either case.
like-surround_iff : (q s : List ℕ) → All IsPlain q → (like (surround q) s ≡ true) ↔ Occurs q s
unfolding Occurs Begins
like-surround_iff q s h = (
  λ e.
      let (front, t, cut, begins) =
        some_suffix_to (like (q ++ b'%' ∷ [])) s (sym (like-surround q s) ∙ e) in
      let (part, rest, inside, fold) = like-Begins q t h begins in
      (front, part, rest, cut ∙ ap (◌++◌ front) inside, fold),
  λ (front, part, rest, cut, fold).
      like-surround q s
      ∙ ap (some_suffix (like (q ++ b'%' ∷ []))) cut
      ∙ some_suffix_from (like (q ++ b'%' ∷ [])) front (part ++ rest)
          (Begins-like q part rest h fold),
)

pub like-IsLike : IsLike like
like-IsLike = record { finds = like-surround_iff }
